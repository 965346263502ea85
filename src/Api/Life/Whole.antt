-- ===== src/Api/Life/Whole.antt =====
-- The whole life of a context under a lawful client.
use libinput_rs.Common.{
  ℕ, ◌<◌, ◌≡◌, ◌∙◌, refl, Option, none, some, List, [], ◌∷◌, arith, All-append,
}
use libinput_rs.Common.Int.{ℤ}
use mathlib.Core.Path.{subst}
use libinput_rs.Floats.{Floats}
use libinput_rs.Ffi.{Ptr}
use libinput_rs.Backend.World.{LibinputInterface, contains_key}
use libinput_rs.Backend.Drain.Named.{IsNamed}
use libinput_rs.Api.Context.{LibinputContext, new_context}
use libinput_rs.Api.Life.{LifeCall, Life, alive, dropped}
use libinput_rs.Api.Life.Client.{Client, new_client, observe, Lawful, life_calls, IsAccounted}
use libinput_rs.Api.Life.Well.{IsWell}
use libinput_rs.Api.Life.Calls.{IsGood, life_call-Leads}

not_below : 0 < 0 → ⊥
not_below h = omega arith

module _ {fl : Floats} where
  IsGood-IsAccounted : (cl : Client fl) (l : Life fl) → IsGood cl l → IsAccounted cl l
  IsGood-IsAccounted cl (dropped w) good = good
  IsGood-IsAccounted cl (alive c) well =
      let m = well.memory in
      (
        well.referenced,
        well.refcount,
        m.counted,
        All-append (IsNamed c.world.heap) cl.received c.event_queue well.received well.queued,
        λ q h. m.listed q ∙ m.owned q h,
      )

  -- What a run of calls comes to.
  abbrev pub Ends : Option (Client fl × Life fl) → Type 0
  Ends r = (cl : Client fl) × (l : Life fl) × (r ≡ some (cl, l)) × IsAccounted cl l

  life_calls-Ends :
      (ctx : Ptr) (ks : List (LifeCall fl)) (cl : Client fl) (l : Life fl)
      → Lawful ctx ks cl l
      → IsGood cl l
      → Ends (life_calls ctx ks cl l)
  unfolding life_calls
  life_calls-Ends ctx [] cl l lawful good = (cl, l, refl, IsGood-IsAccounted cl l good)
  life_calls-Ends ctx (k ∷ ks) cl l (refs, may, lawful) good =
      let (l', es, e, good') = life_call-Leads ctx k cl l refs may good in
      let lawful' : Lawful ctx ks (observe k es cl) l' =
        subst (λ r. elim r [ none ↦ Unit | some (l', es) ↦ Lawful ctx ks (observe k es cl) l' ]) e
          lawful in
      let (cl', l'', e', end) = life_calls-Ends ctx ks (observe k es cl) l' lawful' good' in
      (cl', l'', cc (e, e'), end)

  -- A client that creates a context and then, in any order and with any answers of the outside
  -- world, uses the context only while it holds a reference to it, refers to and configures only
  -- devices that an event handed to it has named, gives back only references that it holds, and
  -- writes no setting over a device's count, never makes the library read, write or free an object
  -- that is not there, provided that its references stay within an `i32`. While the client holds a
  -- reference to the context, the context counts exactly those references, each device counts those
  -- of the client and one more, and every event that was handed out or is queued names a live
  -- device, as does every pointer to a device that the client still holds. When the last reference
  -- to the context is given back, all its devices have been freed, whatever references to them the
  -- client still holds.
  pub life_calls-IsAccounted :
      (interface : LibinputInterface) (user_data : Ptr) (epoll_fd : ℤ) (inotify_fd : Option ℕ)
      (ctx seat : Ptr) (ks : List (LifeCall fl))
      → let c = new_context interface user_data epoll_fd inotify_fd ctx seat in
        Lawful ctx ks new_client (alive c) → Ends (life_calls ctx ks new_client (alive c))
  unfolding new_context contains_key
  life_calls-IsAccounted interface user_data epoll_fd inotify_fd ctx seat ks lawful =
      let c : LibinputContext fl = new_context interface user_data epoll_fd inotify_fd ctx seat in
      let well : IsWell new_client c = record {
        memory = record {
          positive = omega arith;
          below = tt;
          listed = λ q. refl;
          different = tt;
          counted = tt;
          owned = λ q h. elim (not_below h) [ ];
          live = tt;
        };
        referenced = omega arith;
        refcount = refl;
        few = omega arith;
        few_held = λ q. omega arith;
        received = tt;
        queued = tt;
      } in
      life_calls-Ends ctx ks new_client (alive c) lawful well
