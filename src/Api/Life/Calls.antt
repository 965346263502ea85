-- ===== src/Api/Life/Calls.antt =====
-- Each call of a lawful client on a context that is there.
use libinput_rs.Common.{
  ℕ, zero, suc, ◌<◌, ◌==◌, ◌≡◌, ◌∙◌, refl, ap, sym, true, Option, none, some, List, [], arith,
  Bool-cases, inl, inr,
}
use libinput_rs.Common.Int.{pos}
use libinput_rs.Floats.{Floats}
use libinput_rs.Ffi.{Ptr, LibinputEvent}
use libinput_rs.Backend.World.{contains_key}
use libinput_rs.Api.Context.{LibinputContext}
use libinput_rs.Api.Context.Refs.{ref-refcount, unref-refcount, unref_last}
use libinput_rs.Api.Objects.{Heap, take, release, libinput_device_ref, libinput_device_unref}
use libinput_rs.Api.Objects.Refs.{Held, hold, Counted, Kept, ref-Kept, unref-Kept}
use libinput_rs.Api.Life.{
  LifeCall, library, ref_device, unref_device, ref_context, unref_context, Life, alive, dropped,
  Lived, set_heap, counted_device, life_call,
}
use libinput_rs.Api.Life.Memory.{is_listed, Keeps, Names-Keeps}
use libinput_rs.Api.Life.Dropped.{listed-IsLivePtr, drop_context-empty}
use libinput_rs.Api.Life.Client.{Client, observe, MayAsk}
use libinput_rs.Api.Life.Well.{IsWell, counts-Memory, received_live, call-Goes}

take_owned :
    (p : Ptr) (held : Held) (ps : List Ptr)
    → is_listed p ps ≡ true
    → ((q : Ptr) → 0 < held q → is_listed q ps ≡ true)
    → (q : Ptr) → 0 < hold (take p) held q
    → is_listed q ps ≡ true
take_owned p held ps listed owned q h = elim (Bool-cases (q == p)) [
  | inl e ↦ (let same : q ≡ p = ground arith in ap (λ x. is_listed x ps) same ∙ listed)
  | inr e ↦ owned q (ground arith)
]

module _ {fl : Floats} where
  abbrev pub IsGood : Client fl → Life fl → Type 0
  IsGood cl (alive c) = IsWell cl c
  IsGood cl (dropped w) = (cl.refs ≡ 0) × (w.heap ≡ [])

  -- The call ends, and leaves this for the client.
  abbrev pub Leads : Client fl → LifeCall fl → Lived fl → Type 0
  Leads cl k r =
      (l : Life fl) × (es : List (LibinputEvent fl)) × (r ≡ some (l, es))
      × IsGood (observe k es cl) l

  -- The references to devices change.
  counts-IsWell :
      (cl : Client fl) (held : Held) (heap : Heap fl) (c : LibinputContext fl)
      → ((q : Ptr) → contains_key q heap ≡ contains_key q c.world.heap)
      → Counted held heap
      → ((q : Ptr) → 0 < held q → is_listed q c.world.devices ≡ true)
      → ((q : Ptr) → suc (held q) < 0x8000_0000)
      → IsWell cl c
      → IsWell (record cl { held = held }) (set_heap heap c)
  counts-IsWell cl held heap c same counted owned few well =
      let keeps : Keeps c.world.heap heap = λ q h. same q ∙ h in
      record {
        memory = counts-Memory cl.held held heap c.world same counted owned well.memory;
        referenced = well.referenced;
        refcount = well.refcount;
        few = well.few;
        few_held = few;
        received = Names-Keeps c.world.heap heap cl.received keeps well.received;
        queued = Names-Keeps c.world.heap heap c.event_queue keeps well.queued;
      }

  counted_device-Leads :
      (cl : Client fl) (held : Held) (c : LibinputContext fl) (o : Option (Heap fl × Ptr))
      → Kept held c.world.heap o
      → ((q : Ptr) → 0 < held q → is_listed q c.world.devices ≡ true)
      → ((q : Ptr) → suc (held q) < 0x8000_0000)
      → IsWell cl c
      → (c' : LibinputContext fl) × (counted_device c o ≡ some (alive c', []))
        × IsWell (record cl { held = held }) c'
  counted_device-Leads cl held c none kept owned few well = elim kept [ ]
  counted_device-Leads cl held c (some (heap, _)) (counted, same) owned few well =
      (set_heap heap c, refl, counts-IsWell cl held heap c same counted owned few well)

  ref_device-Leads :
      (ctx p : Ptr) (cl : Client fl) (c : LibinputContext fl)
      → MayAsk (ref_device p) cl
      → IsWell cl c
      → Leads cl (ref_device p) (life_call ctx (ref_device p) (alive c))
  unfolding life_call
  ref_device-Leads ctx p cl c (known, few) well =
      let m = well.memory in
      let live = received_live c.world.heap p cl.received well.received known in
      let listed : is_listed p c.world.devices ≡ true = sym (m.listed p) ∙ live in
      let some_ptr = (listed-IsLivePtr cl.held c.world p m listed).0 in
      let kept = ref-Kept p cl.held c.world.heap some_ptr live few m.counted in
      let (c', e, well') =
        counted_device-Leads cl (hold (take p) cl.held) c (libinput_device_ref p c.world.heap) kept
          (take_owned p cl.held c.world.devices listed m.owned)
          (λ q. (let b = well.few_held q in ground arith)) well in
      (alive c', [], e, well')

  unref_device-Leads :
      (ctx p : Ptr) (cl : Client fl) (c : LibinputContext fl)
      → MayAsk (unref_device p) cl
      → IsWell cl c
      → Leads cl (unref_device p) (life_call ctx (unref_device p) (alive c))
  unfolding life_call
  unref_device-Leads ctx p cl c holds well =
      let m = well.memory in
      let listed = m.owned p holds in
      let (some_ptr, live) = listed-IsLivePtr cl.held c.world p m listed in
      let kept =
        unref-Kept p cl.held c.world.heap some_ptr live holds (well.few_held p) m.counted in
      let (c', e, well') =
        counted_device-Leads cl (hold (release p) cl.held) c (libinput_device_unref p c.world.heap)
          kept (λ q h. m.owned q (ground arith)) (λ q. (let b = well.few_held q in ground arith))
          well in
      (alive c', [], e, well')

  ref_context-Leads :
      (ctx : Ptr) (cl : Client fl) (c : LibinputContext fl)
      → MayAsk ref_context cl
      → IsWell cl c
      → Leads cl ref_context (life_call ctx ref_context (alive c))
  unfolding life_call
  ref_context-Leads ctx cl c few well =
      let next = ref-refcount c cl.refs well.refcount few in
      (
        alive (record c { refcount = pos (suc cl.refs) }),
        [],
        cc next,
        record {
          memory = well.memory;
          referenced = omega arith;
          refcount = refl;
          few = few;
          few_held = well.few_held;
          received = well.received;
          queued = well.queued;
        },
      )

  unref_context-Leads :
      (ctx : Ptr) (cl : Client fl) (c : LibinputContext fl) (n : ℕ)
      → cl.refs ≡ n
      → IsWell cl c
      → Leads cl unref_context (life_call ctx unref_context (alive c))
  unfolding life_call
  unref_context-Leads ctx cl c zero e well =
      let some_refs = well.referenced in let no_refs : ⊥ = omega arith in elim no_refs [ ]
  unref_context-Leads ctx cl c (suc zero) e well =
      let (w, gone, empty) = drop_context-empty cl.held c well.memory in
      let last = unref_last c (well.refcount ∙ ap pos e) in
      (dropped w, [], cc (gone, last), (omega arith, empty))
  unref_context-Leads ctx cl c (suc (suc n)) e well =
      let few = well.few in
      let next = unref-refcount c n (well.refcount ∙ ap pos e) (omega arith) in
      (
        alive (record c { refcount = pos (suc n) }),
        [],
        cc next,
        record {
          memory = well.memory;
          referenced = omega arith;
          refcount = ap pos (omega arith);
          few = omega arith;
          few_held = well.few_held;
          received = well.received;
          queued = well.queued;
        },
      )

  pub life_call-Leads :
      (ctx : Ptr) (k : LifeCall fl) (cl : Client fl) (l : Life fl)
      → 0 < cl.refs
      → MayAsk k cl
      → IsGood cl l
      → Leads cl k (life_call ctx k l)
  unfolding life_call
  life_call-Leads ctx k cl (dropped w) refs may (gone, _) =
      let no_refs : ⊥ = omega arith in elim no_refs [ ]
  life_call-Leads ctx (library k) cl (alive c) refs may well =
      let (c', es, e, well') = call-Goes ctx k cl c may well in (alive c', es, cc e, well')
  life_call-Leads ctx (ref_device p) cl (alive c) refs may well =
      ref_device-Leads ctx p cl c may well
  life_call-Leads ctx (unref_device p) cl (alive c) refs may well =
      unref_device-Leads ctx p cl c may well
  life_call-Leads ctx ref_context cl (alive c) refs may well = ref_context-Leads ctx cl c may well
  life_call-Leads ctx unref_context cl (alive c) refs may well =
      unref_context-Leads ctx cl c cl.refs refl well
