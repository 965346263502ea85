-- ===== src/Api/Life/Dropped.antt =====
-- The end of a context, which frees each of its devices.
use libinput_rs.Common.{
  ◌==◌, ◌≡◌, ◌∙◌, refl, true, false, some, List, [], ◌∷◌, ◌++◌, map, arith, All, Bool-cases, inl,
  inr, beq_self,
}
use mathlib.Core.Path.{subst}
use libinput_rs.Floats.{Floats}
use libinput_rs.Ffi.{Ptr, null}
use libinput_rs.Backend.World.{World, drop_fd, contains_key}
use libinput_rs.Api.Context.{LibinputContext}
use libinput_rs.Api.Objects.{Heap}
use libinput_rs.Api.Objects.Refs.{Held, IsLivePtr}
use libinput_rs.Api.Objects.Freed.{free_all-Freed}
use libinput_rs.Api.Life.{close_epoll, drop_context}
use libinput_rs.Api.Life.Memory.{is_listed, AllBelow, Memory}

-- What holds of every listed pointer holds of the list.
All-is_listed :
    (P : Ptr → Type 0) (ps : List Ptr) → ((q : Ptr) → is_listed q ps ≡ true → P q) → All P ps
All-is_listed P [] h = tt
All-is_listed P (p ∷ ps) h =
    (h p (rw (beq_self p) refl), All-is_listed P ps (λ q e. h q (ground arith)))

-- And the other way round.
All-listed : (P : Ptr → Type 0) (q : Ptr) (ps : List Ptr) → All P ps → is_listed q ps ≡ true → P q
All-listed P q [] a h = cc
All-listed P q (p ∷ ps) (a, as') h = elim (Bool-cases (p == q)) [
  | inl e ↦ (let same : p ≡ q = ground arith in subst P same a)
  | inr e ↦ All-listed P q ps as' (ground arith)
]

listed_some :
    (n q : Ptr) (ps : List Ptr) → AllBelow n ps → is_listed q ps ≡ true → (q == null) ≡ false
listed_some n q [] b h = cc
listed_some n q (p ∷ ps) ((pos, _), b) h = elim (Bool-cases (p == q)) [
  | inl e ↦ ground arith
  | inr e ↦ listed_some n q ps b (ground arith)
]

module _ {fl : Floats} where
  -- A pointer of the list is one to a live device.
  pub listed-IsLivePtr :
      (held : Held) (w : World fl) (q : Ptr)
      → Memory held w
      → is_listed q w.devices ≡ true
      → IsLivePtr w.heap q
  listed-IsLivePtr held w q m e = (listed_some w.next_ptr q w.devices m.below e, m.listed q ∙ e)

  empty_heap : (heap : Heap fl) → ((q : Ptr) → contains_key q heap ≡ false) → heap ≡ []
  unfolding contains_key
  empty_heap [] h = refl
  empty_heap ((p, d) ∷ heap) h = let here = h p in let same = beq_self p in ground arith

  gone_everywhere :
      (held : Held) (w : World fl) (left : Heap fl) (q : Ptr)
      → Memory held w
      → All (λ p. contains_key p left ≡ false) w.devices
      → (contains_key q w.heap ≡ false → contains_key q left ≡ false)
      → contains_key q left ≡ false
  gone_everywhere held w left q m gone absent = elim (Bool-cases (is_listed q w.devices)) [
    | inl e ↦ All-listed (λ p. contains_key p left ≡ false) q w.devices gone e
    | inr e ↦ absent (m.listed q ∙ e)
  ]

  -- No device is left, and none was freed twice.
  pub drop_context-empty :
      (held : Held) (c : LibinputContext fl)
      → Memory held c.world
      → (w : World fl) × (drop_context c ≡ some w) × (w.heap ≡ [])
  unfolding drop_context
  drop_context-empty held c m =
      let w = c.world in
      let f =
        free_all-Freed w.devices w.heap m.different
          (All-is_listed (IsLivePtr w.heap) w.devices (λ q e. listed-IsLivePtr held w q m e)) in
      let effects = w.effects ++ close_epoll c.epoll_fd ++ map (λ e. drop_fd e.0) w.tracked in
      (
        record w { heap = f.left; tracked = []; effects = effects },
        cc f.freed,
        empty_heap f.left (λ q. gone_everywhere held w f.left q m f.gone (f.absent q)),
      )
