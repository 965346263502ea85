-- ===== src/Api/Objects/Refs.antt =====
-- References to devices: a client that releases no more than it took.
use libinput_rs.Common.{
  ℕ, suc, ◌+◌, ◌-◌, ◌<◌, ◌==◌, ◌≡◌, ◌∙◌, refl, sym, ap, true, false, Bool-cases, inl, inr, Option,
  none, some, List, [], ◌∷◌, arith, All, All-map_of, length, if◌then◌else◌, if_split,
}
use mathlib.Core.Path.{subst}
use libinput_rs.Common.Int.{pos}
use libinput_rs.Common.Word.{i32_add, i32_sub}
use libinput_rs.Floats.{Floats}
use libinput_rs.Ffi.{Ptr, null}
use libinput_rs.Ffi.Device.{LibinputDevice}
use libinput_rs.Backend.World.{lookup, contains_key}
use libinput_rs.Backend.Drain.Keys.{lookup-contains_key}
use libinput_rs.Api.Session.{write_device}
use libinput_rs.Api.Session.Step.{contains_key-write_device}
use libinput_rs.Api.Context.Refs.{i32_add_one, i32_sub_one}
use libinput_rs.Api.Objects.{
  Heap, RefCall, take, release, is_spent, libinput_device_ref, libinput_device_unref, ref_call,
  ref_calls,
}

-- How many references the client holds to each device.
abbrev pub Held : Type 0
Held = Ptr → ℕ

abbrev pub hold : RefCall → Held → Held
hold (take p) held q = if q == p then suc (held q) else held q
hold (release p) held q = if q == p then held q - 1 else held q

abbrev pub Allowed : RefCall → Held → Type 0
Allowed (take p) held = Unit
Allowed (release p) held = 0 < held p

abbrev pub target : RefCall → Ptr
target (take p) = p
target (release p) = p

-- The client releases only what it holds.
abbrev pub Balanced : Held → List RefCall → Type 0
Balanced held [] = Unit
Balanced held (c ∷ cs) = Allowed c held × Balanced (hold c held) cs

abbrev pub held_after : Held → List RefCall → Held
held_after held [] = held
held_after held (c ∷ cs) = held_after (hold c held) cs

abbrev Bounded : Held → ℕ → Type 0
Bounded held n = (q : Ptr) → suc (held q) + n < 0x8000_0000

bound_next : (c : RefCall) (held : Held) (n : ℕ) → Bounded held (suc n) → Bounded (hold c held) n
bound_next (take p) held n b q = let here = b q in ground arith
bound_next (release p) held n b q = let here = b q in ground arith

module _ {fl : Floats} where
  -- Each device counts the library's reference and those of the client.
  abbrev pub Counted : Held → Heap fl → Type 0
  Counted held heap = All (λ e. e.1.refcount ≡ pos (suc (held e.0))) heap

  abbrev inc : LibinputDevice fl → LibinputDevice fl
  inc dev = record dev { refcount = i32_add dev.refcount (pos 1) }

  abbrev dec : LibinputDevice fl → LibinputDevice fl
  dec dev = record dev { refcount = i32_sub dev.refcount (pos 1) }

  pub Counted-write_device :
      (held held' : Held) (p : Ptr) (f : LibinputDevice fl → LibinputDevice fl) (heap : Heap fl)
      → ((d : LibinputDevice fl)
          → d.refcount ≡ pos (suc (held p))
          → (f d).refcount ≡ pos (suc (held' p)))
      → ((q : Ptr) → (q == p) ≡ false → held' q ≡ held q)
      → Counted held heap
      → Counted held' (write_device p f heap)
  unfolding write_device
  Counted-write_device held held' p f [] here there h = tt
  Counted-write_device held held' p f ((i, d) ∷ heap) here there (h, hs) =
      let rest = Counted-write_device held held' p f heap here there hs in
      if_split (Counted held') (i == p)
        (λ e.
          (let same : i ≡ p = ground arith in
            (
              subst (λ q. (f d).refcount ≡ pos (suc (held' q))) (sym same)
                  (here d (subst (λ q. d.refcount ≡ pos (suc (held q))) same h)),
              rest,
            )))
        (λ e. (h ∙ ap (λ n. pos (suc n)) (sym (there i e)), rest))

  -- A call that is allowed keeps the counts, and every device alive.
  abbrev pub Kept : Held → Heap fl → Option (Heap fl × Ptr) → Type 0
  Kept held heap none = ⊥
  Kept held heap (some (heap', p)) =
      Counted held heap' × ((q : Ptr) → contains_key q heap' ≡ contains_key q heap)

  pub Counted-lookup :
      (held : Held) (p : Ptr) (d : LibinputDevice fl) (heap : Heap fl)
      → Counted held heap
      → lookup p heap ≡ some d
      → d.refcount ≡ pos (suc (held p))
  unfolding lookup
  Counted-lookup held p d [] h found = cc
  Counted-lookup held p d ((i, x) ∷ heap) (h, hs) found = elim (Bool-cases (i == p)) [
    | inl e ↦
        (let same : i ≡ p = ground arith in
          let here : some x ≡ some d = ground arith in
          ap (λ o. elim o [ none ↦ x.refcount | some y ↦ y.refcount ]) (sym here)
          ∙ h
          ∙ ap (λ q. pos (suc (held q))) same)
    | inr e ↦ Counted-lookup held p d heap hs (ground arith)
  ]

  pub ref-Kept :
      (p : Ptr) (held : Held) (heap : Heap fl)
      → (p == null) ≡ false
      → contains_key p heap ≡ true
      → suc (suc (held p)) < 0x8000_0000
      → Counted held heap
      → Kept (hold (take p) held) heap (libinput_device_ref p heap)
  unfolding libinput_device_ref
  ref-Kept p held heap some_ptr live b h =
      let (d, found) = lookup-contains_key p heap live in
      let kept : Counted (hold (take p) held) (write_device p inc heap) =
        Counted-write_device held (hold (take p) held) p inc heap
          (λ d e. ap (λ z. i32_add z (pos 1)) e ∙ i32_add_one (suc (held p)) b ∙ ground arith)
          (λ q e. ground arith) h in
      rw (some_ptr, found) (kept, λ q. contains_key-write_device q p inc heap)

  pub unref-Kept :
      (p : Ptr) (held : Held) (heap : Heap fl)
      → (p == null) ≡ false
      → contains_key p heap ≡ true
      → 0 < held p
      → suc (held p) < 0x8000_0000
      → Counted held heap
      → Kept (hold (release p) held) heap (libinput_device_unref p heap)
  unfolding libinput_device_unref
  unref-Kept p held heap some_ptr live holds b h =
      let (d, found) = lookup-contains_key p heap live in
      let less : i32_sub (pos (suc (held p))) (pos 1) ≡ pos (held p) = i32_sub_one (held p) b in
      let left : i32_sub d.refcount (pos 1) ≡ pos (held p) =
        (ap (λ z. i32_sub z (pos 1)) (Counted-lookup held p d heap h found) ∙ less) in
      let alive : is_spent (i32_sub d.refcount (pos 1)) ≡ false =
        (ap is_spent left ∙ ground arith) in
      let kept : Counted (hold (release p) held) (write_device p dec heap) =
        Counted-write_device held (hold (release p) held) p dec heap
          (λ d e. ap (λ z. i32_sub z (pos 1)) e ∙ less ∙ ap pos (ground arith))
          (λ q e. ground arith) h in
      rw (some_ptr, found, alive) (kept, λ q. contains_key-write_device q p dec heap)

  -- What a run of calls leaves.
  abbrev pub KeptAll : Held → Heap fl → Option (Heap fl) → Type 0
  KeptAll held heap none = ⊥
  KeptAll held heap (some heap') =
      Counted held heap' × ((q : Ptr) → contains_key q heap' ≡ contains_key q heap)

  -- A pointer to a device that is there.
  abbrev pub IsLivePtr : Heap fl → Ptr → Type 0
  IsLivePtr heap p = ((p == null) ≡ false) × (contains_key p heap ≡ true)

  ref_call-Kept :
      (c : RefCall) (held : Held) (heap : Heap fl)
      → IsLivePtr heap (target c)
      → Allowed c held
      → suc (suc (held (target c))) < 0x8000_0000
      → Counted held heap
      → Kept (hold c held) heap (ref_call c heap)
  unfolding ref_call
  ref_call-Kept (take p) held heap (some_ptr, live) allowed b h =
      ref-Kept p held heap some_ptr live b h
  ref_call-Kept (release p) held heap (some_ptr, live) allowed b h =
      unref-Kept p held heap some_ptr live allowed (omega arith) h

  KeptAll-from :
      (held : Held) (heap heap' : Heap fl) (o : Option (Heap fl))
      → ((q : Ptr) → contains_key q heap' ≡ contains_key q heap)
      → KeptAll held heap' o
      → KeptAll held heap o
  KeptAll-from held heap heap' none same k = k
  KeptAll-from held heap heap' (some heap'') same (h, same') = (h, λ q. same' q ∙ same q)

  after_call :
      (cs : List RefCall) (held held' : Held) (heap : Heap fl) (o : Option (Heap fl × Ptr))
      → Kept held heap o
      → All (λ c. IsLivePtr heap (target c)) cs
      → ((heap' : Heap fl)
          → All (λ c. IsLivePtr heap' (target c)) cs
          → Counted held heap'
          → KeptAll held' heap' (ref_calls cs heap'))
      → KeptAll held' heap (elim o [ none ↦ none | some (heap', _) ↦ ref_calls cs heap' ])
  after_call cs held held' heap none k lives next = k
  after_call cs held held' heap (some (heap', p)) (h, same) lives next =
      let lives' =
        All-map_of (λ c. IsLivePtr heap (target c)) (λ c. IsLivePtr heap' (target c))
          (λ c l. (l.0, same (target c) ∙ l.1)) cs lives in
      KeptAll-from held' heap heap' (ref_calls cs heap') same (next heap' lives' h)

  pub ref_calls-Kept :
      (cs : List RefCall) (held : Held) (heap : Heap fl)
      → All (λ c. IsLivePtr heap (target c)) cs
      → Balanced held cs
      → Bounded held (length cs)
      → Counted held heap
      → KeptAll (held_after held cs) heap (ref_calls cs heap)
  unfolding ref_calls
  ref_calls-Kept [] held heap live balanced b h = (h, λ q. refl)
  ref_calls-Kept (c ∷ cs) held heap (live, lives) (allowed, balanced) b h =
      let bound : suc (suc (held (target c))) < 0x8000_0000 =
        (let here = b (target c) in omega arith) in
      after_call cs (hold c held) (held_after (hold c held) cs) heap (ref_call c heap)
        (ref_call-Kept c held heap live allowed bound h) lives
        (λ heap' lives' h'.
          ref_calls-Kept cs (hold c held) heap' lives' balanced (bound_next c held (length cs) b)
            h')
