-- ===== src/Api/Objects/Freed.antt =====
-- The end of a context, after a client that releases no more than it took.
use libinput_rs.Common.{
  suc, ◌<◌, ◌==◌, ◌≡◌, ◌∙◌, refl, false, Option, none, some, List, [], ◌∷◌, arith, All, All-map_of,
  length, retain,
}
use libinput_rs.Floats.{Floats}
use libinput_rs.Ffi.{Ptr}
use libinput_rs.Backend.World.{contains_key}
use libinput_rs.Backend.Drain.Keys.{lookup-contains_key}
use libinput_rs.Api.Objects.{Heap, RefCall, free, free_all, ref_calls}
use libinput_rs.Api.Objects.Refs.{
  Balanced, held_after, target, Counted, IsLivePtr, KeptAll, ref_calls-Kept,
}

abbrev pub Different : List Ptr → Type 0
Different [] = Unit
Different (p ∷ ps) = All (λ q. (q == p) ≡ false) ps × Different ps

module _ {fl : Floats} where
  contains_key-free :
      (q p : Ptr) (heap : Heap fl)
      → (q == p) ≡ false
      → contains_key q (free p heap) ≡ contains_key q heap
  unfolding contains_key retain
  contains_key-free q p [] h = refl
  contains_key-free q p ((i, d) ∷ heap) h = ground (arith, contains_key-free q p heap h)

  free-absent :
      (q p : Ptr) (heap : Heap fl)
      → contains_key q heap ≡ false
      → contains_key q (free p heap) ≡ false
  unfolding contains_key retain
  free-absent q p [] h = refl
  free-absent q p ((i, d) ∷ heap) h = ground (arith, free-absent q p heap)

  free_gone : (p : Ptr) (heap : Heap fl) → contains_key p (free p heap) ≡ false
  unfolding contains_key retain
  free_gone p [] = refl
  free_gone p ((i, d) ∷ heap) = ground (arith, free_gone p heap)

  still_live :
      (p : Ptr) (heap : Heap fl) (ps : List Ptr)
      → All (λ q. (q == p) ≡ false) ps
      → All (IsLivePtr heap) ps
      → All (IsLivePtr (free p heap)) ps
  still_live p heap [] d live = tt
  still_live p heap (q ∷ ps) (d, ds) ((some_ptr, here), lives) =
      ((some_ptr, contains_key-free q p heap d ∙ here), still_live p heap ps ds lives)

  pub record Freed (ps : List Ptr) (heap : Heap fl) : Type 0 where
    pub left : Heap fl
    pub freed : free_all ps heap ≡ some left
    pub gone : All (λ p. contains_key p left ≡ false) ps
    pub absent : (q : Ptr) → contains_key q heap ≡ false → contains_key q left ≡ false

  pub free_all-Freed :
      (ps : List Ptr) (heap : Heap fl) → Different ps → All (IsLivePtr heap) ps → Freed ps heap
  unfolding free_all
  free_all-Freed [] heap d live = record { left = heap; freed = refl; gone = tt; absent = λ q h. h }
  free_all-Freed (p ∷ ps) heap (d, ds) ((some_ptr, here), lives) =
      let (dev, found) = lookup-contains_key p heap here in
      let lives' : All (IsLivePtr (free p heap)) ps = still_live p heap ps d lives in
      let rest = free_all-Freed ps (free p heap) ds lives' in
      record {
        left = rest.left;
        freed = rw (some_ptr, found) rest.freed;
        gone = (rest.absent p (free_gone p heap), rest.gone);
        absent = λ q h. rest.absent q (free-absent q p heap h);
      }

  -- A client that releases only references that it took, fewer than 2^31 - 1 calls in all, keeps
  -- every device alive, with the library's reference and its own; and the end of the context frees
  -- each of its devices once.
  pub ref_calls-free_all :
      (cs : List RefCall) (ps : List Ptr) (heap : Heap fl)
      → Different ps
      → All (IsLivePtr heap) ps
      → All (λ c. IsLivePtr heap (target c)) cs
      → Balanced (λ _. 0) cs
      → suc (length cs) < 0x8000_0000
      → Counted (λ _. 0) heap
      → (heap' : Heap fl) × (left : Heap fl) × (ref_calls cs heap ≡ some heap')
        × Counted (held_after (λ _. 0) cs) heap'
        × (free_all ps heap' ≡ some left)
        × All (λ p. contains_key p left ≡ false) ps
  ref_calls-free_all cs ps heap d live lives balanced b h =
      finish (ref_calls cs heap) refl
        (ref_calls-Kept cs (λ _. 0) heap lives balanced (λ q. omega arith) h)
    where
      finish :
          (o : Option (Heap fl))
          → ref_calls cs heap ≡ o
          → KeptAll (held_after (λ _. 0) cs) heap o
          → (heap' : Heap fl) × (left : Heap fl) × (ref_calls cs heap ≡ some heap')
            × Counted (held_after (λ _. 0) cs) heap'
            × (free_all ps heap' ≡ some left)
            × All (λ p. contains_key p left ≡ false) ps
      finish none e k = elim k [ ]
      finish (some heap') e (counted, same) =
          let live' =
            All-map_of (IsLivePtr heap) (IsLivePtr heap') (λ p l. (l.0, same p ∙ l.1)) ps live in
          let r = free_all-Freed ps heap' d live' in (heap', r.left, e, counted, r.freed, r.gone)
