-- ===== src/Daemon/Loop/Table.antt =====
-- The table of devices, in which no token and no path stands twice: what keeps it so.
use Prim.Native.String.{String}
use mathlib.Core.Path.{subst}
use libinput_rs.Common.{
  ℕ, suc, ◌<◌, ◌==◌, ◌≡◌, refl, Bool, true, false, not, Bool-cases, inl, inr, none, some, List, [],
  ◌∷◌, arith, ap, sym, All, All-map_of, All-retain, retain,
}
use libinput_rs.Floats.{Floats}
use libinput_rs.Backend.World.{lookup, contains_key}
use libinput_rs.Backend.Drain.Keys.{Distinct, Distinct-without}
use libinput_rs.Daemon.Wrapper.{DeviceWrapper}
use libinput_rs.Daemon.Loop.{has_path, modify_key}

abbrev pub Devices : Floats → Type 0
Devices fl = List (ℕ × DeviceWrapper fl)

module _ {fl : Floats} where
  abbrev pub PathsDistinct : Devices fl → Type 0
  PathsDistinct [] = Unit
  PathsDistinct ((_, w) ∷ l) = (has_path w.path l ≡ false) × PathsDistinct l

  -- No path stands twice, no token stands twice, and the next token is new.
  pub record IsTable (next_token : ℕ) (l : Devices fl) : Type 0 where
    pub fresh : All (λ e. e.0 < next_token) l
    pub distinct : Distinct l
    pub paths : PathsDistinct l

  new_token : (n : ℕ) (l : Devices fl) → All (λ e. e.0 < n) l → contains_key n l ≡ false
  unfolding contains_key
  new_token n [] h = refl
  new_token n ((k, w) ∷ l) (h, hs) = ground (arith, new_token n l hs)

  later : (n : ℕ) (l : Devices fl) → All (λ e. e.0 < n) l → All (λ e. e.0 < suc n) l
  later n l h = All-map_of (λ e. e.0 < n) (λ e. e.0 < suc n) (λ e p. omega arith) l h

  pub insert-IsTable :
      (n : ℕ) (l : Devices fl) (w : DeviceWrapper fl)
      → IsTable n l
      → has_path w.path l ≡ false
      → IsTable (suc n) ((n, w) ∷ l)
  insert-IsTable n l w t new = record {
    fresh = (omega arith, later n l t.fresh);
    distinct = (new_token n l t.fresh, t.distinct);
    paths = (new, t.paths);
  }

  pub later-IsTable : (n : ℕ) (l : Devices fl) → IsTable n l → IsTable (suc n) l
  later-IsTable n l t = record { fresh = later n l t.fresh; distinct = t.distinct; paths = t.paths }

  -- Removal.
  has_path-retain :
      (q : ℕ × DeviceWrapper fl → Bool) (p : String) (l : Devices fl)
      → has_path p l ≡ false
      → has_path p (retain q l) ≡ false
  unfolding has_path retain
  has_path-retain q p [] h = refl
  has_path-retain q p (e ∷ l) h = ground (arith, has_path-retain q p l)

  PathsDistinct-retain :
      (q : ℕ × DeviceWrapper fl → Bool) (l : Devices fl)
      → PathsDistinct l
      → PathsDistinct (retain q l)
  unfolding retain
  PathsDistinct-retain q [] d = tt
  PathsDistinct-retain q ((k, w) ∷ l) d =
      ground (arith, PathsDistinct-retain q l d.1, has_path-retain q w.path l d.0)

  pub remove-IsTable :
      (n k : ℕ) (l : Devices fl) → IsTable n l → IsTable n (retain (λ e. not (e.0 == k)) l)
  remove-IsTable n k l t = record {
    fresh = All-retain (λ e. e.0 < n) (λ e. not (e.0 == k)) l t.fresh;
    distinct = Distinct-without k l t.distinct;
    paths = PathsDistinct-retain (λ e. not (e.0 == k)) l t.paths;
  }

  -- A device that is written back with the path that it had.
  contains_key-modify_key :
      (j k : ℕ) (w : DeviceWrapper fl) (l : Devices fl)
      → contains_key j (modify_key k w l) ≡ contains_key j l
  unfolding contains_key modify_key
  contains_key-modify_key j k w [] = refl
  contains_key-modify_key j k w ((i, x) ∷ l) = ground (arith, contains_key-modify_key j k w l)

  Distinct-modify_key :
      (k : ℕ) (w : DeviceWrapper fl) (l : Devices fl) → Distinct l → Distinct (modify_key k w l)
  unfolding modify_key
  Distinct-modify_key k w [] d = tt
  Distinct-modify_key k w ((i, x) ∷ l) d =
      ground (arith, Distinct-modify_key k w l d.1, contains_key-modify_key i k w l, d.0)

  fresh-modify_key :
      (n k : ℕ) (w : DeviceWrapper fl) (l : Devices fl)
      → All (λ e. e.0 < n) l
      → All (λ e. e.0 < n) (modify_key k w l)
  unfolding modify_key
  fresh-modify_key n k w [] h = tt
  fresh-modify_key n k w ((i, x) ∷ l) (h, hs) = ground (arith, fresh-modify_key n k w l hs)

  -- Every entry of the token `k` has the path `p`.
  abbrev At : ℕ → String → Devices fl → Type 0
  At k p = All (λ e. (e.0 == k) ≡ true → e.1.path ≡ p)

  At-absent : (k : ℕ) (p : String) (l : Devices fl) → contains_key k l ≡ false → At k p l
  unfolding contains_key
  At-absent k p [] h = tt
  At-absent k p ((i, x) ∷ l) h = (λ e. ground arith, At-absent k p l (ground arith))

  At-found :
      (k : ℕ) (w : DeviceWrapper fl) (l : Devices fl)
      → Distinct l
      → lookup k l ≡ some w
      → At k w.path l
  unfolding lookup
  At-found k w [] d h = tt
  At-found k w ((i, x) ∷ l) d h = elim (Bool-cases (i == k)) [
    | inl e ↦
        (let absent : contains_key k l ≡ false =
            (let same : i ≡ k = ground arith in subst (λ j. contains_key j l ≡ false) same d.0) in
          let here : some x ≡ some w = ground arith in
          (
            λ _. ap (λ o. elim o [ none ↦ x.path | some y ↦ y.path ]) here,
            At-absent k w.path l absent,
          ))
    | inr e ↦ ((λ e'. ground arith), At-found k w l d.1 (ground arith))
  ]

  has_path-modify_key :
      (k : ℕ) (w : DeviceWrapper fl) (q : String) (l : Devices fl)
      → At k w.path l
      → has_path q (modify_key k w l) ≡ has_path q l
  unfolding has_path modify_key
  has_path-modify_key k w q [] h = refl
  has_path-modify_key k w q ((i, x) ∷ l) (h, hs) = elim (Bool-cases (i == k)) [
    | inl e ↦ (let same = h e in let rest = has_path-modify_key k w q l hs in rw (e, same, rest))
    | inr e ↦ (let rest = has_path-modify_key k w q l hs in ground arith)
  ]

  PathsDistinct-modify_key :
      (k : ℕ) (w : DeviceWrapper fl) (l : Devices fl)
      → At k w.path l
      → PathsDistinct l
      → PathsDistinct (modify_key k w l)
  unfolding modify_key
  PathsDistinct-modify_key k w [] h d = tt
  PathsDistinct-modify_key k w ((i, x) ∷ l) (h, hs) d =
      let rest = PathsDistinct-modify_key k w l hs d.1 in
      let kept = has_path-modify_key k w x.path l hs in
      elim (Bool-cases (i == k)) [ inl e ↦ (let same = h e in ground arith) | inr e ↦ ground arith ]

  pub modify_key-IsTable :
      (n k : ℕ) (w0 w : DeviceWrapper fl) (l : Devices fl)
      → IsTable n l
      → lookup k l ≡ some w0
      → w.path ≡ w0.path
      → IsTable n (modify_key k w l)
  modify_key-IsTable n k w0 w l t found same =
      let at : At k w.path l =
        subst (λ p. At k p l) (sym same) (At-found k w0 l t.distinct found) in
      record {
        fresh = fresh-modify_key n k w l t.fresh;
        distinct = Distinct-modify_key k w l t.distinct;
        paths = PathsDistinct-modify_key k w l at t.paths;
      }
