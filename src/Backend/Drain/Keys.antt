-- ===== src/Backend/Drain/Keys.antt =====
-- The map from file descriptors to devices: distinct keys, look-ups and removals.
use mathlib.Core.Path.{subst}
use libinput_rs.Common.{
  inl, inr, Bool-cases, ◌∙◌, ℕ, ◌==◌, ◌≡◌, refl, true, false, not, some, List, [], ◌∷◌, arith,
  retain,
}
use libinput_rs.Backend.World.{contains_key, lookup}

module _ {ℓ} {A : Type ℓ} where
  abbrev pub Distinct : List (ℕ × A) → Type 0
  Distinct [] = Unit
  Distinct ((k, a) ∷ rest) = (contains_key k rest ≡ false) × Distinct rest

  abbrev pub without_key : ℕ → List (ℕ × A) → List (ℕ × A)
  without_key k = retain (λ e. not (e.0 == k))

  pub lookup-contains_key :
      (k : ℕ) (l : List (ℕ × A)) → contains_key k l ≡ true → (a : A) × (lookup k l ≡ some a)
  unfolding lookup contains_key
  lookup-contains_key k [] h = cc
  lookup-contains_key k ((j, a) ∷ rest) h = elim (Bool-cases (j == k)) [
    | inl e ↦ (a, ground arith)
    | inr e ↦ (let (b, eq) = lookup-contains_key k rest (ground arith) in (b, ground arith))
  ]

  contains_key-without :
      (j k : ℕ) (l : List (ℕ × A))
      → contains_key j l ≡ false
      → contains_key j (without_key k l) ≡ false
  unfolding contains_key retain
  contains_key-without j k [] h = refl
  contains_key-without j k (e ∷ rest) h = ground (arith, contains_key-without j k rest)

  pub Distinct-without : (k : ℕ) (l : List (ℕ × A)) → Distinct l → Distinct (without_key k l)
  unfolding retain
  Distinct-without k [] d = tt
  Distinct-without k ((j, a) ∷ rest) d =
      ground (arith, Distinct-without k rest d.1, contains_key-without j k rest d.0)

  without_absent : (k : ℕ) (l : List (ℕ × A)) → contains_key k l ≡ false → without_key k l ≡ l
  unfolding contains_key retain
  without_absent k [] h = refl
  without_absent k ((j, a) ∷ rest) h = ground (arith, without_absent k rest)

  without_here :
      (j k : ℕ) (a : A) (rest : List (ℕ × A))
      → (j == k) ≡ true
      → without_key k ((j, a) ∷ rest) ≡ without_key k rest
  unfolding retain
  without_here j k a rest e = ground arith

  -- Taking out the first key leaves the rest.
  pub without_first :
      (k j : ℕ) (a : A) (rest : List (ℕ × A))
      → Distinct ((j, a) ∷ rest)
      → (j == k) ≡ true
      → without_key k ((j, a) ∷ rest) ≡ rest
  without_first k j a rest d e =
      let absent : contains_key k rest ≡ false =
        (let same : j ≡ k = ground arith in subst (λ i. contains_key i rest ≡ false) same d.0) in
      without_here j k a rest e ∙ without_absent k rest absent
