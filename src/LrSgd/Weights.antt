-- ===== src/LrSgd/Weights.antt =====
-- `unordered_map<idxT, weightT>`: the pairs in the order in which the loops meet them. The order
-- here is that of the insertions; the theorems do not depend on it.
use mathlib.Core.Bool.{false≢true}
use cpp_project.Prelude.{
  ℤ, ◌==ℤ◌, ==ℤ_iff, ◌≡◌, ◌∙◌, ◌⊎◌, inl, inr, refl, sym, false, List, [], ◌∷◌, Option, none, some,
  if◌then◌else◌, Bool-cases,
}

other_key : (k idx j : ℤ) → (k ==ℤ idx) ≡ false → k ≡ j → (idx ==ℤ j) ≡ false
other_key k idx j ne e = elim (Bool-cases (idx ==ℤ j)) [
  | inl same ↦ absurd (false≢true (sym ne ∙ (==ℤ_iff k idx).1 (e ∙ sym ((==ℤ_iff idx j).0 same))))
  | inr other ↦ other
]

module _ {R : Type 0} where
  -- `find`
  unfoldable pub find : List (ℤ × R) → ℤ → Option R
  find [] idx = none
  find ((k, v) ∷ m) idx = if k ==ℤ idx then some v else find m idx

  -- The write through an iterator, or behind all if there is no such key.
  unfoldable pub set_weight : List (ℤ × R) → ℤ → R → List (ℤ × R)
  set_weight [] idx x = (idx, x) ∷ []
  set_weight ((k, v) ∷ m) idx x = if k ==ℤ idx then (k, x) ∷ m else (k, v) ∷ set_weight m idx x

  -- `insert` changes nothing if the key is there.
  unfoldable pub insert_weight : List (ℤ × R) → ℤ → R → List (ℤ × R)
  insert_weight m idx x = elim (find m idx) [ some v ↦ m | none ↦ set_weight m idx x ]

  -- `operator[]` on the way to a new value.
  unfoldable pub value_or : Option R → R → R
  value_or none x = x
  value_or (some v) x = v

  abbrev pub HasWeight : List (ℤ × R) → ℤ → Type 0
  HasWeight m idx = (v : R) × (find m idx ≡ some v)

  same_key :
      (k idx j : ℤ) (m : List (ℤ × R)) (v x : R)
      → k ≡ idx
      → (if k ==ℤ j then some x else find m j)
        ≡ (if idx ==ℤ j then some x else if k ==ℤ j then some v else find m j)
  same_key k idx j m v x e = rw e (elim (Bool-cases (idx ==ℤ j)) [ inl h ↦ rw h | inr h ↦ rw h ])

  pub find-set_weight :
      (m : List (ℤ × R)) (idx j : ℤ) (x : R)
      → find (set_weight m idx x) j ≡ (if idx ==ℤ j then some x else find m j)
  unfolding find set_weight
  find-set_weight [] idx j x = refl
  find-set_weight ((k, v) ∷ m) idx j x = elim (Bool-cases (k ==ℤ idx)) [
    | inl here ↦ rw here (same_key k idx j m v x ((==ℤ_iff k idx).0 here))
    | inr there ↦ elim (Bool-cases (k ==ℤ j)) [
      | inl e ↦ rw (there, e, other_key k idx j there ((==ℤ_iff k j).0 e))
      | inr e ↦ rw (there, e) (find-set_weight m idx j x)
    ]
  ]

  pub insert_weight-absent :
      (m : List (ℤ × R)) (idx : ℤ) (x : R)
      → find m idx ≡ none
      → insert_weight m idx x ≡ set_weight m idx x
  unfolding insert_weight
  insert_weight-absent m idx x absent = rw (insert_weight, absent)

  -- A key that is there stays there, and the new key is there.
  pub set_weight-old :
      (m : List (ℤ × R)) (idx j : ℤ) (x : R) → HasWeight m j → HasWeight (set_weight m idx x) j
  set_weight-old m idx j x (v, e) = elim (Bool-cases (idx ==ℤ j)) [
    | inl here ↦ (x, find-set_weight m idx j x ∙ rw here refl)
    | inr there ↦ (v, find-set_weight m idx j x ∙ rw there e)
  ]

  pub set_weight-new : (m : List (ℤ × R)) (idx : ℤ) (x : R) → HasWeight (set_weight m idx x) idx
  set_weight-new m idx x = (x, find-set_weight m idx idx x ∙ rw ((==ℤ_iff idx idx).1 refl) refl)

  pub set_weight-HasWeight :
      (m : List (ℤ × R)) (idx j : ℤ) (x : R)
      → HasWeight (set_weight m idx x) j
      → (idx ≡ j) ⊎ HasWeight m j
  set_weight-HasWeight m idx j x (v, e) = elim (Bool-cases (idx ==ℤ j)) [
    | inl here ↦ inl ((==ℤ_iff idx j).0 here)
    | inr there ↦ inr (v, sym (find-set_weight m idx j x ∙ rw there refl) ∙ e)
  ]
