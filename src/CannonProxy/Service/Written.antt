-- ===== src/CannonProxy/Service/Written.antt =====
-- What the values of the answer of cannon_proxy/src/proxy_server.cpp are while some of the keys are
-- written and others are not.
use mathlib.Core.Path.{ap₂}
use cpp_project.Prelude.{
  ℕ, suc, ◌<◌, ◌≡◌, refl, sym, ap, Bool, true, false, ◌&&◌, ◌||◌, not, List, [], ◌∷◌, length,
  replicate, set, Bool-cases, inl, inr, ◌==◌, ==_iff, if◌then◌else◌, arith,
}

unfoldable pub member : ℕ → List ℕ → Bool
member key [] = false
member key (k ∷ ks) = k == key || member key ks

pub member-head : (k : ℕ) (ks : List ℕ) → member k (k ∷ ks) ≡ true
unfolding member
member-head k ks = ground arith

pub member-tail : (j k : ℕ) (ks : List ℕ) → member j ks ≡ true → member j (k ∷ ks) ≡ true
unfolding member
member-tail j k ks there = ground arith

-- A key that is there has no other key that is not.
pub member-eq : (j k : ℕ) (ks : List ℕ) → (j == k) ≡ true → member j ks ≡ member k ks
member-eq j k ks e = ap (λ i. member i ks) ((==_iff j k).0 e)

apart_of : (j k : ℕ) (ks : List ℕ) → member j ks ≡ true → member k ks ≡ false → (j == k) ≡ false
apart_of j k ks there absent = elim (Bool-cases (j == k)) [
  | inl e ↦ cc (member-eq j k ks e)
  | inr e ↦ e
]

only_head :
    (k key : ℕ) (ks : List ℕ)
    → member key (k ∷ ks) ≡ true
    → member key ks ≡ false
    → (k == key) ≡ true
unfolding member
only_head k key ks there e = ground arith

-- The last place of a key.
unfoldable pub last_place : ℕ → List ℕ → ℕ
unfolding member
last_place key [] = 0
last_place key (k ∷ ks) = let rest = last_place key ks in if member key ks then suc rest else 0

module _ {ℓ} {A : Type ℓ} (unset : A) (item : ℕ → A) where
  -- Each key that is done has its item at its last place, and the other places are unset.
  unfoldable pub written : (ℕ → Bool) → List ℕ → List A
  unfolding member
  written done [] = []
  written done (k ∷ ks) = (if not (member k ks) && done k then item k else unset) ∷ written done ks

  pub length-written : (done : ℕ → Bool) (ks : List ℕ) → length (written done ks) ≡ length ks
  unfolding written
  length-written done [] = refl
  length-written done (k ∷ ks) = ap suc (length-written done ks)

  pub written-none : (ks : List ℕ) → written (λ k. false) ks ≡ replicate (length ks) unset
  unfolding written
  written-none [] = refl
  written-none (k ∷ ks) = ground (arith, written-none ks)

  pub written_same :
      (done done' : ℕ → Bool) (ks : List ℕ)
      → ((k : ℕ) → member k ks ≡ true → done k ≡ done' k)
      → written done ks ≡ written done' ks
  unfolding written member
  written_same done done' [] same = refl
  written_same done done' (k ∷ ks) same =
      ap₂ ◌∷◌
        (ap (λ b. if not (member k ks) && b then item k else unset) (same k (member-head k ks)))
        (written_same done done' ks (λ j there. same j (member-tail j k ks there)))

  later_stays :
      (done : ℕ → Bool) (k key : ℕ) (ks : List ℕ)
      → member key ks ≡ true
      → (not (member k ks) && done k) ≡ (not (member k ks) && ((k == key) || done k))
  later_stays done k key ks e = elim (Bool-cases (k == key)) [
    | inl same ↦ rw (member-eq k key ks same, e) refl
    | inr other ↦ rw other refl
  ]

  last_head :
      (done : ℕ → Bool) (k key : ℕ) (ks : List ℕ)
      → member key (k ∷ ks) ≡ true
      → member key ks ≡ false
      → item key ≡ (if not (member k ks) && ((k == key) || done k) then item k else unset)
  unfolding member
  last_head done k key ks there e =
      let same = only_head k key ks there e in
      rw (member-eq k key ks same, e, same) (ap item (sym ((==_iff k key).0 same)))

  pub set-written :
      (done : ℕ → Bool) (ks : List ℕ) (key : ℕ)
      → member key ks ≡ true
      → set (written done ks) (last_place key ks) (item key) ≡ written (λ k. k == key || done k) ks
  unfolding written member last_place
  set-written done [] key there = cc
  set-written done (k ∷ ks) key there = elim (Bool-cases (member key ks)) [
    | inl e ↦ rw e (
        ap₂ ◌∷◌ (ap (λ b. if b then item k else unset) (later_stays done k key ks e))
          (set-written done ks key e))
    | inr e ↦ rw e (
        ap₂ ◌∷◌ (last_head done k key ks there e) (
          written_same done (λ j. j == key || done j) ks
            (λ j there_j. sym (rw (apart_of j key ks there_j e) refl))))
  ]

pub last_place-lt : (ks : List ℕ) (key : ℕ) → member key ks ≡ true → last_place key ks < length ks
unfolding last_place member
last_place-lt [] key there = cc
last_place-lt (k ∷ ks) key there = ground (arith, last_place-lt ks key)
