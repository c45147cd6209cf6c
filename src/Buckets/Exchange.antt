-- ===== src/Buckets/Exchange.antt =====
-- The step of the placing loop that exchanges two entries.
use mathlib.Core.Path.{subst}
use cpp_project.Prelude.{
  ℕ, ◌+◌, ◌≤◌, ◌<◌, ◌≡◌, ◌⊎◌, inl, inr, Bool, true, false, ◌&&◌, some, List, arith, ltb, leb, ◌==◌,
  if◌then◌else◌, Bool-cases, ==_iff, get_elem?, set, holds_at, holds_at-set, holds_at-get_elem?,
  length-set, lt-length_of_get_elem?, count, count-swap, holds_at_mono,
}
use cpp_project.Buckets.{IsPlacing, room, apart}

module _ {ℓ} {A : Type ℓ} (slot : A → ℕ) where
  -- The loop moves an entry that stands elsewhere to the end of the filled part of its bucket,
  -- and takes in exchange what stood there.
  module _ {width : ℕ} {begins ends ends' : ℕ → ℕ} {xs : List A} {i : ℕ}
      (inv : IsPlacing slot width begins ends xs i) (x y : A) (at_x : get_elem? xs i ≡ some x)
      (at_y : get_elem? xs (ends (slot x)) ≡ some y)
      (out : (i < begins (slot x)) ⊎ (ends (slot x) ≤ i))
      (bump : (h : ℕ) → ends' h ≡ (if slot x == h then ends h + 1 else ends h)) where
    abbrev pub swapped : List A
    swapped = set (set xs i y) (ends (slot x)) x

    pub holds_at-swapped :
        (q : A → Bool) (p : ℕ)
        → holds_at q swapped p
          ≡ (if ends (slot x) == p then q x else if i == p then q y else holds_at q xs p)
    holds_at-swapped q p = ground (
      arith,
      lt-length_of_get_elem? xs i x,
      lt-length_of_get_elem? xs (ends (slot x)) y,
      length-set xs i y,
      holds_at-set q (set xs i y) (ends (slot x)) p x,
      holds_at-set q xs i p y,
    )

    pub count-swapped : (q : A → Bool) → count q swapped ≡ count q xs
    count-swapped q =
        count-swap q xs i (ends (slot x)) x y at_x at_y (lt-length_of_get_elem? xs i x at_x)

    filled_here :
        (p : ℕ)
        → begins (slot x) ≤ p
        → p < ends' (slot x)
        → holds_at (λ z. slot z == slot x) swapped p ≡ true
    filled_here p l r = ground (
      arith,
      holds_at-swapped (λ z. slot z == slot x) p,
      bump (slot x),
      inv.filled (slot x) p (inv.within x),
    )

    filled_there :
        (h p : ℕ)
        → h < width
        → (slot x == h) ≡ false
        → begins h ≤ p
        → p < ends' h
        → holds_at (λ z. slot z == h) swapped p ≡ true
    filled_there h p lt ne l r = ground (
      arith,
      holds_at-swapped (λ z. slot z == h) p,
      bump h,
      inv.filled h p lt,
      inv.ordered (slot x) (inv.within x),
      room slot inv x i at_x out,
      apart slot inv (slot x) h p (inv.within x) lt,
      holds_at-get_elem? (λ z. slot z == h) xs i x at_x,
    )

    placed_lem :
        (p : ℕ)
        → p < i
        → holds_at (λ z. leb (begins (slot z)) p && leb p (ends' (slot z))) swapped p ≡ true
    placed_lem p lt = ground (
      arith,
      holds_at-swapped (λ z. leb (begins (slot z)) p && leb p (ends' (slot z))) p,
      bump (slot x),
      inv.ordered (slot x) (inv.within x),
      holds_at_mono (λ z. leb (begins (slot z)) p && leb p (ends (slot z)))
          (λ z. leb (begins (slot z)) p && leb p (ends' (slot z)))
          (λ z e. ground (arith, bump (slot z))) xs p (inv.placed p lt),
    )

    filled_lem :
        (h p : ℕ)
        → h < width
        → begins h ≤ p
        → p < ends' h
        → holds_at (λ z. slot z == h) swapped p ≡ true
    filled_lem h p lt l r = elim (Bool-cases (slot x == h)) [
      | inl e ↦
          subst (λ k. begins k ≤ p → p < ends' k → holds_at (λ z. slot z == k) swapped p ≡ true)
            ((==_iff _ _).0 e) (filled_here p) l r
      | inr ne ↦ filled_there h p lt ne l r
    ]

    -- The exchange keeps the invariant.
    pub exchange : IsPlacing slot width begins ends' swapped i
    exchange = record {
      within = inv.within;
      starts = λ h lt. rw (count-swapped (λ z. ltb (slot z) h)) (inv.starts h lt);
      ordered = λ h lt. ground (arith, bump h, inv.ordered h lt);
      filled = filled_lem;
      placed = placed_lem;
    }
