-- ===== src/LrSgd/Features.antt =====
-- Which features have a weight, and which a gradient.
use mathlib.Core.Path.{subst}
use mathlib.Core.Logic.{◌≢◌}
use cpp_project.Prelude.{
  ◌≡◌, ◌∙◌, ◌⊎◌, inl, inr, refl, sym, ℤ, ◌==ℤ◌, ==ℤ_iff, false, List, [], ◌∷◌, map, none,
  Option-cases, Bool-cases,
}
use cpp_project.LrSgd.Weights.{
  find, set_weight, value_or, HasWeight, insert_weight-absent, set_weight-old, set_weight-new,
  set_weight-HasWeight,
}
use cpp_project.LrSgd.Updates.{Doubles, Settings, Random, init_weight, weigh_loop, slope_loop}

module _ {R : Type 0} where
  -- The keys of the second list have been added to the map.
  pub record IsAdded (m added m' : List (ℤ × R)) : Type 0 where
    pub old : (j : ℤ) → HasWeight m j → HasWeight m' j
    pub new : (j : ℤ) → HasWeight added j → HasWeight m' j
    pub only : (j : ℤ) → HasWeight m' j → HasWeight m j ⊎ HasWeight added j

  find-other :
      (idx j : ℤ) (x : R) (l : List (ℤ × R))
      → (idx ==ℤ j) ≡ false
      → find ((idx, x) ∷ l) j ≡ find l j
  unfolding find
  find-other idx j x l e = rw e refl

  pub HasWeight-head : (idx : ℤ) (x : R) (l : List (ℤ × R)) → HasWeight ((idx, x) ∷ l) idx
  unfolding find
  HasWeight-head idx x l = (x, rw ((==ℤ_iff idx idx).1 refl) refl)

  pub HasWeight-tail :
      (idx j : ℤ) (x : R) (l : List (ℤ × R)) → HasWeight l j → HasWeight ((idx, x) ∷ l) j
  unfolding find
  HasWeight-tail idx j x l (v, e) = elim (Bool-cases (idx ==ℤ j)) [
    | inl here ↦ (x, rw here refl)
    | inr there ↦ (v, rw there e)
  ]

  pub HasWeight-uncons :
      (idx j : ℤ) (x : R) (l : List (ℤ × R))
      → HasWeight ((idx, x) ∷ l) j
      → (idx ≡ j) ⊎ HasWeight l j
  unfolding find
  HasWeight-uncons idx j x l (v, e) = elim (Bool-cases (idx ==ℤ j)) [
    | inl here ↦ inl ((==ℤ_iff idx j).0 here)
    | inr there ↦ inr (v, sym (find-other idx j x l there) ∙ e)
  ]

  pub HasWeight-none : (j : ℤ) (m : List (ℤ × R)) → HasWeight m j → find m j ≢ none
  HasWeight-none j m (v, e) absent = cc

  pub HasWeight-nil : (j : ℤ) → ¬ HasWeight {R = R} [] j
  unfolding find
  HasWeight-nil j (v, e) = cc

  IsAdded-nil : (m : List (ℤ × R)) → IsAdded m [] m
  IsAdded-nil m = record {
    old = λ j h. h;
    new = λ j h. absurd (HasWeight-nil j h);
    only = λ j h. inl h;
  }

  -- A key that is there already, or is put there, and then the rest.
  IsAdded-step :
      (m m₁ m' : List (ℤ × R)) (idx : ℤ) (x : R) (rest : List (ℤ × R))
      → HasWeight m₁ idx
      → ((j : ℤ) → HasWeight m j → HasWeight m₁ j)
      → ((j : ℤ) → HasWeight m₁ j → (idx ≡ j) ⊎ HasWeight m j)
      → IsAdded m₁ rest m'
      → IsAdded m ((idx, x) ∷ rest) m'
  IsAdded-step m m₁ m' idx x rest here old only added = record {
    old = λ j h. added.old j (old j h);
    new = λ j h. elim (HasWeight-uncons idx j x rest h) [
      | inl e ↦ added.old j (subst (HasWeight m₁) e here)
      | inr tail ↦ added.new j tail
    ];
    only = λ j h. elim (added.only j h) [
      | inl before ↦ elim (only j before) [
        | inl e ↦ inr (subst (HasWeight ((idx, x) ∷ rest)) e (HasWeight-head idx x rest))
        | inr first ↦ inl first
      ]
      | inr tail ↦ inr (HasWeight-tail idx j x rest tail)
    ];
  }

  -- Values that are changed under their keys.
  pub find-map :
      (f : R → R) (m : List (ℤ × R)) (j : ℤ)
      → (HasWeight m j → HasWeight (map (λ p. (p.0, f p.1)) m) j)
        × (HasWeight (map (λ p. (p.0, f p.1)) m) j → HasWeight m j)
  find-map f [] j = ((λ h. h), (λ h. h))
  find-map f ((idx, x) ∷ m) j =
      let (there, back) = find-map f m j in
      (
        (λ h. elim (HasWeight-uncons idx j x m h) [
          | inl e ↦
              subst (HasWeight ((idx, f x) ∷ map (λ p. (p.0, f p.1)) m)) e
                (HasWeight-head idx (f x) _)
          | inr tail ↦ HasWeight-tail idx j (f x) _ (there tail)
        ]),
        (λ h. elim (HasWeight-uncons idx j (f x) (map (λ p. (p.0, f p.1)) m) h) [
          | inl e ↦ subst (HasWeight ((idx, x) ∷ m)) e (HasWeight-head idx x m)
          | inr tail ↦ HasWeight-tail idx j x m (back tail)
        ]),
      )

module _ {R G : Type 0} (doubles : Doubles R) (settings : Settings R) (random : Random R G) where
  open doubles use {of_nat, add, sub, mul}

  -- Every feature of an instance gets a weight.
  pub weigh_loop-IsAdded :
      (weights : List (ℤ × R)) (g : G) (sum : R) (features : List (ℤ × R))
      → IsAdded weights features (weigh_loop doubles settings random weights g sum features).0
  unfolding weigh_loop
  weigh_loop-IsAdded weights g sum [] = IsAdded-nil weights
  weigh_loop-IsAdded weights g sum ((idx, x) ∷ features) = elim (Option-cases (find weights idx)) [
    | inl absent ↦
        let drawn = init_weight doubles settings random g in
        rw (weigh_loop, absent, insert_weight-absent weights idx drawn.0 absent)
          (IsAdded-step weights (set_weight weights idx drawn.0) _ idx x features
            (set_weight-new weights idx drawn.0) (λ j. set_weight-old weights idx j drawn.0)
            (λ j. set_weight-HasWeight weights idx j drawn.0)
            (weigh_loop-IsAdded (set_weight weights idx drawn.0) drawn.1 (add sum (mul x drawn.0))
              features))
    | inr (v, present) ↦
        rw (weigh_loop, present)
          (IsAdded-step weights weights _ idx x features (v, present) (λ j h. h) (λ j h. inr h)
            (weigh_loop-IsAdded weights g (add sum (mul x v)) features))
  ]

  -- Every pair of an instance gets a gradient, its label too.
  pub slope_loop-IsAdded :
      (gradients : List (ℤ × R)) (error : R) (data_ins : List (ℤ × R))
      → IsAdded gradients data_ins (slope_loop doubles settings random gradients error data_ins)
  unfolding slope_loop
  slope_loop-IsAdded gradients error [] = IsAdded-nil gradients
  slope_loop-IsAdded gradients error ((idx, x) ∷ data_ins) =
      let v = add (value_or (find gradients idx) (of_nat 0)) (mul error x) in
      IsAdded-step gradients (set_weight gradients idx v) _ idx x data_ins
        (set_weight-new gradients idx v) (λ j. set_weight-old gradients idx j v)
        (λ j. set_weight-HasWeight gradients idx j v)
        (slope_loop-IsAdded (set_weight gradients idx v) error data_ins)
