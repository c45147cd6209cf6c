-- ===== src/LrSgd/Batches.antt =====
-- A batch: which weights there are when its gradient is applied, and whether that ends without a
-- fault.
use mathlib.Core.Path.{subst}
use cpp_project.Prelude.{
  ℕ, zero, suc, ◌<◌, ◌≡◌, ◌∙◌, ◌⊎◌, inl, inr, refl, ap, sym, ℤ, pos, List, [], ◌∷◌, map, length,
  some, Option-cases, get_elem?, get_elem?-some, leb, count, arith,
}
use cpp_project.Run.{ok, fault, out_of_bounds, ◌>>=◌, IsOk, at, at-get_elem?}
use cpp_project.LrSgd.Weights.{find, set_weight, HasWeight, set_weight-old, set_weight-HasWeight}
use cpp_project.LrSgd.Updates.{
  Doubles, Settings, Random, add_instance, batch_loop, mini_batch_gradient,
  apply_cumulative_l1_penalty, slope_loop, weigh_loop, label_of, sigmoid,
}
use cpp_project.LrSgd.Features.{
  IsAdded, HasWeight-head, HasWeight-tail, HasWeight-uncons, HasWeight-nil, find-map,
  weigh_loop-IsAdded, slope_loop-IsAdded,
}

module _ {R : Type 0} where
  -- An instance as it is read: a label under the index 0, and features.
  abbrev pub IsInstance : List (ℤ × R) → Type 0
  IsInstance [] = ⊥
  IsInstance ((idx, label) ∷ features) = idx ≡ pos 0

  abbrev pub AreInstances : List (List (ℤ × R)) → Type 0
  AreInstances [] = Unit
  AreInstances (data_ins ∷ instances) = IsInstance data_ins × AreInstances instances

  -- Whether one of the features has the index 0.
  abbrev pub HasZero : List (ℤ × R) → Type 0
  HasZero [] = ⊥
  HasZero (label ∷ features) = HasWeight features (pos 0)

  abbrev pub AllHaveZero : List (List (ℤ × R)) → Type 0
  AllHaveZero [] = Unit
  AllHaveZero (data_ins ∷ instances) = HasZero data_ins × AllHaveZero instances

  abbrev pub NoneHasZero : List (List (ℤ × R)) → Type 0
  NoneHasZero [] = Unit
  NoneHasZero (data_ins ∷ instances) = (¬ HasZero data_ins) × NoneHasZero instances

  pub IsInstance-parts :
      (data_ins : List (ℤ × R))
      → IsInstance data_ins
      → (label : R) × (features : List (ℤ × R)) × (data_ins ≡ (pos 0, label) ∷ features)
  IsInstance-parts [] h = absurd h
  IsInstance-parts ((idx, label) ∷ features) h =
      (label, features, ap (λ k. (k, label) ∷ features) h)

  AreInstances-at :
      (instances : List (List (ℤ × R))) (i : ℕ) (data_ins : List (ℤ × R))
      → get_elem? instances i ≡ some data_ins
      → AreInstances instances
      → IsInstance data_ins
  AreInstances-at [] i data_ins at h = cc
  AreInstances-at (x ∷ instances) zero data_ins at h = subst IsInstance (cc) h.0
  AreInstances-at (x ∷ instances) (suc i) data_ins at h =
      AreInstances-at instances i data_ins at h.1

  AllHaveZero-at :
      (instances : List (List (ℤ × R))) (i : ℕ) (data_ins : List (ℤ × R))
      → get_elem? instances i ≡ some data_ins
      → AllHaveZero instances
      → HasZero data_ins
  AllHaveZero-at [] i data_ins at h = cc
  AllHaveZero-at (x ∷ instances) zero data_ins at h = subst HasZero (cc) h.0
  AllHaveZero-at (x ∷ instances) (suc i) data_ins at h = AllHaveZero-at instances i data_ins at h.1

  NoneHasZero-at :
      (instances : List (List (ℤ × R))) (i : ℕ) (data_ins : List (ℤ × R))
      → get_elem? instances i ≡ some data_ins
      → NoneHasZero instances
      → ¬ HasZero data_ins
  NoneHasZero-at [] i data_ins at h = cc
  NoneHasZero-at (x ∷ instances) zero data_ins at h = subst (λ l. ¬ HasZero l) (cc) h.0
  NoneHasZero-at (x ∷ instances) (suc i) data_ins at h = NoneHasZero-at instances i data_ins at h.1

-- No place is from `n` on.
abbrev pub AllBelow : ℕ → List ℕ → Type 0
AllBelow n data_idx = count (λ i. leb n i) data_idx ≡ 0

module _ {R G : Type 0} (doubles : Doubles R) (settings : Settings R) (random : Random R G) where
  open doubles use {of_nat, add, sub, mul, div}

  -- What a batch of the instances does to the weights and the gradients.
  pub record IsBatched (instances : List (List (ℤ × R))) (data_idx : List ℕ)
      (weights gradients weights' gradients' : List (ℤ × R)) : Type 0 where
    pub old : (j : ℤ) → HasWeight gradients j → HasWeight gradients' j
    pub kept : (j : ℤ) → HasWeight weights j → HasWeight weights' j
    pub covered :
        (j : ℤ)
        → HasWeight gradients' j
        → HasWeight gradients j ⊎ ((j ≡ pos 0) × (0 < length data_idx)) ⊎ HasWeight weights' j
    pub labelled : 0 < length data_idx → HasWeight gradients' (pos 0)
    pub with_zero : AllHaveZero instances → 0 < length data_idx → HasWeight weights' (pos 0)
    pub without_zero :
        NoneHasZero instances → HasWeight weights' (pos 0) → HasWeight weights (pos 0)

  IsBatched-nil :
      (instances : List (List (ℤ × R))) (weights gradients : List (ℤ × R))
      → IsBatched instances [] weights gradients weights gradients
  IsBatched-nil instances weights gradients = record {
    old = λ j h. h;
    kept = λ j h. h;
    covered = λ j h. inl h;
    labelled = λ lt. absurd (omega arith);
    with_zero = λ all lt. absurd (omega arith);
    without_zero = λ none_has h. h;
  }

  -- One instance, and then the rest of the batch.
  IsBatched-step :
      (instances : List (List (ℤ × R))) (i : ℕ) (data_idx : List ℕ) (label : R)
      (features weights weights₁ weights' gradients gradients₁ gradients' : List (ℤ × R))
      → get_elem? instances i ≡ some ((pos 0, label) ∷ features)
      → IsAdded weights features weights₁
      → IsAdded gradients ((pos 0, label) ∷ features) gradients₁
      → IsBatched instances data_idx weights₁ gradients₁ weights' gradients'
      → IsBatched instances (i ∷ data_idx) weights gradients weights' gradients'
  IsBatched-step instances i data_idx label features weights weights₁ weights' gradients gradients₁
        gradients' at_i weighed sloped rest =
      record {
        old = λ j h. rest.old j (sloped.old j h);
        kept = λ j h. rest.kept j (weighed.old j h);
        covered = λ j h. elim (rest.covered j h) [
          | inl before ↦ elim (sloped.only j before) [
            | inl first ↦ inl first
            | inr here ↦ elim (HasWeight-uncons (pos 0) j label features here) [
              | inl e ↦ inr (inl (sym e, omega arith))
              | inr tail ↦ inr (inr (rest.kept j (weighed.new j tail)))
            ]
          ]
          | inr (inl (e, lt)) ↦ inr (inl (e, omega arith))
          | inr (inr there) ↦ inr (inr there)
        ];
        labelled =
            λ lt. rest.old (pos 0) (sloped.new (pos 0) (HasWeight-head (pos 0) label features));
        with_zero = λ all lt.
            rest.kept (pos 0) (
              weighed.new (pos 0)
                (AllHaveZero-at instances i ((pos 0, label) ∷ features) at_i all));
        without_zero = λ none_has h. elim (weighed.only (pos 0) (rest.without_zero none_has h)) [
          | inl before ↦ before
          | inr here ↦
              absurd (NoneHasZero-at instances i ((pos 0, label) ∷ features) at_i none_has here)
        ];
      }

  batch_loop_lem :
      (instances : List (List (ℤ × R)))
      → AreInstances instances
      → (data_idx : List ℕ) (weights : List (ℤ × R)) (g : G) (gradients : List (ℤ × R))
      → AllBelow (length instances) data_idx
      → (weights' : List (ℤ × R)) × (g' : G) × (gradients' : List (ℤ × R)) × (batch_loop doubles
            settings random instances data_idx weights g gradients
          ≡ ok (weights', g', gradients'))
        × IsBatched instances data_idx weights gradients weights' gradients'
  unfolding batch_loop count add_instance
  batch_loop_lem instances labelled [] weights g gradients below =
      (weights, g, gradients, refl, IsBatched-nil instances weights gradients)
  batch_loop_lem instances labelled (i ∷ data_idx) weights g gradients below =
      let (data_ins, at_i) = get_elem?-some instances i (ground arith) in
      let (label, features, parts) =
        IsInstance-parts data_ins (AreInstances-at instances i data_ins at_i labelled) in
      let at_i' = at_i ∙ ap some parts in
      let w = weigh_loop doubles settings random weights g (of_nat 0) features in
      let error =
        sub (of_nat (label_of doubles settings random label))
          (sigmoid doubles settings random w.2) in
      let grown = slope_loop doubles settings random gradients error ((pos 0, label) ∷ features) in
      let (weights', g', gradients', run, rest) =
        batch_loop_lem instances labelled data_idx w.0 w.1 grown (ground arith) in
      (
        weights',
        g',
        gradients',
        rw (at-get_elem? instances i _ at_i', ◌>>=◌) run,
        IsBatched-step instances i data_idx label features weights w.0 weights' gradients grown
            gradients' at_i'
            (weigh_loop-IsAdded doubles settings random weights g (of_nat 0) features)
            (slope_loop-IsAdded doubles settings random gradients error ((pos 0, label) ∷ features))
            rest,
      )

  -- What the gradient of a batch leaves behind.
  pub record IsGradient (instances : List (List (ℤ × R))) (data_idx : List ℕ)
      (weights weights' gradients : List (ℤ × R)) : Type 0 where
    pub kept : (j : ℤ) → HasWeight weights j → HasWeight weights' j
    pub covered :
        (j : ℤ)
        → HasWeight gradients j
        → ((j ≡ pos 0) × (0 < length data_idx)) ⊎ HasWeight weights' j
    pub labelled : 0 < length data_idx → HasWeight gradients (pos 0)
    pub with_zero : AllHaveZero instances → 0 < length data_idx → HasWeight weights' (pos 0)
    pub without_zero :
        NoneHasZero instances → HasWeight weights' (pos 0) → HasWeight weights (pos 0)

  -- The gradient of a batch ends without a fault.
  pub mini_batch_gradient_lem :
      (instances : List (List (ℤ × R))) (data_idx : List ℕ) (weights : List (ℤ × R)) (g : G)
      → AreInstances instances
      → AllBelow (length instances) data_idx
      → (weights' : List (ℤ × R)) × (g' : G) × (gradients : List (ℤ × R)) × (mini_batch_gradient
            doubles settings random weights g instances data_idx
          ≡ ok (weights', g', gradients))
        × IsGradient instances data_idx weights weights' gradients
  unfolding mini_batch_gradient
  mini_batch_gradient_lem instances data_idx weights g labelled below =
      let (weights', g', gradients, run, batched) =
        batch_loop_lem instances labelled data_idx weights g [] below in
      let scale = λ (v : R). div v (of_nat (length data_idx)) in
      (
        weights',
        g',
        map (λ p. (p.0, scale p.1)) gradients,
        rw run,
        record {
          kept = batched.kept;
          covered = λ j h. elim (batched.covered j ((find-map scale gradients j).1 h)) [
            | inl nothing ↦ absurd (HasWeight-nil j nothing)
            | inr rest ↦ rest
          ];
          labelled = λ lt. (find-map scale gradients (pos 0)).0 (batched.labelled lt);
          with_zero = batched.with_zero;
          without_zero = batched.without_zero;
        },
      )

  -- The update ends without a fault if every gradient has a weight.
  pub apply-IsOk :
      (gradients weights : List (ℤ × R)) (learning_rate cumulative_l1_penalty : R)
      (actual : List (ℤ × R))
      → ((j : ℤ) → HasWeight gradients j → HasWeight weights j)
      → IsOk (
          apply_cumulative_l1_penalty doubles settings random weights gradients learning_rate
            cumulative_l1_penalty actual)
  unfolding apply_cumulative_l1_penalty
  apply-IsOk [] weights learning_rate cumulative_l1_penalty actual weighed =
      ((weights, actual), refl)
  apply-IsOk ((idx, x) ∷ gradients) weights learning_rate cumulative_l1_penalty actual weighed =
      let (v, e) = weighed idx (HasWeight-head idx x gradients) in
      rw (apply_cumulative_l1_penalty, e)
        (apply-IsOk gradients (set_weight weights idx _) learning_rate cumulative_l1_penalty _
          (λ j h. set_weight-old weights idx j _ (weighed j (HasWeight-tail idx j x gradients h))))

  -- The update faults if a gradient has no weight.
  pub apply-fault :
      (gradients weights : List (ℤ × R)) (learning_rate cumulative_l1_penalty : R)
      (actual : List (ℤ × R)) (j : ℤ)
      → HasWeight gradients j
      → ¬ HasWeight weights j
      → apply_cumulative_l1_penalty doubles settings random weights gradients learning_rate
          cumulative_l1_penalty actual
        ≡ fault out_of_bounds
  unfolding apply_cumulative_l1_penalty
  apply-fault [] weights learning_rate cumulative_l1_penalty actual j h lacks =
      absurd (HasWeight-nil j h)
  apply-fault ((idx, x) ∷ gradients) weights learning_rate cumulative_l1_penalty actual j h lacks =
      elim (Option-cases (find weights idx)) [
        | inl absent ↦ rw (apply_cumulative_l1_penalty, absent) refl
        | inr (v, present) ↦ elim (HasWeight-uncons idx j x gradients h) [
          | inl e ↦ absurd (lacks (subst (HasWeight weights) e (v, present)))
          | inr tail ↦
              rw (apply_cumulative_l1_penalty, present)
                (apply-fault gradients (set_weight weights idx _) learning_rate
                  cumulative_l1_penalty _ j tail
                  (λ h'. elim (set_weight-HasWeight weights idx j _ h') [
                    | inl e ↦ lacks (subst (HasWeight weights) e (v, present))
                    | inr before ↦ lacks before
                  ]))
        ]
      ]
