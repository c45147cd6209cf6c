-- ===== src/LrSgd/Signs.antt =====
-- The sign of the weights: the update takes the greater of 0 and the new weight on both sides of 0.
use mathlib.Core.Path.{subst}
use cpp_project.Prelude.{
  ℕ, zero, suc, ◌+◌, ◌≡◌, ◌∙◌, refl, sym, ℤ, ◌==ℤ◌, true, false, List, [], ◌∷◌, length, Option,
  none, some, Option-cases, Bool-cases, inl, inr, ltb,
}
use cpp_project.Run.{Run, ok, fault, ◌>>=◌, at, add_int}
use cpp_project.LrSgd.Weights.{find, set_weight, insert_weight-absent, find-set_weight, value_or}
use cpp_project.LrSgd.Lines.{Numerals, get_training_data}
use cpp_project.LrSgd.Updates.{
  Doubles, Settings, Random, init_weight, weigh_loop, add_instance, batch_loop, mini_batch_gradient,
  max_double, penalised, apply_cumulative_l1_penalty, calculate_loss,
}
use cpp_project.LrSgd.Train.{
  Training, train_batch, batches_loop, shuffled, iterations, start, train_on, train,
}

-- What a run ends with, if it ends, has the property.
abbrev Always {ℓ κ} : {A : Type ℓ} → (A → Type κ) → Run A → Type (ℓ ⊔ κ)
Always {A} P r = (a : A) → r ≡ ok a → P a

>>=-Always {ℓ κ} :
    {A B : Type ℓ} {P : A → Type κ} {Q : B → Type κ} (r : Run A) (f : A → Run B)
    → Always P r
    → ((a : A) → P a → Always Q (f a))
    → Always Q (r >>= f)
>>=-Always (ok a) f first rest b e = rest a (first a refl) b e
>>=-Always (fault x) f first rest b e = cc

Always-ok {ℓ κ} : {A : Type ℓ} (P : A → Type κ) (a : A) → P a → Always P (ok a)
Always-ok P a p b e = subst P (cc) p

some_inj {ℓ} : {A : Type ℓ} (a b : A) → some a ≡ some b → a ≡ b
some_inj a b e = cc

module _ {R G : Type 0} (doubles : Doubles R) (settings : Settings R) (random : Random R G) where
  open doubles use {of_nat, add, sub, mul, less}

  -- No weight is below 0.
  abbrev pub NonNegative : List (ℤ × R) → Type 0
  NonNegative weights = (j : ℤ) (v : R) → find weights j ≡ some v → less v (of_nat 0) ≡ false

  set_weight-NonNegative :
      (weights : List (ℤ × R)) (idx : ℤ) (x : R)
      → less x (of_nat 0) ≡ false
      → NonNegative weights
      → NonNegative (set_weight weights idx x)
  set_weight-NonNegative weights idx x small before j v e = elim (Bool-cases (idx ==ℤ j)) [
    | inl here ↦
        subst (λ z. less z (of_nat 0) ≡ false)
          (some_inj x v (sym (find-set_weight weights idx j x ∙ rw here refl) ∙ e)) small
    | inr there ↦ before j v (sym (find-set_weight weights idx j x ∙ rw there refl) ∙ e)
  ]

  -- The order of `double` has no two numbers below each other.
  module _ (asym : (a b : R) → less a b ≡ true → less b a ≡ false) where
    zero_small : less (of_nat 0) (of_nat 0) ≡ false
    zero_small = elim (Bool-cases (less (of_nat 0) (of_nat 0))) [
      | inl below ↦ asym (of_nat 0) (of_nat 0) below
      | inr e ↦ e
    ]

    max_double_lem :
        (x : R) → less (max_double doubles settings random (of_nat 0) x) (of_nat 0) ≡ false
    unfolding max_double
    max_double_lem x = elim (Bool-cases (less (of_nat 0) x)) [
      | inl above ↦ rw (max_double, above) (asym (of_nat 0) x above)
      | inr e ↦ rw (max_double, e) zero_small
    ]

    penalised_lem :
        (weight half cumulative last : R)
        → less weight (of_nat 0) ≡ false
        → less (penalised doubles settings random weight half cumulative last) (of_nat 0) ≡ false
    unfolding penalised
    penalised_lem weight half cumulative last small = elim (Bool-cases (less (of_nat 0) half)) [
      | inl above ↦ rw (penalised, above) (max_double_lem (sub half (add cumulative last)))
      | inr not_above ↦ elim (Bool-cases (less half (of_nat 0))) [
        | inl below ↦
            rw (penalised, not_above, below) (max_double_lem (add half (sub cumulative last)))
        | inr level ↦ rw (penalised, not_above, level) small
      ]
    ]

    apply-NonNegative :
        (gradients weights : List (ℤ × R)) (learning_rate cumulative : R) (actual : List (ℤ × R))
        → NonNegative weights
        → Always
            (λ r. NonNegative r.0)
            (apply_cumulative_l1_penalty doubles settings random weights gradients learning_rate
              cumulative actual)
    unfolding apply_cumulative_l1_penalty
    apply-NonNegative [] weights learning_rate cumulative actual small =
        Always-ok (λ r. NonNegative r.0) (weights, actual) small
    apply-NonNegative ((idx, x) ∷ gradients) weights learning_rate cumulative actual small =
        elim (Option-cases (find weights idx)) [
          | inl absent ↦ rw (apply_cumulative_l1_penalty, absent) (λ r e. cc)
          | inr (v, present) ↦
              rw (apply_cumulative_l1_penalty, present)
                (apply-NonNegative gradients (set_weight weights idx _) learning_rate cumulative _ (
                  set_weight-NonNegative weights idx _
                    (penalised_lem v (add v (mul x learning_rate)) cumulative
                      (value_or (find actual idx) (of_nat 0)) (small idx v present))
                    small))
        ]

    -- Weights that are not drawn begin with 0.
    module _ (plain : settings.rand_weight ≡ false) where
      weigh_loop-NonNegative :
          (weights : List (ℤ × R)) (g : G) (sum : R) (features : List (ℤ × R))
          → NonNegative weights
          → NonNegative (weigh_loop doubles settings random weights g sum features).0
      unfolding weigh_loop init_weight
      weigh_loop-NonNegative weights g sum [] small = small
      weigh_loop-NonNegative weights g sum ((idx, x) ∷ features) small =
          elim (Option-cases (find weights idx)) [
            | inl absent ↦
                rw
                  (
                    weigh_loop,
                    absent,
                    init_weight,
                    plain,
                    insert_weight-absent weights idx (of_nat 0) absent,
                  )
                  (weigh_loop-NonNegative (set_weight weights idx (of_nat 0)) g
                    (add sum (mul x (of_nat 0))) features
                    (set_weight-NonNegative weights idx (of_nat 0) zero_small small))
            | inr (v, present) ↦
                rw (weigh_loop, present)
                  (weigh_loop-NonNegative weights g (add sum (mul x v)) features small)
          ]

      add_instance-NonNegative :
          (weights : List (ℤ × R)) (g : G) (gradients data_ins : List (ℤ × R))
          → NonNegative weights
          → Always
              (λ r. NonNegative r.0)
              (add_instance doubles settings random weights g gradients data_ins)
      unfolding add_instance
      add_instance-NonNegative weights g gradients [] small = λ r e. cc
      add_instance-NonNegative weights g gradients ((idx, x) ∷ features) small =
          Always-ok (λ r. NonNegative r.0) _
            (weigh_loop-NonNegative weights g (of_nat 0) features small)

      batch_loop-NonNegative :
          (instances : List (List (ℤ × R))) (data_idx : List ℕ) (weights : List (ℤ × R)) (g : G)
          (gradients : List (ℤ × R))
          → NonNegative weights
          → Always
              (λ r. NonNegative r.0)
              (batch_loop doubles settings random instances data_idx weights g gradients)
      unfolding batch_loop
      batch_loop-NonNegative instances [] weights g gradients small =
          Always-ok (λ r. NonNegative r.0) (weights, g, gradients) small
      batch_loop-NonNegative instances (i ∷ data_idx) weights g gradients small =
          >>=-Always {P = λ _. Unit} (at instances i) _ (λ a e. tt)
            (λ data_ins t.
              >>=-Always {P = λ r. NonNegative r.0}
                (add_instance doubles settings random weights g gradients data_ins) _
                (add_instance-NonNegative weights g gradients data_ins small)
                (λ r small'. batch_loop-NonNegative instances data_idx r.0 r.1 r.2 small'))

      mini_batch_gradient-NonNegative :
          (instances : List (List (ℤ × R))) (data_idx : List ℕ) (weights : List (ℤ × R)) (g : G)
          → NonNegative weights
          → Always
              (λ r. NonNegative r.0)
              (mini_batch_gradient doubles settings random weights g instances data_idx)
      unfolding mini_batch_gradient
      mini_batch_gradient-NonNegative instances data_idx weights g small =
          >>=-Always {P = λ r. NonNegative r.0}
            (batch_loop doubles settings random instances data_idx weights g []) _
            (batch_loop-NonNegative instances data_idx weights g [] small)
            (λ r small'. Always-ok (λ r. NonNegative r.0) _ small')

      abbrev Small : Training R G → Type 0
      Small t = NonNegative t.weights

      module _ (instances : List (List (ℤ × R))) (batch_size : ℕ) where
        train_batch-NonNegative :
            (data_idx : List ℕ) (begin : ℕ) (t : Training R G)
            → Small t
            → Always Small
                (train_batch doubles settings random instances batch_size data_idx begin t)
        unfolding train_batch
        train_batch-NonNegative data_idx begin t small =
            >>=-Always {P = λ r. NonNegative r.0}
              (mini_batch_gradient doubles settings random t.weights t.g instances _) _
              (mini_batch_gradient-NonNegative instances _ t.weights t.g small)
              (λ r small₁.
                >>=-Always {P = λ r. NonNegative r.0}
                  (apply_cumulative_l1_penalty doubles settings random r.0 r.2 _ _ t.actual_penalty)
                  _ (apply-NonNegative r.2 r.0 _ _ t.actual_penalty small₁)
                  (λ u small₂.
                    >>=-Always {P = λ _. Unit} (add_int t.k 1) _ (λ k e. tt)
                      (λ k unit. Always-ok Small _ small₂)))

        batches_loop-NonNegative :
            (fuel : ℕ) (data_idx : List ℕ) (i : ℕ) (t : Training R G)
            → Small t
            → Always Small
                (batches_loop doubles settings random instances batch_size fuel data_idx i t)
        unfolding batches_loop
        batches_loop-NonNegative zero data_idx i t small = λ t' e. cc
        batches_loop-NonNegative (suc fuel) data_idx i t small =
            elim (Bool-cases (ltb i (length instances))) [
              | inl more ↦
                  rw (batches_loop, more)
                    (>>=-Always {P = Small}
                      (train_batch doubles settings random instances batch_size data_idx i t) _
                      (train_batch-NonNegative data_idx i t small)
                      (λ t'. batches_loop-NonNegative fuel data_idx (i + batch_size) t'))
              | inr done ↦ rw (batches_loop, done) (Always-ok Small t small)
            ]

        iterations-NonNegative :
            (n : ℕ) (data_idx : List ℕ) (t : Training R G) (loss : R)
            → Small t
            → Always Small
                (iterations doubles settings random instances batch_size n data_idx t loss)
        unfolding iterations
        iterations-NonNegative zero data_idx t loss small = Always-ok Small t small
        iterations-NonNegative (suc n) data_idx t loss small =
            let s = shuffled doubles settings random instances batch_size data_idx t.g in
            >>=-Always {P = Small}
              (batches_loop doubles settings random instances batch_size _ s.0 0 _) _
              (batches_loop-NonNegative (suc (length instances)) s.0 0 (record t { g = s.1 }) small)
              (λ t' small'.
                >>=-Always {P = λ _. Unit}
                  (calculate_loss doubles settings random t'.weights instances) _ (λ a e. tt)
                  (λ new_loss unit.
                    elim (Bool-cases (less (doubles.abs (sub new_loss loss)) settings.epsilon)) [
                      | inl close ↦ rw close (Always-ok Small t' small')
                      | inr far ↦ rw far (iterations-NonNegative n s.0 t' new_loss small')
                    ]))

      abbrev SmallResult : Option (Training R G) → Type 0
      SmallResult o = (t : Training R G) → o ≡ some t → Small t

      train_on-NonNegative :
          (instances : List (List (ℤ × R))) (g : G)
          → Always SmallResult (train_on doubles settings random instances g)
      unfolding train_on find
      train_on-NonNegative [] g = Always-ok SmallResult none (λ t e. cc)
      train_on-NonNegative (data_ins ∷ instances) g =
          >>=-Always {P = Small}
            (iterations doubles settings random (data_ins ∷ instances) _ settings.max_iteration_num
              _ (start doubles settings random g) (of_nat 0))
            _
            (iterations-NonNegative (data_ins ∷ instances) _ settings.max_iteration_num _
              (start doubles settings random g) (of_nat 0) (λ j v e. cc))
            (λ t small.
              Always-ok SmallResult (some t) (λ t' e. subst Small (some_inj t t' e) small))

      -- A training that ends has no weight below 0.
      pub train-signs :
          (numerals : Numerals R) (in_data_file : Option (List ℕ)) (g : G)
          (o : Option (Training R G)) (t : Training R G)
          → train doubles settings random numerals in_data_file g ≡ ok o
          → o ≡ some t
          → NonNegative t.weights
      unfolding train
      train-signs numerals in_data_file g o t e =
          >>=-Always {P = λ _. Unit} {Q = SmallResult} (get_training_data numerals in_data_file) _
            (λ a h. tt) (λ instances unit. train_on-NonNegative instances g) o e t
