-- ===== src/LrSgd/Ends.antt =====
-- When the training ends.
use mathlib.Core.Path.{subst}
use cpp_project.Prelude.{
  ℕ, zero, suc, ◌+◌, ◌-◌, ◌*◌, ◌^◌, ◌≤◌, ◌<◌, ◌≡◌, ◌∙◌, inl, inr, refl, sym, ℤ, List, [], ◌∷◌,
  length, none, some, leb, lt→ltb, le→ltb, lt-or_le, Bool-cases, arith,
}
use cpp_project.Run.{Run, ok, ◌>>=◌, IsOk, >>=-IsOk, add_int-ok}
use cpp_project.LrSgd.Weights.{HasWeight}
use cpp_project.LrSgd.Updates.{Doubles, Settings, Random, calculate_loss, loss_of, loss_loop}
use cpp_project.LrSgd.Train.{
  Training, places, batch_at, train_batch, batches_loop, shuffled, iterations, start,
  batch_size_for, train_on, rate,
}
use cpp_project.LrSgd.Batches.{
  AreInstances, AllHaveZero, AllBelow, mini_batch_gradient_lem, apply-IsOk,
}
use cpp_project.LrSgd.Places.{
  places-AllBelow, Shuffles, shuffled-SameElements, batch_at-AllBelow, positive_size,
}

module _ {R G : Type 0} (doubles : Doubles R) (settings : Settings R) (random : Random R G) where
  loss_loop-IsOk :
      (weights : List (ℤ × R)) (instances : List (List (ℤ × R))) (loss : R)
      → AreInstances instances
      → IsOk (loss_loop doubles settings random weights loss instances)
  unfolding loss_loop loss_of
  loss_loop-IsOk weights [] loss h = (loss, refl)
  loss_loop-IsOk weights ([] ∷ instances) loss h = absurd h.0
  loss_loop-IsOk weights ((label ∷ features) ∷ instances) loss h =
      loss_loop-IsOk weights instances _ h.1

  -- The run ends without a fault, and has counted up to `n` at most.
  abbrev CountsTo : Run (Training R G) → ℕ → Type 0
  CountsTo run n = (t : Training R G) × (run ≡ ok t) × (t.k ≤ n)

  module _ (instances : List (List (ℤ × R))) (labelled : AreInstances instances)
      (batch_size : ℕ) where
    train_batch-IsOk :
        AllHaveZero instances
        → (data_idx : List ℕ) (begin : ℕ) (t : Training R G) → AllBelow (length instances) data_idx
        → t.k + 1 < 2 ^ 31
        → CountsTo
            (train_batch doubles settings random instances batch_size data_idx begin t)
            (t.k + 1)
    unfolding train_batch
    train_batch-IsOk zeros data_idx begin t below small =
        let batch = batch_at doubles settings random instances batch_size data_idx begin in
        let (weights', g', gradients, run, gradient) =
          mini_batch_gradient_lem doubles settings random instances batch t.weights t.g labelled
            (batch_at-AllBelow doubles settings random instances batch_size data_idx begin below) in
        let learning_rate = rate doubles settings random instances batch_size t.learning_rate t.k in
        let cumulative =
          doubles.add t.cumulative_l1_penalty
            (doubles.mul learning_rate settings.l1_penalty_weight) in
        let (u, applied) =
          apply-IsOk doubles settings random gradients weights' learning_rate cumulative
            t.actual_penalty
            (λ j h. elim (gradient.covered j h) [
              | inl (e, lt) ↦ subst (HasWeight weights') (sym e) (gradient.with_zero zeros lt)
              | inr there ↦ there
            ]) in
        (
          record {
            weights = u.0;
            learning_rate = learning_rate;
            k = t.k + 1;
            cumulative_l1_penalty = cumulative;
            actual_penalty = u.1;
            g = g';
          },
          rw (run, ◌>>=◌, applied, add_int-ok t.k 1 small) refl,
          omega arith,
        )

    batches_loop-IsOk :
        AllHaveZero instances
        → 0 < batch_size
        → (fuel : ℕ) (data_idx : List ℕ) (i : ℕ) (t : Training R G)
        → AllBelow (length instances) data_idx
        → length instances < fuel + i
        → 0 < fuel
        → t.k + (length instances - i) < 2 ^ 31
        → CountsTo
            (batches_loop doubles settings random instances batch_size fuel data_idx i t)
            (t.k + (length instances - i))
    unfolding batches_loop
    batches_loop-IsOk zeros positive zero data_idx i t below enough some_fuel small =
        absurd (omega arith)
    batches_loop-IsOk zeros positive (suc fuel) data_idx i t below enough some_fuel small =
        elim (lt-or_le i (length instances)) [
          | inl lt ↦
              let (t', run, k_le) = train_batch-IsOk zeros data_idx i t below (omega arith) in
              let (t'', run', k_le') =
                batches_loop-IsOk zeros positive fuel data_idx (i + batch_size) t' below
                  (omega arith) (omega arith) (omega arith) in
              (t'', rw (batches_loop, lt→ltb _ _ lt, run, ◌>>=◌) run', omega arith)
          | inr ge ↦ (t, rw (batches_loop, le→ltb _ _ ge) refl, omega arith)
        ]

    calculate_loss-IsOk :
        (weights : List (ℤ × R)) → IsOk (calculate_loss doubles settings random weights instances)
    unfolding calculate_loss
    calculate_loss-IsOk weights =
        >>=-IsOk (loss_loop-IsOk weights instances _ labelled) (λ loss. (_, refl))

    iterations-IsOk :
        Shuffles doubles settings random
        → AllHaveZero instances
        → 0 < batch_size
        → (n : ℕ) (data_idx : List ℕ) (t : Training R G) (loss : R)
        → AllBelow (length instances) data_idx
        → t.k + n * length instances < 2 ^ 31
        → IsOk (iterations doubles settings random instances batch_size n data_idx t loss)
    unfolding iterations
    iterations-IsOk shuffles zeros positive zero data_idx t loss below small = (t, refl)
    iterations-IsOk shuffles zeros positive (suc n) data_idx t loss below small =
        let s = shuffled doubles settings random instances batch_size data_idx t.g in
        let below' =
          shuffled-SameElements doubles settings random shuffles instances batch_size data_idx t.g
            (λ i. leb (length instances) i)
          ∙ below in
        let (t', run, k_le) =
          batches_loop-IsOk zeros positive (suc (length instances)) s.0 0 (record t { g = s.1 })
            below' (omega arith) (omega arith) (omega arith) in
        rw (iterations, run, ◌>>=◌)
          (>>=-IsOk (calculate_loss-IsOk t'.weights) (λ new_loss.
            elim (Bool-cases
              (doubles.less (doubles.abs (doubles.sub new_loss loss)) settings.epsilon)) [
                | inl close ↦ (t', rw close refl)
                | inr far ↦
                    rw far (
                      iterations-IsOk shuffles zeros positive n s.0 t' new_loss below'
                        (omega arith))
              ]))

  -- If every instance has a feature of the index 0, the batch size is not 0, a shuffle only moves
  -- places about and an `int` can count the batches, the training on instances that begin with a
  -- label ends without a fault.
  pub train_on-IsOk :
      (instances : List (List (ℤ × R))) (g : G)
      → Shuffles doubles settings random
      → AreInstances instances
      → AllHaveZero instances
      → 0 < settings.mini_batch_size
      → settings.max_iteration_num * length instances < 2 ^ 31 - 1
      → IsOk (train_on doubles settings random instances g)
  unfolding train_on
  train_on-IsOk [] g shuffles labelled zeros positive small = (none, refl)
  train_on-IsOk (data_ins ∷ instances) g shuffles labelled zeros positive small =
      let whole = data_ins ∷ instances in
      >>=-IsOk
        (iterations-IsOk whole labelled (batch_size_for doubles settings random (length whole))
          shuffles zeros
          (positive_size doubles settings random (length whole) (omega arith) positive)
          settings.max_iteration_num (places 0 (length whole)) (start doubles settings random g)
          (doubles.of_nat 0) (places-AllBelow 0 (length whole) (length whole) (omega arith))
          (omega arith))
        (λ t. (some t, refl))
