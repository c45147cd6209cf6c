-- ===== src/LrSgd/Faults.antt =====
-- When the training reads a weight that is not there.
use cpp_project.Prelude.{
  ℕ, zero, suc, ◌<◌, ◌≡◌, ◌∙◌, ℤ, pos, List, [], ◌∷◌, length, leb, lt→ltb, SameElements-length,
  arith,
}
use cpp_project.Run.{fault, out_of_bounds, ◌>>=◌}
use cpp_project.LrSgd.Weights.{HasWeight}
use cpp_project.LrSgd.Updates.{Doubles, Settings, Random}
use cpp_project.LrSgd.Train.{
  Training, places, batch_at, train_batch, batches_loop, shuffled, iterations, start,
  batch_size_for, train_on, rate,
}
use cpp_project.LrSgd.Features.{HasWeight-nil}
use cpp_project.LrSgd.Batches.{
  AreInstances, NoneHasZero, AllBelow, mini_batch_gradient_lem, apply-fault,
}
use cpp_project.LrSgd.Places.{
  places-AllBelow, length-places, Shuffles, shuffled-SameElements, batch_at-AllBelow, positive_size,
  first_batch,
}

module _ {R G : Type 0} (doubles : Doubles R) (settings : Settings R) (random : Random R G) where
  module _ (instances : List (List (ℤ × R))) (labelled : AreInstances instances)
      (batch_size : ℕ) where
    train_batch-fault :
        NoneHasZero instances
        → (data_idx : List ℕ) (begin : ℕ) (t : Training R G) → AllBelow (length instances) data_idx
        → 0 < length (batch_at doubles settings random instances batch_size data_idx begin)
        → ¬ HasWeight t.weights (pos 0)
        → train_batch doubles settings random instances batch_size data_idx begin t
          ≡ fault out_of_bounds
    unfolding train_batch
    train_batch-fault nones data_idx begin t below some_place lacks =
        let batch = batch_at doubles settings random instances batch_size data_idx begin in
        let (weights', g', gradients, run, gradient) =
          mini_batch_gradient_lem doubles settings random instances batch t.weights t.g labelled
            (batch_at-AllBelow doubles settings random instances batch_size data_idx begin below) in
        rw (
          run,
          ◌>>=◌,
          apply-fault doubles settings random gradients weights'
              (rate doubles settings random instances batch_size t.learning_rate t.k)
              (doubles.add t.cumulative_l1_penalty (
                doubles.mul (rate doubles settings random instances batch_size t.learning_rate t.k)
                  settings.l1_penalty_weight))
              t.actual_penalty (pos 0) (gradient.labelled some_place)
              (λ h. lacks (gradient.without_zero nones h)),
        )

  batches_loop-fault :
      (instances : List (List (ℤ × R))) (batch_size fuel : ℕ) (data_idx : List ℕ) (t : Training R G)
      → 0 < length instances
      → train_batch doubles settings random instances batch_size data_idx 0 t ≡ fault out_of_bounds
      → batches_loop doubles settings random instances batch_size (suc fuel) data_idx 0 t
        ≡ fault out_of_bounds
  unfolding batches_loop
  batches_loop-fault instances batch_size fuel data_idx t some_data faulted =
      rw (batches_loop, lt→ltb 0 (length instances) some_data, faulted)

  iterations-fault :
      (instances : List (List (ℤ × R))) (batch_size n : ℕ) (data_idx : List ℕ) (t : Training R G)
      (loss : R)
      → Shuffles doubles settings random
      → AreInstances instances
      → NoneHasZero instances
      → 0 < length instances
      → 0 < batch_size
      → 0 < n
      → AllBelow (length instances) data_idx
      → length data_idx ≡ length instances
      → ¬ HasWeight t.weights (pos 0)
      → iterations doubles settings random instances batch_size n data_idx t loss
        ≡ fault out_of_bounds
  unfolding iterations
  iterations-fault instances batch_size zero data_idx t loss shuffles labelled nones some_data
        positive some_round below size lacks =
      absurd (omega arith)
  iterations-fault instances batch_size (suc n) data_idx t loss shuffles labelled nones some_data
        positive some_round below size lacks =
      let s = shuffled doubles settings random instances batch_size data_idx t.g in
      let same =
        shuffled-SameElements doubles settings random shuffles instances batch_size data_idx t.g in
      let t' = record t { g = s.1 } in
      rw (
        iterations,
        batches_loop-fault instances batch_size (length instances) s.0 t' some_data (
            train_batch-fault instances labelled batch_size nones s.0 0 t'
              (same (λ i. leb (length instances) i) ∙ below)
              (first_batch doubles settings random instances batch_size s.0 positive some_data
                (SameElements-length s.0 data_idx same ∙ size))
              lacks),
        ◌>>=◌,
      )

  -- If no instance has a feature of the index 0, the training on instances that begin with a label
  -- reads the weight of the index 0, which is not there: it faults at the first batch. That is if
  -- there is an instance, the batch size and the number of iterations are not 0, and a shuffle only
  -- moves places about.
  pub train_on-fault :
      (instances : List (List (ℤ × R))) (g : G)
      → Shuffles doubles settings random
      → AreInstances instances
      → NoneHasZero instances
      → 0 < length instances
      → 0 < settings.mini_batch_size
      → 0 < settings.max_iteration_num
      → train_on doubles settings random instances g ≡ fault out_of_bounds
  unfolding train_on
  train_on-fault [] g shuffles labelled nones some_data positive some_round = absurd (omega arith)
  train_on-fault (data_ins ∷ instances) g shuffles labelled nones some_data positive some_round =
      let whole = data_ins ∷ instances in
      rw (
        iterations-fault whole (batch_size_for doubles settings random (length whole))
            settings.max_iteration_num (places 0 (length whole)) (start doubles settings random g)
            (doubles.of_nat 0) shuffles labelled nones some_data
            (positive_size doubles settings random (length whole) (omega arith) positive) some_round
            (places-AllBelow 0 (length whole) (length whole) (omega arith))
            (length-places 0 (length whole)) (HasWeight-nil (pos 0)),
        ◌>>=◌,
      )
