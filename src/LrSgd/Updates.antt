-- ===== src/LrSgd/Updates.antt =====
-- The gradient of a batch, the update with the cumulative penalty, and the loss.
use cpp_project.Prelude.{ℕ, ℤ, Bool, List, [], ◌∷◌, map, length, none, some, ◌==◌, if◌then◌else◌}
use cpp_project.Run.{Run, ok, fault, out_of_bounds, ◌>>=◌, at}
use cpp_project.LrSgd.Weights.{find, set_weight, insert_weight, value_or}

-- The operations of `double` that the training uses.
pub record Doubles (R : Type 0) : Type 0 where
  pub of_nat : ℕ → R
  pub add : R → R → R
  pub sub : R → R → R
  pub mul : R → R → R
  pub div : R → R → R
  pub neg : R → R
  pub exp : R → R
  pub log : R → R
  pub abs : R → R
  pub pow : R → R → R
  pub less : R → R → Bool
  pub same : R → R → Bool

-- The settings at the top of the file, with the constant of `train`. `max_iteration_num` is not
-- negative.
pub record Settings (R : Type 0) : Type 0 where
  pub rand_weight : Bool
  pub initial_learning_rate : R
  pub learning_rate_decay : Bool
  pub learning_rate_decay_exp_base : R
  pub max_iteration_num : ℕ
  pub need_shuffle_data : Bool
  pub mini_batch_size : ℕ
  pub l1_penalty_weight : R
  pub epsilon : R

-- The random numbers: a drawn weight, and a shuffle of places.
pub record Random (R G : Type 0) : Type 0 where
  pub draw : G → R × G
  pub shuffle : G → List ℕ → List ℕ × G

module _ {R G : Type 0} (doubles : Doubles R) (settings : Settings R) (random : Random R G) where
  open doubles use {of_nat, add, sub, mul, div, neg, exp, log, abs, less, same}

  unfoldable pub init_weight : G → R × G
  init_weight g = if settings.rand_weight then random.draw g else (of_nat 0, g)

  unfoldable pub sigmoid : R → R
  sigmoid x = div (of_nat 1) (add (of_nat 1) (exp (neg x)))

  unfoldable pub predict_loop : List (ℤ × R) → R → List (ℤ × R) → R
  predict_loop weights sum [] = sum
  predict_loop weights sum ((idx, x) ∷ data_ins) = elim (find weights idx) [
    | some weight ↦ predict_loop weights (add sum (mul x weight)) data_ins
    | none ↦ predict_loop weights sum data_ins
  ]

  unfoldable pub predict : List (ℤ × R) → List (ℤ × R) → R
  predict weights data_ins = sigmoid (predict_loop weights (of_nat 0) data_ins)

  -- `data_ins.front().second == 1 ? 1 : 0`
  unfoldable pub label_of : R → ℕ
  label_of x = if same x (of_nat 1) then 1 else 0

  -- "predict & initialize weight"
  unfoldable pub weigh_loop : List (ℤ × R) → G → R → List (ℤ × R) → List (ℤ × R) × G × R
  weigh_loop weights g sum [] = (weights, g, sum)
  weigh_loop weights g sum ((idx, x) ∷ features) = elim (find weights idx) [
    | some weight ↦ weigh_loop weights g (add sum (mul x weight)) features
    | none ↦
        let (weight, g') = init_weight g in
        weigh_loop (insert_weight weights idx weight) g' (add sum (mul x weight)) features
  ]

  -- `gradients[fit->first] += ((label - prob) * fit->second)`
  unfoldable pub slope_loop : List (ℤ × R) → R → List (ℤ × R) → List (ℤ × R)
  slope_loop gradients error [] = gradients
  slope_loop gradients error ((idx, x) ∷ data_ins) =
      slope_loop
        (set_weight gradients idx (add (value_or (find gradients idx) (of_nat 0)) (mul error x)))
        error data_ins

  -- One instance of the batch.
  unfoldable pub add_instance :
      List (ℤ × R) → G → List (ℤ × R) → List (ℤ × R) → Run (List (ℤ × R) × G × List (ℤ × R))
  add_instance weights g gradients [] = fault out_of_bounds
  add_instance weights g gradients ((idx, x) ∷ features) =
      let (weights', g', sum) = weigh_loop weights g (of_nat 0) features in
      let error = sub (of_nat (label_of x)) (sigmoid sum) in
      ok (weights', g', slope_loop gradients error ((idx, x) ∷ features))

  unfoldable pub batch_loop :
      List (List (ℤ × R))
      → List ℕ
      → List (ℤ × R)
      → G
      → List (ℤ × R)
      → Run (List (ℤ × R) × G × List (ℤ × R))
  batch_loop instances [] weights g gradients = ok (weights, g, gradients)
  batch_loop instances (i ∷ data_idx) weights g gradients = do
    data_ins ← at instances i
    r ← add_instance weights g gradients data_ins
    batch_loop instances data_idx r.0 r.1 r.2

  -- The weights, the random numbers and the gradient.
  unfoldable pub mini_batch_gradient :
      List (ℤ × R) → G → List (List (ℤ × R)) → List ℕ → Run (List (ℤ × R) × G × List (ℤ × R))
  mini_batch_gradient weights g instances data_idx = do
    r ← batch_loop instances data_idx weights g []
    ok (r.0, r.1, map (λ p. (p.0, div p.1 (of_nat (length data_idx)))) r.2)

  -- `std::max`
  unfoldable pub max_double : R → R → R
  max_double a b = if less a b then b else a

  -- The new weight, from the weight, its half update and the penalties.
  unfoldable pub penalised : R → R → R → R → R
  penalised weight half_update_weight cumulative_l1_penalty last_actual_penalty =
      if less (of_nat 0) half_update_weight
      then max_double (of_nat 0)
          (sub half_update_weight (add cumulative_l1_penalty last_actual_penalty))
      else if less half_update_weight (of_nat 0)
      then max_double (of_nat 0)
          (add half_update_weight (sub cumulative_l1_penalty last_actual_penalty))
      else weight

  -- `weights.find(idx)` is the end of the map, and is read, if there is no weight.
  unfoldable pub apply_cumulative_l1_penalty :
      List (ℤ × R) → List (ℤ × R) → R → R → List (ℤ × R) → Run (List (ℤ × R) × List (ℤ × R))
  apply_cumulative_l1_penalty weights [] learning_rate cumulative_l1_penalty actual =
      ok (weights, actual)
  apply_cumulative_l1_penalty weights ((idx, gradient_val) ∷ gradients) learning_rate
        cumulative_l1_penalty actual =
      elim (find weights idx) [
        | none ↦ fault out_of_bounds
        | some weight ↦
            let half_update_weight = add weight (mul gradient_val learning_rate) in
            let last = value_or (find actual idx) (of_nat 0) in
            let weight' = penalised weight half_update_weight cumulative_l1_penalty last in
            apply_cumulative_l1_penalty (set_weight weights idx weight') gradients learning_rate
              cumulative_l1_penalty
              (set_weight actual idx (add last (sub weight' half_update_weight)))
      ]

  -- `weight_it != weights.end() && weight_it->second != 0`
  unfoldable pub loss_sum : List (ℤ × R) → R → List (ℤ × R) → R
  loss_sum weights sum [] = sum
  loss_sum weights sum ((idx, x) ∷ features) = elim (find weights idx) [
    | none ↦ loss_sum weights sum features
    | some weight ↦
        loss_sum weights (if same weight (of_nat 0) then sum else add sum (mul weight x)) features
  ]

  unfoldable pub loss_of : List (ℤ × R) → List (ℤ × R) → Run R
  loss_of weights [] = fault out_of_bounds
  loss_of weights ((idx, x) ∷ features) =
      let sum = loss_sum weights (of_nat 0) features in
      ok (log (add (of_nat 1) (exp (if label_of x == 1 then neg sum else sum))))

  unfoldable pub loss_loop : List (ℤ × R) → R → List (List (ℤ × R)) → Run R
  loss_loop weights loss [] = ok loss
  loss_loop weights loss (data_ins ∷ instances) = do
    l ← loss_of weights data_ins
    loss_loop weights (add loss l) instances

  unfoldable pub l1_loop : R → List (ℤ × R) → R
  l1_loop l1_val [] = l1_val
  l1_loop l1_val ((idx, weight) ∷ weights) = l1_loop (add l1_val (abs weight)) weights

  unfoldable pub calculate_loss : List (ℤ × R) → List (List (ℤ × R)) → Run R
  calculate_loss weights instances = do
    loss ← loss_loop weights (of_nat 0) instances
    ok (
        add (div loss (of_nat (length instances)))
          (mul (l1_loop (of_nat 0) weights) settings.l1_penalty_weight))
