-- ===== src/LrSgd/Train.antt =====
-- The training loop. What it has when it ends, the source does not write to the model file.
use cpp_project.Prelude.{
  ℕ, zero, suc, ◌+◌, ◌-◌, ℤ, true, false, List, [], ◌∷◌, length, take, drop, Option, none, some,
  min, ltb, if◌then◌else◌,
}
use cpp_project.Run.{Run, ok, fault, diverges, ◌>>=◌, add_int}
use cpp_project.LrSgd.Lines.{Numerals, get_training_data}
use cpp_project.LrSgd.Updates.{
  Doubles, Settings, Random, mini_batch_gradient, apply_cumulative_l1_penalty, calculate_loss,
}

-- The variables of `train` that its loops change.
pub record Training (R G : Type 0) : Type 0 where
  pub weights : List (ℤ × R)
  pub learning_rate : R
  pub k : ℕ
  pub cumulative_l1_penalty : R
  pub actual_penalty : List (ℤ × R)
  pub g : G

-- The places `i`, ..., below `i + n`.
unfoldable pub places : ℕ → ℕ → List ℕ
places i zero = []
places i (suc n) = i ∷ places (i + 1) n

module _ {R G : Type 0} (doubles : Doubles R) (settings : Settings R) (random : Random R G)
    (instances : List (List (ℤ × R))) (batch_size : ℕ) where
  open doubles use {of_nat, add, sub, mul, div, neg, abs, pow, less}

  -- `pow(base, -(double)k / data_len) * initial_learning_rate`
  unfoldable pub rate : R → ℕ → R
  rate learning_rate k =
      if settings.learning_rate_decay
      then mul
          (pow settings.learning_rate_decay_exp_base
            (div (neg (of_nat k)) (of_nat (length instances))))
          settings.initial_learning_rate
      else learning_rate

  -- The batch from `begin` on.
  unfoldable pub batch_at : List ℕ → ℕ → List ℕ
  batch_at data_idx begin =
      take (min (begin + batch_size) (length instances) - begin) (drop begin data_idx)

  unfoldable pub train_batch : List ℕ → ℕ → Training R G → Run (Training R G)
  train_batch data_idx begin t = do
    r ←
        mini_batch_gradient doubles settings random t.weights t.g instances
          (batch_at data_idx begin)
    let learning_rate = rate t.learning_rate t.k
    let cumulative_l1_penalty =
        add t.cumulative_l1_penalty (mul learning_rate settings.l1_penalty_weight)
    u ←
        apply_cumulative_l1_penalty doubles settings random r.0 r.2 learning_rate
          cumulative_l1_penalty t.actual_penalty
    k ← add_int t.k 1
    ok (record {
      weights = u.0;
      learning_rate = learning_rate;
      k = k;
      cumulative_l1_penalty = cumulative_l1_penalty;
      actual_penalty = u.1;
      g = r.1;
    })

  -- `for (size_t i = 0; i < data_len; i += mini_batch_size)`
  unfoldable pub batches_loop : ℕ → List ℕ → ℕ → Training R G → Run (Training R G)
  batches_loop zero data_idx i t = fault diverges
  batches_loop (suc fuel) data_idx i t = elim (ltb i (length instances)) [
    | true ↦ do t' ← train_batch data_idx i t; batches_loop fuel data_idx (i + batch_size) t'
    | false ↦ ok t
  ]

  unfoldable pub shuffled : List ℕ → G → List ℕ × G
  shuffled data_idx g =
      if settings.need_shuffle_data then random.shuffle g data_idx else (data_idx, g)

  -- `for (int i = 0; i < max_iteration_num; ++i)`. A round of batches takes an instance at least.
  unfoldable pub iterations : ℕ → List ℕ → Training R G → R → Run (Training R G)
  iterations zero data_idx t loss = ok t
  iterations (suc n) data_idx t loss = do
    let s = shuffled data_idx t.g
    t' ← batches_loop (suc (length instances)) s.0 0 (record t { g = s.1 })
    new_loss ← calculate_loss doubles settings random t'.weights instances
    elim (less (abs (sub new_loss loss)) settings.epsilon) [
      | true ↦ ok t'
      | false ↦ iterations n s.0 t' new_loss
    ]

module _ {R G : Type 0} (doubles : Doubles R) (settings : Settings R) (random : Random R G) where
  open doubles use {of_nat}

  abbrev pub start : G → Training R G
  start g = record {
    weights = [];
    learning_rate = settings.initial_learning_rate;
    k = 1;
    cumulative_l1_penalty = of_nat 0;
    actual_penalty = [];
    g = g;
  }

  -- `mini_batch_size > data_len`
  unfoldable pub batch_size_for : ℕ → ℕ
  batch_size_for data_len =
      if ltb data_len settings.mini_batch_size then data_len else settings.mini_batch_size

  -- From the training data on.
  unfoldable pub train_on : List (List (ℤ × R)) → G → Run (Option (Training R G))
  train_on [] g = ok none
  train_on (data_ins ∷ instances) g = do
    let whole = data_ins ∷ instances
    t ←
        iterations doubles settings random whole (batch_size_for (length whole))
          settings.max_iteration_num (places 0 (length whole)) (start g) (of_nat 0)
    ok (some t)

  unfoldable pub train : Numerals R → Option (List ℕ) → G → Run (Option (Training R G))
  train numerals in_data_file g = do
    instances ← get_training_data numerals in_data_file
    train_on instances g
