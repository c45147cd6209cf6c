-- ===== src/Tests/SgdTests.antt =====
-- The training run on small texts, with natural numbers for `double`s, and the witnesses of its
-- theorems.
use cpp_project.Prelude.{
  ℕ, ◌+◌, ◌-◌, ◌*◌, ◌≡◌, refl, ℤ, pos, true, false, List, [], ◌∷◌, Option, none, some, ltb, ◌==◌,
  arith,
}
use cpp_project.Run.{ok, fault, out_of_bounds, IsOk}
use cpp_project.LrSgd.Lines.{
  Numerals, get_item, split_loop, split, feature, features, parse_elems, parse_line, parse_lines,
  get_training_data, or_throw,
}
use cpp_project.LrSgd.Lines.Cutting.{IsCut, split-IsCut}
use cpp_project.LrSgd.Updates.{Doubles, Settings, Random}
use cpp_project.LrSgd.Train.{Training, train}
use cpp_project.LrSgd.Weights.{find}
use cpp_project.LrSgd.Batches.{AllHaveZero, NoneHasZero}
use cpp_project.LrSgd.Places.{Shuffles}
use cpp_project.LrSgd.Signs.{NonNegative}
use cpp_project.LrSgd.Outcome.{train-IsOk, train-fault, train-NonNegative}

abbrev doubles : Doubles ℕ
doubles = record {
  of_nat = λ n. n;
  add = λ a b. a + b;
  sub = λ a b. a - b;
  mul = λ a b. a * b;
  div = λ a b. a;
  neg = λ a. a;
  exp = λ a. 1;
  log = λ a. a;
  abs = λ a. a;
  pow = λ a b. a;
  less = ltb;
  same = ◌==◌;
}

abbrev settings : Settings ℕ
settings = record {
  rand_weight = false;
  initial_learning_rate = 1;
  learning_rate_decay = false;
  learning_rate_decay_exp_base = 2;
  max_iteration_num = 3;
  need_shuffle_data = true;
  mini_batch_size = 1;
  l1_penalty_weight = 1;
  epsilon = 1;
}

abbrev random : Random ℕ ℕ
random = record { draw = λ g. (g, g + 1); shuffle = λ g data_idx. (data_idx, g + 1) }

keeps : Shuffles doubles settings random
keeps g data_idx q = refl

-- One digit is a number.
abbrev digit : List ℕ → Option ℕ
digit [] = none
digit (c ∷ []) = some (c - 48)
digit (c ∷ d ∷ text) = none

abbrev int_of : Option ℕ → Option ℤ
int_of none = none
int_of (some n) = some (pos n)

abbrev nat_of : ℤ → ℕ
nat_of (pos n) = n
nat_of n = 0

abbrev numerals : Numerals ℕ
numerals = record { stoi = λ text. int_of (digit text); stod = digit; of_int = nat_of }

-- "1 0:1 3:2", and a line without features.
abbrev with_zero_text : List ℕ
with_zero_text = 49 ∷ 32 ∷ 48 ∷ 58 ∷ 49 ∷ 32 ∷ 51 ∷ 58 ∷ 50 ∷ 10 ∷ 49 ∷ 10 ∷ []

abbrev with_zero : List (List (ℤ × ℕ))
with_zero = ((pos 0, 1) ∷ (pos 0, 1) ∷ (pos 3, 2) ∷ []) ∷ []

-- "1 3:2"
abbrev without_zero_text : List ℕ
without_zero_text = 49 ∷ 32 ∷ 51 ∷ 58 ∷ 50 ∷ []

abbrev without_zero : List (List (ℤ × ℕ))
without_zero = ((pos 0, 1) ∷ (pos 3, 2) ∷ []) ∷ []

reads_with : get_training_data numerals (some with_zero_text) ≡ ok with_zero
unfolding get_training_data split split_loop get_item parse_lines parse_line parse_elems features
    feature or_throw
reads_with = refl

reads_without : get_training_data numerals (some without_zero_text) ≡ ok without_zero
unfolding get_training_data split split_loop get_item parse_lines parse_line parse_elems features
    feature or_throw
reads_without = refl

zeros : AllHaveZero with_zero
unfolding find
zeros = ((1, refl), tt)

nones : NoneHasZero without_zero
unfolding find
nones = ((λ h. cc (h.1)), tt)

split-IsCut_example : IsCut 32 with_zero_text (split 32 with_zero_text)
split-IsCut_example = split-IsCut 32 with_zero_text

train-IsOk_example : IsOk (train doubles settings random numerals (some with_zero_text) 0)
train-IsOk_example =
    train-IsOk numerals doubles settings random keeps (some with_zero_text) with_zero reads_with 0
      zeros (omega arith) (omega arith)

ltb_asym : (a b : ℕ) → ltb a b ≡ true → ltb b a ≡ false
ltb_asym a b h = ground arith

train-NonNegative_example :
    (o : Option (Training ℕ ℕ)) × (train doubles settings random numerals (some with_zero_text) 0
      ≡ ok o)
    × ((t : Training ℕ ℕ) → o ≡ some t → NonNegative doubles settings random t.weights)
train-NonNegative_example =
    train-NonNegative numerals doubles settings random keeps (some with_zero_text) with_zero
      reads_with 0 zeros (omega arith) (omega arith) refl ltb_asym

train-fault_example :
    train doubles settings random numerals (some without_zero_text) 0 ≡ fault out_of_bounds
train-fault_example =
    train-fault numerals doubles settings random keeps (some without_zero_text) without_zero
      reads_without 0 nones (omega arith) (omega arith) (omega arith)
