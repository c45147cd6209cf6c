-- ===== src/Tests/PolishTests.antt =====
-- Expressions evaluated, and the witnesses of the theorems on them.
use cpp_project.Prelude.{ℕ, ◌+◌, ◌-◌, ◌*◌, ◌/◌, ◌≡◌, refl, List, [], ◌∷◌, arith}
use cpp_project.Run.{ok, fault, out_of_bounds, ◌>>=◌}
use cpp_project.ReversePolish
use cpp_project.ReversePolish.{Numbers, set_exp, calculate, split_exp}
use cpp_project.ReversePolish.Grammar.{
  num, paren, Product, one_factor, factors, Sum, one_product, products, over_op, plus_op, print,
  join, sum_value, IsSum,
}
use cpp_project.ReversePolish.Elements.{AreElems, split_exp-join}
use cpp_project.ReversePolish.Value.{calculate-set_exp}

abbrev decimal_from : ℕ → List ℕ → ℕ
decimal_from n [] = n
decimal_from n (c ∷ rest) = decimal_from (n * 10 + (c - 48)) rest

abbrev decimal : List ℕ → ℕ
decimal = decimal_from 0

abbrev whole_numbers : Numbers ℕ
whole_numbers = record {
  stod = λ digits. ok (decimal digits);
  plus = λ a b. a + b;
  minus = λ a b. a - b;
  times = λ a b. a * b;
  over = λ a b. a / b;
}

abbrev digit : ℕ → Product
digit d = one_factor (num ((48 + d) ∷ []))

-- (1+2)/10+6/3+7
abbrev in_main : Sum
in_main =
    products plus_op
      (factors over_op (paren (products plus_op (digit 1) (one_product (digit 2))))
        (one_factor (num (49 ∷ 48 ∷ []))))
      (products plus_op (factors over_op (num (54 ∷ [])) (digit 3)) (one_product (digit 7)))

in_main-IsSum : IsSum whole_numbers decimal in_main
unfolding ReversePolish.is_digit
in_main-IsSum = (
  (((omega arith, refl, refl), (omega arith, refl, refl)), (omega arith, refl, refl)),
  (((omega arith, refl, refl), (omega arith, refl, refl)), (omega arith, refl, refl)),
)

calculate-set_exp_example :
    (set_exp (print in_main) >>= calculate whole_numbers)
    ≡ ok (sum_value whole_numbers decimal in_main)
calculate-set_exp_example = calculate-set_exp whole_numbers decimal in_main in_main-IsSum

split_exp-join_example :
    (elems : List (List ℕ)) × (split_exp (49 ∷ 50 ∷ 43 ∷ 51 ∷ []) ≡ ok elems)
    × (join elems ≡ 49 ∷ 50 ∷ 43 ∷ 51 ∷ [])
    × AreElems elems
split_exp-join_example = split_exp-join (49 ∷ 50 ∷ 43 ∷ 51 ∷ [])

-- "9-5-2" is 9 - (5 - 2).
minus_twice : (set_exp (57 ∷ 45 ∷ 53 ∷ 45 ∷ 50 ∷ []) >>= calculate whole_numbers) ≡ ok 6
unfolding set_exp ReversePolish.split_exp ReversePolish.split_loop ReversePolish.next_elem
    ReversePolish.number_loop ReversePolish.is_digit ReversePolish.elem_loop ReversePolish.take_elem
    ReversePolish.is_number ReversePolish.take_op ReversePolish.take_sum ReversePolish.goes_on_top
    ReversePolish.pop_products ReversePolish.is_product ReversePolish.pop_all calculate
    ReversePolish.calculate_loop ReversePolish.calculate_elem ReversePolish.pop_two
    ReversePolish.apply_op ReversePolish.back
minus_twice = refl

-- A ')' alone reads the back of an empty vector.
closed_alone : set_exp (41 ∷ []) ≡ fault out_of_bounds
unfolding set_exp ReversePolish.split_exp ReversePolish.split_loop ReversePolish.next_elem
    ReversePolish.is_digit ReversePolish.elem_loop ReversePolish.take_elem ReversePolish.is_number
    ReversePolish.take_op ReversePolish.pop_to_open
closed_alone = refl
