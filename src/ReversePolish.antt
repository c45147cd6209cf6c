-- ===== src/ReversePolish.antt =====
-- ReversePolishExpression/main.cpp: an expression is cut into elements, brought into postfix order
-- with a stack of operators, and evaluated with a stack of numbers. A character is its code. A
-- place in a string is given by the rest of the string from there; at its end a string has '\0'.
-- The stack of operators and that of numbers are listed from the back.
pub mod Grammar
pub mod Elements
pub mod Postfix
pub mod Value
use cpp_project.Prelude.{
  ℕ, zero, suc, Bool, true, false, ◌||◌, ◌&&◌, List, [], ◌∷◌, ◌++◌, length, get_or, leb, ◌==◌,
  if◌then◌else◌,
}
use cpp_project.Run.{Run, ok, fault, out_of_bounds, diverges, ◌>>=◌}

-- '0' is 48 and '9' is 57.
unfoldable pub is_digit : ℕ → Bool
is_digit c = leb 48 c && leb c 57

unfoldable pub is_number : List ℕ → Bool
unfolding is_digit
is_number [] = false
is_number (c ∷ rest) = is_digit c

-- `while (_is_number(exp, i)) str += exp[i++]`
unfoldable pub number_loop : List ℕ → List ℕ → List ℕ × List ℕ
unfolding is_digit
number_loop str [] = (str, [])
number_loop str (c ∷ rest) =
    let more = number_loop (str ++ c ∷ []) rest in if is_digit c then more else (str, c ∷ rest)

unfoldable pub next_elem : ℕ → List ℕ → List ℕ × List ℕ
unfolding number_loop
next_elem c rest = if is_digit c then number_loop [] (c ∷ rest) else (c ∷ [], rest)

unfoldable pub split_loop : ℕ → List ℕ → Run (List (List ℕ))
unfolding next_elem
split_loop zero rest = fault diverges
split_loop (suc fuel) [] = ok []
split_loop (suc fuel) (c ∷ rest) = do
  let elem = next_elem c rest
  res ← split_loop fuel elem.1
  ok (elem.0 ∷ res)

-- Each round takes a character.
unfoldable pub split_exp : List ℕ → Run (List (List ℕ))
unfolding split_loop
split_exp exp = split_loop (suc (length exp)) exp

-- `case ')'`: `back` of an empty vector is undefined.
unfoldable pub pop_to_open : List (List ℕ) → List ℕ → Run (List (List ℕ) × List ℕ)
pop_to_open stk [] = fault out_of_bounds
pop_to_open stk (op ∷ ops) =
    let more = pop_to_open (stk ++ (op ∷ []) ∷ []) ops in if op == 40 then ok (stk, ops) else more

-- '*' is 42 and '/' is 47.
unfoldable pub is_product : ℕ → Bool
is_product op = (op == 42) || (op == 47)

unfoldable pub pop_products : List (List ℕ) → List ℕ → List (List ℕ) × List ℕ
unfolding is_product
pop_products stk [] = (stk, [])
pop_products stk (op ∷ ops) =
    let more = pop_products (stk ++ (op ∷ []) ∷ []) ops in
    if is_product op then more else (stk, op ∷ ops)

-- The first test of `case '+'` and `case '-'`: '(' is 40, '+' is 43 and '-' is 45.
unfoldable pub goes_on_top : List ℕ → Bool
goes_on_top [] = true
goes_on_top (op ∷ ops) = (op == 40) || (op == 43) || (op == 45)

unfoldable pub take_sum : ℕ → List (List ℕ) → List ℕ → List (List ℕ) × List ℕ
unfolding goes_on_top pop_products
take_sum op stk ops =
    let popped = pop_products stk ops in
    if goes_on_top ops then (stk, op ∷ ops) else (popped.0, op ∷ popped.1)

-- The `switch`.
unfoldable pub take_op : ℕ → List (List ℕ) → List ℕ → Run (List (List ℕ) × List ℕ)
unfolding pop_to_open take_sum is_product
take_op op stk ops =
    if op == 40
    then ok (stk, op ∷ ops)
    else if op == 41
    then pop_to_open stk ops
    else if (op == 43) || (op == 45)
    then ok (take_sum op stk ops)
    else if is_product op
    then ok (stk, op ∷ ops)
    else ok (stk, ops)

unfoldable pub take_elem : List ℕ → List (List ℕ) → List ℕ → Run (List (List ℕ) × List ℕ)
unfolding is_number take_op
take_elem elem stk ops =
    if is_number elem then ok (stk ++ elem ∷ [], ops) else take_op (get_or elem 0 0) stk ops

unfoldable pub elem_loop : List (List ℕ) → List (List ℕ) → List ℕ → Run (List (List ℕ) × List ℕ)
unfolding take_elem
elem_loop [] stk ops = ok (stk, ops)
elem_loop (elem ∷ elems) stk ops = do r ← take_elem elem stk ops; elem_loop elems r.0 r.1

unfoldable pub pop_all : List (List ℕ) → List ℕ → List (List ℕ)
pop_all stk [] = stk
pop_all stk (op ∷ ops) = pop_all (stk ++ (op ∷ []) ∷ []) ops

-- What `set_exp` leaves in `_exp_stk`.
unfoldable pub set_exp : List ℕ → Run (List (List ℕ))
unfolding split_exp elem_loop pop_all
set_exp [] = ok []
set_exp (c ∷ rest) = do
  elems ← split_exp (c ∷ rest)
  r ← elem_loop elems [] []
  ok (pop_all r.0 r.1)

-- `double` and its operations; `stod` throws where a number is out of range.
pub record Numbers (D : Type 0) : Type 0 where
  pub stod : List ℕ → Run D
  pub plus : D → D → D
  pub minus : D → D → D
  pub times : D → D → D
  pub over : D → D → D

module _ {D : Type 0} (numbers : Numbers D) where
  open numbers use {stod, plus, minus, times, over}

  -- The `switch`; an invalid operator pushes nothing.
  unfoldable pub apply_op : ℕ → D → D → List D → List D
  apply_op op operand1 operand0 res =
      if op == 43
      then plus operand1 operand0 ∷ res
      else if op == 45
      then minus operand1 operand0 ∷ res
      else if op == 42
      then times operand1 operand0 ∷ res
      else if op == 47
      then over operand1 operand0 ∷ res
      else res

  unfoldable pub pop_two : ℕ → List D → Run (List D)
  unfolding apply_op
  pop_two op [] = fault out_of_bounds
  pop_two op (operand0 ∷ []) = fault out_of_bounds
  pop_two op (operand0 ∷ operand1 ∷ res) = ok (apply_op op operand1 operand0 res)

  unfoldable pub calculate_elem : List ℕ → List D → Run (List D)
  unfolding is_number pop_two
  calculate_elem elem res =
      if is_number elem then (do v ← stod elem; ok (v ∷ res)) else pop_two (get_or elem 0 0) res

  unfoldable pub calculate_loop : List (List ℕ) → List D → Run (List D)
  unfolding calculate_elem
  calculate_loop [] res = ok res
  calculate_loop (elem ∷ elems) res = do res' ← calculate_elem elem res; calculate_loop elems res'

  unfoldable pub back : List D → Run D
  back [] = fault out_of_bounds
  back (v ∷ res) = ok v

  unfoldable pub calculate : List (List ℕ) → Run D
  unfolding calculate_loop back
  calculate exp_stk = do res ← calculate_loop exp_stk []; back res
