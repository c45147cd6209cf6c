-- ===== src/ReversePolish/Value.antt =====
-- `set_exp` and `calculate` of ReversePolishExpression/main.cpp together give an expression's value.
use cpp_project.Prelude.{ℕ, ◌≡◌, refl, List, [], ◌∷◌, ◌++◌, append-nil, arith}
use cpp_project.Run.{Run, ok, fault, ◌>>=◌}
use cpp_project.ReversePolish.{
  is_digit, is_number, split_exp, split_loop, goes_on_top, elem_loop, pop_all, set_exp, Numbers,
  apply_op, pop_two, calculate_elem, calculate_loop, back, calculate,
}
use cpp_project.ReversePolish.Grammar.{
  Factor, num, paren, Product, one_factor, factors, Sum, one_product, products, SumOp, ProductOp,
  times_op, over_op, plus_op, minus_op, product_char, sum_char, print, all_digits, sum_of,
  product_of, factor_value, product_value, sum_value, IsFactor, IsProduct, IsSum,
}
use cpp_project.ReversePolish.Elements.{both, split_exp-elems}
use cpp_project.ReversePolish.Postfix.{
  product_ops, sum_ops, factor_out, product_out, sum_out, sum-elem_loop,
}

pop_all-snoc :
    (stk : List (List ℕ)) (ops : List ℕ) (op : ℕ)
    → pop_all stk (ops ++ op ∷ []) ≡ pop_all stk ops ++ (op ∷ []) ∷ []
unfolding pop_all
pop_all-snoc stk [] op = refl
pop_all-snoc stk (o ∷ ops) op = pop_all-snoc (stk ++ (o ∷ []) ∷ []) ops op

bind_unit : {A : Type 0} (r : Run A) → (r >>= ok) ≡ r
bind_unit (ok a) = refl
bind_unit (fault e) = refl

bind_congr :
    {A : Type 0} (r : Run A) (f g h : A → Run A)
    → ((a : A) → f a ≡ (g a >>= h))
    → (r >>= f) ≡ ((r >>= g) >>= h)
bind_congr (ok a) f g h same = same a
bind_congr (fault e) f g h same = refl

-- The empty text is no special case.
set_exp-split :
    (exp : List ℕ)
    → set_exp exp ≡ (split_exp exp >>= λ elems. elem_loop elems [] [] >>= λ r. ok (pop_all r.0 r.1))
unfolding set_exp split_exp split_loop elem_loop pop_all
set_exp-split [] = refl
set_exp-split (c ∷ rest) = refl

module _ {D : Type 0} (numbers : Numbers D) where
  loop-snoc :
      (stk : List (List ℕ)) (elem : List ℕ) (start : List D)
      → calculate_loop numbers (stk ++ elem ∷ []) start
        ≡ (calculate_loop numbers stk start >>= calculate_elem numbers elem)
  unfolding calculate_loop
  loop-snoc [] elem start = bind_unit (calculate_elem numbers elem start)
  loop-snoc (e ∷ stk) elem start =
      bind_congr (calculate_elem numbers e start) (calculate_loop numbers (stk ++ elem ∷ []))
        (calculate_loop numbers stk) (calculate_elem numbers elem) (loop-snoc stk elem)

  -- The elements leave these numbers on the stack.
  abbrev Leaves : List (List ℕ) → List D → Type 0
  Leaves stk res = calculate_loop numbers stk [] ≡ ok res

  Leaves-snoc :
      (stk : List (List ℕ)) (elem : List ℕ) (res res' : List D)
      → Leaves stk res
      → calculate_elem numbers elem res ≡ ok res'
      → Leaves (stk ++ elem ∷ []) res'
  Leaves-snoc stk elem res res' so_far next = rw (loop-snoc, so_far, ◌>>=◌) next

module _ {D : Type 0} (numbers : Numbers D) (value : List ℕ → D) where
  open numbers use {stod, plus, minus, times, over}

  calculate_elem-number :
      (digits : List ℕ) (res : List D)
      → IsFactor numbers value (num digits)
      → calculate_elem numbers digits res ≡ ok (value digits ∷ res)
  unfolding calculate_elem is_number
  calculate_elem-number [] res (some_there, all, read) = absurd (omega arith)
  calculate_elem-number (d ∷ digits) res (some_there, all, read) =
      rw ((both (is_digit d) (all_digits digits) all).0, read, ◌>>=◌) refl

  calculate_elem-product :
      (op : ProductOp) (a b : D) (res : List D)
      → calculate_elem numbers (product_char op ∷ []) (b ∷ a ∷ res)
        ≡ ok (product_of numbers value op a b ∷ res)
  unfolding calculate_elem is_number is_digit pop_two apply_op
  calculate_elem-product times_op a b res = refl
  calculate_elem-product over_op a b res = refl

  calculate_elem-sum :
      (op : SumOp) (a b : D) (res : List D)
      → calculate_elem numbers (sum_char op ∷ []) (b ∷ a ∷ res)
        ≡ ok (sum_of numbers value op a b ∷ res)
  unfolding calculate_elem is_number is_digit pop_two apply_op
  calculate_elem-sum plus_op a b res = refl
  calculate_elem-sum minus_op a b res = refl

  Leaves-op :
      (stk : List (List ℕ)) (ops : List ℕ) (op : ℕ) (res res' : List D)
      → Leaves numbers (pop_all stk ops) res
      → calculate_elem numbers (op ∷ []) res ≡ ok res'
      → Leaves numbers (pop_all stk (ops ++ op ∷ [])) res'
  Leaves-op stk ops op res res' so_far next =
      rw (pop_all-snoc) (Leaves-snoc numbers (pop_all stk ops) (op ∷ []) res res' so_far next)

  mutual
    unfolding pop_all

    factor-Leaves :
        (f : Factor) (stk : List (List ℕ)) (res : List D)
        → IsFactor numbers value f
        → Leaves numbers stk res
        → Leaves numbers (factor_out f stk) (factor_value numbers value f ∷ res)
    factor-Leaves (num digits) stk res is so_far =
        Leaves-snoc numbers stk digits res _ so_far (calculate_elem-number digits res is)
    factor-Leaves (paren s) stk res is so_far = sum-Leaves s stk res is so_far

    product-Leaves :
        (p : Product) (stk : List (List ℕ)) (res : List D)
        → IsProduct numbers value p
        → Leaves numbers stk res
        → Leaves numbers
            (pop_all (product_out p stk) (product_ops p))
            (product_value numbers value p ∷ res)
    product-Leaves (one_factor f) stk res is so_far = factor-Leaves f stk res is so_far
    product-Leaves (factors op f p) stk res (is_f, is_p) so_far =
        Leaves-op (product_out p (factor_out f stk)) (product_ops p) (product_char op) _ _
          (product-Leaves p (factor_out f stk) _ is_p (factor-Leaves f stk res is_f so_far))
          (calculate_elem-product op (factor_value numbers value f) (product_value numbers value p)
            res)

    sum-Leaves :
        (s : Sum) (stk : List (List ℕ)) (res : List D)
        → IsSum numbers value s
        → Leaves numbers stk res
        → Leaves numbers (pop_all (sum_out s stk) (sum_ops s)) (sum_value numbers value s ∷ res)
    sum-Leaves (one_product p) stk res is so_far = product-Leaves p stk res is so_far
    sum-Leaves (products op p s) stk res (is_p, is_s) so_far =
        Leaves-op (sum_out s (pop_all (product_out p stk) (product_ops p))) (sum_ops s)
          (sum_char op) _ _
          (sum-Leaves s (pop_all (product_out p stk) (product_ops p)) _ is_s
            (product-Leaves p stk res is_p so_far))
          (calculate_elem-sum op (product_value numbers value p) (sum_value numbers value s) res)

  set_exp-print :
      (s : Sum)
      → IsSum numbers value s
      → set_exp (print s) ≡ ok (pop_all (sum_out s []) (sum_ops s))
  unfolding elem_loop goes_on_top
  set_exp-print s is =
      rw
        (
          set_exp-split,
          split_exp-elems numbers value s is,
          ◌>>=◌,
          sum-elem_loop numbers value s [] [] [] is refl,
          append-nil,
        )
        refl

  -- The text of an expression, in which each operator takes all that follows it at its level as its
  -- right operand, is brought into postfix order and evaluated without a fault, to the value of the
  -- expression, if its numbers have digits only, at least one, and `stod` reads them.
  pub calculate-set_exp :
      (s : Sum)
      → IsSum numbers value s
      → (set_exp (print s) >>= calculate numbers) ≡ ok (sum_value numbers value s)
  unfolding calculate calculate_loop back
  calculate-set_exp s is = rw (set_exp-print s is, ◌>>=◌, sum-Leaves s [] [] is refl) refl
