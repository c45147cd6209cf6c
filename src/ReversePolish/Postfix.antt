-- ===== src/ReversePolish/Postfix.antt =====
-- `set_exp` of ReversePolishExpression/main.cpp on the elements of an expression: what has left the
-- stack of operators, and what is still on it.
use cpp_project.Prelude.{
  ℕ, ◌≡◌, refl, sym, ap, ◌∙◌, true, false, List, [], ◌∷◌, ◌++◌, append_assoc, ◌==◌, ◌<◌, length,
  arith,
}
use cpp_project.Run.{ok, ◌>>=◌}
use cpp_project.ReversePolish.{
  is_digit, is_number, pop_to_open, is_product, pop_products, goes_on_top, take_sum, take_op,
  take_elem, elem_loop, pop_all, Numbers,
}
use cpp_project.ReversePolish.Grammar.{
  Factor, num, paren, Product, one_factor, factors, Sum, one_product, products, times_op, over_op,
  plus_op, minus_op, SumOp, ProductOp, product_char, sum_char, factor_elems, product_elems,
  sum_elems, all_digits, IsFactor, IsProduct, IsSum,
}
use cpp_project.ReversePolish.Elements.{both}

abbrev pub product_ops : Product → List ℕ
product_ops (one_factor f) = []
product_ops (factors op f p) = product_ops p ++ product_char op ∷ []

abbrev pub sum_ops : Sum → List ℕ
sum_ops (one_product p) = product_ops p
sum_ops (products op p s) = sum_ops s ++ sum_char op ∷ []

abbrev mutual
  pub factor_out : Factor → List (List ℕ) → List (List ℕ)
  factor_out (num digits) stk = stk ++ digits ∷ []
  factor_out (paren s) stk = pop_all (sum_out s stk) (sum_ops s)

  pub product_out : Product → List (List ℕ) → List (List ℕ)
  product_out (one_factor f) stk = factor_out f stk
  product_out (factors op f p) stk = product_out p (factor_out f stk)

  pub sum_out : Sum → List (List ℕ) → List (List ℕ)
  sum_out (one_product p) stk = product_out p stk
  sum_out (products op p s) stk = sum_out s (pop_all (product_out p stk) (product_ops p))

abbrev AllProducts : List ℕ → Type 0
AllProducts [] = Unit
AllProducts (op ∷ ops) = (is_product op ≡ true) × AllProducts ops

abbrev NoOpen : List ℕ → Type 0
NoOpen [] = Unit
NoOpen (op ∷ ops) = ((op == 40) ≡ false) × NoOpen ops

AllProducts-snoc :
    (ops : List ℕ) (op : ℕ) → AllProducts ops → is_product op ≡ true → AllProducts (ops ++ op ∷ [])
AllProducts-snoc [] op all is = (is, tt)
AllProducts-snoc (o ∷ ops) op (first, all) is = (first, AllProducts-snoc ops op all is)

product_ops-AllProducts : (p : Product) → AllProducts (product_ops p)
unfolding is_product
product_ops-AllProducts (one_factor f) = tt
product_ops-AllProducts (factors times_op f p) =
    AllProducts-snoc (product_ops p) 42 (product_ops-AllProducts p) refl
product_ops-AllProducts (factors over_op f p) =
    AllProducts-snoc (product_ops p) 47 (product_ops-AllProducts p) refl

NoOpen-snoc : (ops : List ℕ) (op : ℕ) → NoOpen ops → (op == 40) ≡ false → NoOpen (ops ++ op ∷ [])
NoOpen-snoc [] op all is = (is, tt)
NoOpen-snoc (o ∷ ops) op (first, all) is = (first, NoOpen-snoc ops op all is)

product_ops-NoOpen : (p : Product) → NoOpen (product_ops p)
product_ops-NoOpen (one_factor f) = tt
product_ops-NoOpen (factors times_op f p) =
    NoOpen-snoc (product_ops p) 42 (product_ops-NoOpen p) refl
product_ops-NoOpen (factors over_op f p) =
    NoOpen-snoc (product_ops p) 47 (product_ops-NoOpen p) refl

sum_ops-NoOpen : (s : Sum) → NoOpen (sum_ops s)
sum_ops-NoOpen (one_product p) = product_ops-NoOpen p
sum_ops-NoOpen (products plus_op p s) = NoOpen-snoc (sum_ops s) 43 (sum_ops-NoOpen s) refl
sum_ops-NoOpen (products minus_op p s) = NoOpen-snoc (sum_ops s) 45 (sum_ops-NoOpen s) refl

pop_to_open-ops :
    (stk : List (List ℕ)) (pending ops : List ℕ)
    → NoOpen pending
    → pop_to_open stk (pending ++ 40 ∷ ops) ≡ ok (pop_all stk pending, ops)
unfolding pop_to_open pop_all
pop_to_open-ops stk [] ops none_open = refl
pop_to_open-ops stk (op ∷ pending) ops (first, none_open) =
    rw (first, pop_to_open-ops (stk ++ (op ∷ []) ∷ []) pending ops none_open) refl

-- An operator of a sum waits for those of products only.
pop_products-below :
    (stk : List (List ℕ)) (ops : List ℕ)
    → goes_on_top ops ≡ true
    → pop_products stk ops ≡ (stk, ops)
unfolding pop_products goes_on_top is_product
pop_products-below stk [] low = refl
pop_products-below stk (op ∷ ops) low = ground arith

pop_products-ops :
    (stk : List (List ℕ)) (pending ops : List ℕ)
    → AllProducts pending
    → goes_on_top ops ≡ true
    → pop_products stk (pending ++ ops) ≡ (pop_all stk pending, ops)
unfolding pop_products pop_all
pop_products-ops stk [] ops all low = pop_products-below stk ops low
pop_products-ops stk (op ∷ pending) ops (first, all) low =
    rw (first, pop_products-ops (stk ++ (op ∷ []) ∷ []) pending ops all low) refl

product_waits : (op : ℕ) (ops : List ℕ) → is_product op ≡ true → goes_on_top (op ∷ ops) ≡ false
unfolding is_product goes_on_top
product_waits op ops is = ground arith

take_sum-ops :
    (op : ℕ) (stk : List (List ℕ)) (pending ops : List ℕ)
    → AllProducts pending
    → goes_on_top ops ≡ true
    → take_sum op stk (pending ++ ops) ≡ (pop_all stk pending, op ∷ ops)
unfolding take_sum pop_all
take_sum-ops op stk [] ops all low = rw low refl
take_sum-ops op stk (o ∷ pending) ops all low =
    rw (pop_products-ops stk (o ∷ pending) ops all low, product_waits o (pending ++ ops) all.0) refl

elem_loop-number :
    (digits : List ℕ) (elems stk : List (List ℕ)) (ops : List ℕ)
    → 0 < length digits
    → all_digits digits ≡ true
    → elem_loop (digits ∷ elems) stk ops ≡ elem_loop elems (stk ++ digits ∷ []) ops
unfolding elem_loop take_elem is_number
elem_loop-number [] elems stk ops some_there all = absurd (omega arith)
elem_loop-number (d ∷ digits) elems stk ops some_there all =
    rw ((both (is_digit d) (all_digits digits) all).0, ◌>>=◌) refl

elem_loop-sum_op :
    (op : ℕ) (elems stk : List (List ℕ)) (p : Product) (ops : List ℕ)
    → is_digit op ≡ false
    → take_op op stk (product_ops p ++ ops) ≡ ok (take_sum op stk (product_ops p ++ ops))
    → goes_on_top ops ≡ true
    → elem_loop ((op ∷ []) ∷ elems) stk (product_ops p ++ ops)
      ≡ elem_loop elems (pop_all stk (product_ops p)) (op ∷ ops)
unfolding elem_loop take_elem is_number
elem_loop-sum_op op elems stk p ops stops is_sum low =
    rw
      (
        stops,
        is_sum,
        ◌>>=◌,
        take_sum-ops op stk (product_ops p) ops (product_ops-AllProducts p) low,
      )
      refl

sum_on_top : (op : SumOp) (ops : List ℕ) → goes_on_top (sum_char op ∷ ops) ≡ true
unfolding goes_on_top
sum_on_top plus_op ops = refl
sum_on_top minus_op ops = refl

sum_op :
    (op : SumOp) (p : Product) (elems stk : List (List ℕ)) (ops : List ℕ)
    → goes_on_top ops ≡ true
    → elem_loop ((sum_char op ∷ []) ∷ elems) stk (product_ops p ++ ops)
      ≡ elem_loop elems (pop_all stk (product_ops p)) (sum_char op ∷ ops)
unfolding is_digit take_op
sum_op plus_op p elems stk ops low = elem_loop-sum_op 43 elems stk p ops refl refl low
sum_op minus_op p elems stk ops low = elem_loop-sum_op 45 elems stk p ops refl refl low

product_op :
    (op : ProductOp) (elems stk : List (List ℕ)) (ops : List ℕ)
    → elem_loop ((product_char op ∷ []) ∷ elems) stk ops
      ≡ elem_loop elems stk (product_char op ∷ ops)
unfolding elem_loop take_elem is_number is_digit take_op is_product
product_op times_op elems stk ops = refl
product_op over_op elems stk ops = refl

opening :
    (rest stk : List (List ℕ)) (ops : List ℕ)
    → elem_loop ((40 ∷ []) ∷ rest) stk ops ≡ elem_loop rest stk (40 ∷ ops)
unfolding elem_loop take_elem is_number is_digit take_op
opening rest stk ops = refl

closing :
    (s : Sum) (rest stk : List (List ℕ)) (ops : List ℕ)
    → elem_loop ((41 ∷ []) ∷ rest) stk (sum_ops s ++ 40 ∷ ops)
      ≡ elem_loop rest (pop_all stk (sum_ops s)) ops
unfolding elem_loop take_elem is_number is_digit take_op
closing s rest stk ops = rw (pop_to_open-ops stk (sum_ops s) ops (sum_ops-NoOpen s), ◌>>=◌) refl

module _ {D : Type 0} (numbers : Numbers D) (value : List ℕ → D) where
  mutual
    unfolding goes_on_top

    pub factor-elem_loop :
        (f : Factor) (rest stk : List (List ℕ)) (ops : List ℕ)
        → IsFactor numbers value f
        → elem_loop (factor_elems f rest) stk ops ≡ elem_loop rest (factor_out f stk) ops
    factor-elem_loop (num digits) rest stk ops (some_there, all, read) =
        elem_loop-number digits rest stk ops some_there all
    factor-elem_loop (paren s) rest stk ops is =
        opening (sum_elems s ((41 ∷ []) ∷ rest)) stk ops
        ∙ (sum-elem_loop s ((41 ∷ []) ∷ rest) stk (40 ∷ ops) is refl
            ∙ closing s rest (sum_out s stk) ops)

    pub product-elem_loop :
        (p : Product) (rest stk : List (List ℕ)) (ops : List ℕ)
        → IsProduct numbers value p
        → elem_loop (product_elems p rest) stk ops
          ≡ elem_loop rest (product_out p stk) (product_ops p ++ ops)
    product-elem_loop (one_factor f) rest stk ops is = factor-elem_loop f rest stk ops is
    product-elem_loop (factors op f p) rest stk ops (is_f, is_p) =
        factor-elem_loop f _ stk ops is_f
        ∙ (product_op op (product_elems p rest) (factor_out f stk) ops
            ∙ (product-elem_loop p rest (factor_out f stk) (product_char op ∷ ops) is_p
                ∙ ap (elem_loop rest (product_out p (factor_out f stk)))
                    (sym (append_assoc (product_ops p) (product_char op ∷ []) ops))))

    pub sum-elem_loop :
        (s : Sum) (rest stk : List (List ℕ)) (ops : List ℕ)
        → IsSum numbers value s
        → goes_on_top ops ≡ true
        → elem_loop (sum_elems s rest) stk ops ≡ elem_loop rest (sum_out s stk) (sum_ops s ++ ops)
    sum-elem_loop (one_product p) rest stk ops is low = product-elem_loop p rest stk ops is
    sum-elem_loop (products op p s) rest stk ops (is_p, is_s) low =
        product-elem_loop p _ stk ops is_p
        ∙ (sum_op op p (sum_elems s rest) (product_out p stk) ops low
            ∙ (sum-elem_loop s rest (pop_all (product_out p stk) (product_ops p))
                  (sum_char op ∷ ops) is_s (sum_on_top op ops)
                ∙ ap (elem_loop rest (sum_out s (pop_all (product_out p stk) (product_ops p))))
                    (sym (append_assoc (sum_ops s) (sum_char op ∷ []) ops))))
