-- ===== src/ReversePolish/Grammar.antt =====
-- The expressions that ReversePolishExpression/main.cpp is for, as trees. An operator takes all that
-- follows it at its level as its right operand, which is how the program reads them.
use cpp_project.Prelude.{ℕ, ◌<◌, ◌≡◌, Bool, true, List, [], ◌∷◌, ◌++◌, length, ◌&&◌}
use cpp_project.Run.{ok}
use cpp_project.ReversePolish.{is_digit, Numbers}

pub data SumOp : Type 0 where
  plus_op minus_op : SumOp

pub data ProductOp : Type 0 where
  times_op over_op : ProductOp

mutual
  pub data Factor : Type 0 where
    num : List ℕ → Factor
    paren : Sum → Factor

  pub data Product : Type 0 where
    one_factor : Factor → Product
    factors : ProductOp → Factor → Product → Product

  pub data Sum : Type 0 where
    one_product : Product → Sum
    products : SumOp → Product → Sum → Sum

abbrev pub sum_char : SumOp → ℕ
sum_char plus_op = 43
sum_char minus_op = 45

abbrev pub product_char : ProductOp → ℕ
product_char times_op = 42
product_char over_op = 47

-- The elements of an expression, before those of `rest`.
abbrev mutual
  pub factor_elems : Factor → List (List ℕ) → List (List ℕ)
  factor_elems (num digits) rest = digits ∷ rest
  factor_elems (paren s) rest = (40 ∷ []) ∷ sum_elems s ((41 ∷ []) ∷ rest)

  pub product_elems : Product → List (List ℕ) → List (List ℕ)
  product_elems (one_factor f) rest = factor_elems f rest
  product_elems (factors op f p) rest =
      factor_elems f ((product_char op ∷ []) ∷ product_elems p rest)

  pub sum_elems : Sum → List (List ℕ) → List (List ℕ)
  sum_elems (one_product p) rest = product_elems p rest
  sum_elems (products op p s) rest = product_elems p ((sum_char op ∷ []) ∷ sum_elems s rest)

abbrev pub join : List (List ℕ) → List ℕ
join [] = []
join (elem ∷ elems) = elem ++ join elems

-- The text of an expression.
abbrev pub print : Sum → List ℕ
print s = join (sum_elems s [])

abbrev pub all_digits : List ℕ → Bool
all_digits [] = true
all_digits (c ∷ rest) = is_digit c && all_digits rest

module _ {D : Type 0} (numbers : Numbers D) (value : List ℕ → D) where
  open numbers use {stod, plus, minus, times, over}

  abbrev pub sum_of : SumOp → D → D → D
  sum_of plus_op = plus
  sum_of minus_op = minus

  abbrev pub product_of : ProductOp → D → D → D
  product_of times_op = times
  product_of over_op = over

  abbrev mutual
    pub factor_value : Factor → D
    factor_value (num digits) = value digits
    factor_value (paren s) = sum_value s

    pub product_value : Product → D
    product_value (one_factor f) = factor_value f
    product_value (factors op f p) = product_of op (factor_value f) (product_value p)

    pub sum_value : Sum → D
    sum_value (one_product p) = product_value p
    sum_value (products op p s) = sum_of op (product_value p) (sum_value s)

  -- The numbers of an expression have digits only, at least one, and `stod` reads them.
  abbrev mutual
    pub IsFactor : Factor → Type 0
    IsFactor (num digits) =
        (0 < length digits) × (all_digits digits ≡ true) × (stod digits ≡ ok (value digits))
    IsFactor (paren s) = IsSum s

    pub IsProduct : Product → Type 0
    IsProduct (one_factor f) = IsFactor f
    IsProduct (factors op f p) = IsFactor f × IsProduct p

    pub IsSum : Sum → Type 0
    IsSum (one_product p) = IsProduct p
    IsSum (products op p s) = IsProduct p × IsSum s
