-- ===== src/ReversePolish/Elements.antt =====
-- `_split_exp` of ReversePolishExpression/main.cpp cuts the text of an expression into its elements.
use mathlib.Core.Path.{subst}
use cpp_project.Prelude.{
  ℕ, zero, suc, ◌<◌, ◌≤◌, ◌≡◌, refl, sym, ap, ◌∙◌, ◌⊎◌, Bool, true, false, List, [], ◌∷◌, ◌++◌,
  append_assoc, append-nil, length, length-append, ◌&&◌, Bool-cases, inl, inr, arith,
}
use cpp_project.Run.{ok, ◌>>=◌}
use cpp_project.ReversePolish.{
  is_digit, is_number, number_loop, next_elem, split_loop, split_exp, Numbers,
}
use cpp_project.ReversePolish.Grammar.{
  Factor, num, paren, Product, one_factor, factors, Sum, one_product, products, times_op, over_op,
  plus_op, minus_op, factor_elems, product_elems, sum_elems, join, print, all_digits, IsFactor,
  IsProduct, IsSum,
}

pub both : (a b : Bool) → (a && b) ≡ true → (a ≡ true) × (b ≡ true)
both true true h = (refl, refl)
both true false h = absurd cc
both false b h = absurd cc

number_loop_lem :
    (str digits rest : List ℕ)
    → all_digits digits ≡ true
    → is_number rest ≡ false
    → number_loop str (digits ++ rest) ≡ (str ++ digits, rest)
unfolding number_loop is_number
number_loop_lem str [] [] all stops = ap (λ s. (s, [])) (sym (append-nil str))
number_loop_lem str [] (c ∷ rest) all stops = rw (stops, append-nil) refl
number_loop_lem str (d ∷ digits) rest all stops =
    rw
      (
        (both (is_digit d) (all_digits digits) all).0,
        number_loop_lem (str ++ d ∷ []) digits rest (both (is_digit d) (all_digits digits) all).1
            stops,
        append_assoc,
      )
      refl

-- The text of the elements is cut into them, whatever the rounds allowed beyond its length.
abbrev Splits : List (List ℕ) → Type 0
Splits elems = (fuel : ℕ) → length (join elems) < fuel → split_loop fuel (join elems) ≡ ok elems

number-Splits :
    (digits : List ℕ) (elems : List (List ℕ))
    → 0 < length digits
    → all_digits digits ≡ true
    → is_number (join elems) ≡ false
    → Splits elems
    → Splits (digits ∷ elems)
unfolding split_loop next_elem
number-Splits [] elems some_there all stops rest fuel enough = absurd (omega arith)
number-Splits (d ∷ digits) elems some_there all stops rest zero enough = absurd (omega arith)
number-Splits (d ∷ digits) elems some_there all stops rest (suc fuel) enough =
    rw
      (
        (both (is_digit d) (all_digits digits) all).0,
        number_loop,
        number_loop_lem (d ∷ []) digits (join elems) (both (is_digit d) (all_digits digits) all).1
            stops,
        rest fuel (omega (arith, length-append digits (join elems))),
        ◌>>=◌,
      )
      refl

nothing : Splits []
unfolding split_loop
nothing zero enough = absurd (omega arith)
nothing (suc fuel) enough = refl

op-Splits :
    (c : ℕ) (elems : List (List ℕ)) → is_digit c ≡ false → Splits elems → Splits ((c ∷ []) ∷ elems)
unfolding split_loop next_elem
op-Splits c elems stops rest zero enough = absurd (omega arith)
op-Splits c elems stops rest (suc fuel) enough = rw (stops, rest fuel (omega arith), ◌>>=◌) refl

-- What follows a factor does not continue a number.
mutual
  unfolding is_number is_digit

  factor-Splits :
      {D : Type 0} (numbers : Numbers D) (value : List ℕ → D) (f : Factor) (rest : List (List ℕ))
      → IsFactor numbers value f
      → is_number (join rest) ≡ false
      → Splits rest
      → Splits (factor_elems f rest)
  factor-Splits numbers value (num digits) rest (some_there, all, read) stops splits =
      number-Splits digits rest some_there all stops splits
  factor-Splits numbers value (paren s) rest is stops splits =
      op-Splits 40 _ refl (sum-Splits numbers value s _ is refl (op-Splits 41 rest refl splits))

  product-Splits :
      {D : Type 0} (numbers : Numbers D) (value : List ℕ → D) (p : Product) (rest : List (List ℕ))
      → IsProduct numbers value p
      → is_number (join rest) ≡ false
      → Splits rest
      → Splits (product_elems p rest)
  product-Splits numbers value (one_factor f) rest is stops splits =
      factor-Splits numbers value f rest is stops splits
  product-Splits numbers value (factors times_op f p) rest (is_f, is_p) stops splits =
      factor-Splits numbers value f _ is_f refl
        (op-Splits 42 _ refl (product-Splits numbers value p rest is_p stops splits))
  product-Splits numbers value (factors over_op f p) rest (is_f, is_p) stops splits =
      factor-Splits numbers value f _ is_f refl
        (op-Splits 47 _ refl (product-Splits numbers value p rest is_p stops splits))

  sum-Splits :
      {D : Type 0} (numbers : Numbers D) (value : List ℕ → D) (s : Sum) (rest : List (List ℕ))
      → IsSum numbers value s
      → is_number (join rest) ≡ false
      → Splits rest
      → Splits (sum_elems s rest)
  sum-Splits numbers value (one_product p) rest is stops splits =
      product-Splits numbers value p rest is stops splits
  sum-Splits numbers value (products plus_op p s) rest (is_p, is_s) stops splits =
      product-Splits numbers value p _ is_p refl
        (op-Splits 43 _ refl (sum-Splits numbers value s rest is_s stops splits))
  sum-Splits numbers value (products minus_op p s) rest (is_p, is_s) stops splits =
      product-Splits numbers value p _ is_p refl
        (op-Splits 45 _ refl (sum-Splits numbers value s rest is_s stops splits))

pub split_exp-elems :
    {D : Type 0} (numbers : Numbers D) (value : List ℕ → D) (s : Sum)
    → IsSum numbers value s
    → split_exp (print s) ≡ ok (sum_elems s [])
unfolding split_exp is_number split_loop
split_exp-elems numbers value s is =
    sum-Splits numbers value s [] is refl nothing (suc (length (print s))) (omega arith)

-- An element before the rest of the text: a number that the rest does not go on with, or one
-- character that is not a digit.
abbrev pub IsElem : List ℕ → List ℕ → Type 0
IsElem elem rest =
    ((0 < length elem) × (all_digits elem ≡ true) × (is_number rest ≡ false))
    ⊎ ((c : ℕ) × (elem ≡ c ∷ []) × (is_digit c ≡ false))

abbrev pub AreElems : List (List ℕ) → Type 0
AreElems [] = Unit
AreElems (elem ∷ elems) = IsElem elem (join elems) × AreElems elems

-- The digits are taken off the front.
number_loop-cut :
    (str rest : List ℕ)
    → (digits rest' : List ℕ) × (number_loop str rest ≡ (str ++ digits, rest'))
      × (digits ++ rest' ≡ rest)
      × (all_digits digits ≡ true)
      × (is_number rest' ≡ false)
unfolding number_loop is_number
number_loop-cut str [] = ([], [], ap (λ s. (s, [])) (sym (append-nil str)), refl, refl, refl)
number_loop-cut str (c ∷ rest) = elim (Bool-cases (is_digit c)) [
  | inl digit ↦
      let (digits, rest', run, same, all, stops) = number_loop-cut (str ++ c ∷ []) rest in
      (
        c ∷ digits,
        rest',
        rw digit (run ∙ ap (λ s. (s, rest')) (append_assoc str (c ∷ []) digits)),
        ap (◌∷◌ c) same,
        rw digit all,
        stops,
      )
  | inr other ↦ ([], c ∷ rest, rw (other, append-nil) refl, refl, refl, other)
]

next_elem-cut :
    (c : ℕ) (rest : List ℕ)
    → (elem rest' : List ℕ) × (next_elem c rest ≡ (elem, rest'))
      × (elem ++ rest' ≡ c ∷ rest)
      × (length rest' ≤ length rest)
      × IsElem elem rest'
unfolding next_elem number_loop
next_elem-cut c rest = elim (Bool-cases (is_digit c)) [
  | inl digit ↦
      let (digits, rest', run, same, all, stops) = number_loop-cut (c ∷ []) rest in
      (
        c ∷ digits,
        rest',
        rw digit run,
        ap (◌∷◌ c) same,
        omega (arith, ap length same, length-append digits rest'),
        inl (omega arith, rw digit all, stops),
      )
  | inr other ↦ (c ∷ [], rest, rw other refl, refl, omega arith, inr (c, refl, other))
]

split_loop-join :
    (fuel : ℕ) (rest : List ℕ)
    → length rest < fuel
    → (elems : List (List ℕ)) × (split_loop fuel rest ≡ ok elems)
      × (join elems ≡ rest)
      × AreElems elems
unfolding split_loop
split_loop-join zero rest enough = absurd (omega arith)
split_loop-join (suc fuel) [] enough = ([], refl, refl, tt)
split_loop-join (suc fuel) (c ∷ rest) enough =
    let (elem, rest', taken, same, shorter, is) = next_elem-cut c rest in
    let (elems, run, joined, are) = split_loop-join fuel rest' (omega (arith, shorter)) in
    (
      elem ∷ elems,
      rw (taken, run, ◌>>=◌) refl,
      rw joined same,
      (subst (IsElem elem) (sym joined) is, are),
    )

-- Every text is cut into elements without a fault, and the elements together are the text. An element
-- is a row of digits that no digit follows in the text, or one character that is not a digit.
pub split_exp-join :
    (exp : List ℕ)
    → (elems : List (List ℕ)) × (split_exp exp ≡ ok elems) × (join elems ≡ exp) × AreElems elems
unfolding split_exp
split_exp-join exp = split_loop-join (suc (length exp)) exp (omega arith)
