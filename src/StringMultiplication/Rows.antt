-- ===== src/StringMultiplication/Rows.antt =====
-- What the two loops of StringMultiplication/main.cpp add to the number that `proInt` holds.
use cpp_project.Prelude.{
  ℕ, zero, suc, ◌+◌, ◌*◌, ◌/◌, ◌%◌, ◌<◌, ◌≤◌, ◌≡◌, refl, sym, ap, ◌∙◌, List, length, length-set,
  get_or, get_or-set, set, arith,
}
use mathlib.Core.Path.{subst}
use native.Mathlib.Nat.{add-zero, mul-le-mul}
use cpp_project.Run.{ok, ◌>>=◌, at-get_or, put-set}
use cpp_project.StringMultiplication.{product_at, digit_loop, row_loop}
use cpp_project.StringMultiplication.Places.{
  worth, place, front, IsDigits, place-suc, worth-set, set-IsDigits,
}

-- A step of the loop over digits: the carry is worth ten times the place.
carry_lem :
    (w before after p a b c q r f total : ℕ)
    → q * 10 + r ≡ product_at p a b c
    → after + p * w ≡ before + r * w
    → total ≡ after + (q * (10 * w) + a * f * (10 * w))
    → total ≡ before + (c * w + a * (f * 10 + b) * w)
carry_lem w before after p a b c q r f total divided written rest =
    omega (arith, ap (λ x. x * w) divided)

get_or-below :
    (s : List ℕ) (i k v : ℕ) → k < i → i < length s → get_or (set s i v) k 0 ≡ get_or s k 0
get_or-below s i k v below inside = ground (arith, get_or-set s i k v 0 inside)

product_small : (p a b c : ℕ) → p < 10 → a < 10 → b < 10 → c < 10 → product_at p a b c < 100
product_small p a b c small_p small_a small_b small_c =
    omega (arith, mul-le-mul {n₁ = a} {m₁ = b} {n₂ = 9} {m₂ = 9} (omega arith) (omega arith))

-- What the loop over digits has done to `n` places, where the places up to `i` are as they were.
pub record Added (n : ℕ) (pro_int : List ℕ) (i gain c' : ℕ) (pro_int' : List ℕ) : Type 0 where
  pub many : length pro_int' ≡ n
  pub digits : IsDigits pro_int'
  pub carried : c' < 10
  pub kept : (k : ℕ) → k < suc i → get_or pro_int' k 0 ≡ get_or pro_int k 0
  pub gained : worth pro_int' + c' * place n i ≡ worth pro_int + gain

-- What is still to come in the loop for the digit `a` of `s1`.
abbrev pub to_come : ℕ → ℕ → List ℕ → ℕ → ℕ → ℕ → ℕ
to_come n a s2 i j c = c * place n (i + j) + a * front j s2 * place n (i + j)

Added-step :
    (n a : ℕ) (s2 : List ℕ) (i j c : ℕ) (pro_int : List ℕ) (c' : ℕ) (pro_int' : List ℕ)
    → i + suc j < n
    → length pro_int ≡ n
    → Added n
        (set pro_int
          (i + j + 1)
          (product_at (get_or pro_int (i + j + 1) 0) a (get_or s2 j 0) c % 10))
        i
        (to_come n a s2 i j (product_at (get_or pro_int (i + j + 1) 0) a (get_or s2 j 0) c / 10))
        c'
        pro_int'
    → Added n pro_int i (to_come n a s2 i (suc j) c) c' pro_int'
Added-step n a s2 i j c pro_int c' pro_int' inside many added =
    let p = get_or pro_int (i + j + 1) 0 in
    let b = get_or s2 j 0 in
    let next = set pro_int (i + j + 1) (product_at p a b c % 10) in
    let index : i + suc j ≡ i + j + 1 = omega arith in
    let shift : place n (i + j) ≡ 10 * place n (i + j + 1) =
      place-suc n (i + j) (omega arith) ∙ ap (λ k. 10 * place n k) (omega arith) in
    record {
      many = added.many;
      digits = added.digits;
      carried = added.carried;
      kept = λ k below.
          added.kept k below
          ∙ get_or-below pro_int (i + j + 1) k (product_at p a b c % 10) (omega arith)
              (omega arith);
      gained = rw index (
          carry_lem (place n (i + j + 1)) (worth pro_int) (worth next) p a b c
            (product_at p a b c / 10) (product_at p a b c % 10) (front j s2) _ (omega arith)
            (subst
              (λ m.
                worth next + p * place m (i + j + 1)
                ≡ worth pro_int + product_at p a b c % 10 * place m (i + j + 1))
              many (worth-set pro_int (i + j + 1) (product_at p a b c % 10) (omega arith)))
            (subst
              (λ w.
                worth pro_int' + c' * place n i
                ≡ worth next + (product_at p a b c / 10 * w + a * front j s2 * w))
              shift added.gained));
    }

pub digit_loop-Added :
    (n a : ℕ) (s2 : List ℕ) (i j c : ℕ) (pro_int : List ℕ)
    → a < 10
    → IsDigits s2
    → j ≤ length s2
    → i + j < n
    → c < 10
    → length pro_int ≡ n
    → IsDigits pro_int
    → (c' : ℕ) × (pro_int' : List ℕ) × (digit_loop a s2 i j c pro_int ≡ ok (c', pro_int'))
      × Added n pro_int i (to_come n a s2 i j c) c' pro_int'
unfolding digit_loop
digit_loop-Added n a s2 i zero c pro_int small_a digits2 inside2 inside small_c many digits = (
  c,
  pro_int,
  refl,
  record {
    many = many;
    digits = digits;
    carried = small_c;
    kept = λ k below. refl;
    gained = rw (add-zero i) (omega arith);
  },
)
digit_loop-Added n a s2 i (suc j) c pro_int small_a digits2 inside2 inside small_c many digits =
    let p = get_or pro_int (i + j + 1) 0 in
    let b = get_or s2 j 0 in
    let next = set pro_int (i + j + 1) (product_at p a b c % 10) in
    let same = length-set pro_int (i + j + 1) (product_at p a b c % 10) in
    let small : product_at p a b c < 100 =
      product_small p a b c (digits (i + j + 1)) small_a (digits2 j) small_c in
    let (c', pro_int', run, added) =
      digit_loop-Added n a s2 i j (product_at p a b c / 10) next small_a digits2 (omega arith)
        (omega arith) (omega (arith, small)) (same ∙ many)
        (set-IsDigits pro_int (i + j + 1) (product_at p a b c % 10) digits (omega arith)
          (omega arith)) in
    (
      c',
      pro_int',
      rw
          (
            at-get_or pro_int (i + j + 1) 0 (omega arith),
            at-get_or s2 j 0 (omega arith),
            put-set pro_int (i + j + 1) (product_at p a b c % 10) (omega arith),
            ◌>>=◌,
          )
          run,
      Added-step n a s2 i j c pro_int c' pro_int' inside many added,
    )

row_lem :
    (w ws wr wp g pl c a f f2 total : ℕ)
    → g ≡ 0
    → ws + g * pl ≡ wr + c * pl
    → wr + c * pl ≡ wp + (0 * w + a * f2 * w)
    → total ≡ ws + f * f2 * (10 * w)
    → total ≡ wp + (f * 10 + a) * f2 * w
row_lem w ws wr wp g pl c a f f2 total free written gained rest =
    omega (arith, ap (λ x. x * pl) free)

-- The digits of `s1` from `i - 1` down, where the place of the next row is worth `w`.
pub row_loop-worth :
    (n w : ℕ) (s1 s2 : List ℕ) (i : ℕ) (pro_int : List ℕ)
    → IsDigits s1
    → IsDigits s2
    → i ≤ length s1
    → i + length s2 ≤ n
    → ((k : ℕ) → i ≡ suc k → w ≡ place n (k + length s2))
    → length pro_int ≡ n
    → IsDigits pro_int
    → ((k : ℕ) → k < i → get_or pro_int k 0 ≡ 0)
    → (pro_int' : List ℕ) × (row_loop s1 s2 i pro_int ≡ ok pro_int')
      × (length pro_int' ≡ n)
      × IsDigits pro_int'
      × (worth pro_int' ≡ worth pro_int + front i s1 * front (length s2) s2 * w)
unfolding row_loop
row_loop-worth n w s1 s2 zero pro_int digits1 digits2 inside room at_w many digits clear =
    (pro_int, refl, many, digits, omega arith)
row_loop-worth n w s1 s2 (suc i) pro_int digits1 digits2 inside room at_w many digits clear =
    let a = get_or s1 i 0 in
    let (c', row, run, added) =
      digit_loop-Added n a s2 i (length s2) 0 pro_int (digits1 i) digits2 (omega arith)
        (omega arith) (omega arith) many digits in
    let (pro_int', run', many', digits', worth') =
      row_loop-worth n (10 * w) s1 s2 i (set row i c') digits1 digits2 (omega arith) (omega arith)
        (λ k next. sym (
          place-suc n (k + length s2) (omega arith)
          ∙ ap (λ x. 10 * x) (ap (place n) (omega arith) ∙ sym (at_w i refl))))
        (length-set row i c' ∙ added.many)
        (set-IsDigits row i c' added.digits added.carried (omega (arith, added.many)))
        (λ k below.
          get_or-below row i k c' below (omega (arith, added.many))
          ∙ (added.kept k (omega arith) ∙ clear k (omega arith))) in
    (
      pro_int',
      rw
          (
            at-get_or s1 i 0 (omega arith),
            run,
            ◌>>=◌,
            put-set row i c' (omega (arith, added.many)),
            ◌>>=◌,
          )
          run',
      many',
      digits',
      row_lem w (worth (set row i c')) (worth row) (worth pro_int) (get_or row i 0) (place n i) c' a
          (front i s1) (front (length s2) s2) (worth pro_int')
          (added.kept i (omega arith) ∙ clear i (omega arith))
          (subst
            (λ m. worth (set row i c') + get_or row i 0 * place m i ≡ worth row + c' * place m i)
            added.many (worth-set row i c' (omega (arith, added.many))))
          (subst
            (λ x.
              worth row + c' * place n i ≡ worth pro_int + (0 * x + a * front (length s2) s2 * x))
            (sym (at_w i refl)) added.gained)
          worth',
    )
