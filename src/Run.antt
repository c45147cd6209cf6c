-- ===== src/Run.antt =====
-- What a piece of C++ does when it runs: it yields a value, or it meets a fault. A fault is an
-- operation that the language leaves undefined, a loop that never ends, or an exception that leaves
-- the function.
use cpp_project.Prelude.{
  ◌≡◌, refl, ℤ, pos, negsuc, some, List, [], ◌∷◌, ◌++◌, ℕ, zero, suc, ◌<◌, arith, length, set,
  get_or, get_elem?, ◌+◌, ◌^◌, ltb, lt→ltb, if◌then◌else◌,
}

pub data Fault : Type 0 where
  out_of_bounds division_by_zero uninitialised diverges exception overflow : Fault

pub data Run {ℓ} (A : Type ℓ) : Type ℓ where
  ok : A → Run A
  fault : Fault → Run A

infixl 5 ◌>>=◌
abbrev pub ◌>>=◌ {ℓ κ} : {A : Type ℓ} {B : Type κ} → Run A → (A → Run B) → Run B
ok a >>= f = f a
fault e >>= f = fault e

-- The run ends with a value.
abbrev pub IsOk {ℓ} : {A : Type ℓ} → Run A → Type ℓ
IsOk {A} r = (a : A) × (r ≡ ok a)

pub >>=-IsOk {ℓ κ} :
    {A : Type ℓ} {B : Type κ} {f : A → Run B} {r : Run A}
    → IsOk r
    → ((a : A) → IsOk (f a))
    → IsOk (r >>= f)
>>=-IsOk (a, e) h = rw e (h a)

-- `v[i]` and `v[i] = x` on a vector.
module _ {ℓ} {A : Type ℓ} where
  unfoldable pub at : List A → ℕ → Run A
  at [] i = fault out_of_bounds
  at (x ∷ xs) zero = ok x
  at (x ∷ xs) (suc i) = at xs i

  unfoldable pub put : List A → ℕ → A → Run (List A)
  put [] i v = fault out_of_bounds
  put (x ∷ xs) zero v = ok (v ∷ xs)
  put (x ∷ xs) (suc i) v = put xs i v >>= λ rest. ok (x ∷ rest)

  -- At an `int`.
  unfoldable pub at_int : List A → ℤ → Run A
  unfolding at
  at_int xs (pos i) = at xs i
  at_int xs (negsuc i) = fault out_of_bounds

  unfoldable pub put_int : List A → ℤ → A → Run (List A)
  unfolding put
  put_int xs (pos i) v = put xs i v
  put_int xs (negsuc i) v = fault out_of_bounds

  pub at-get_elem? : (xs : List A) (i : ℕ) (x : A) → get_elem? xs i ≡ some x → at xs i ≡ ok x
  unfolding at
  at-get_elem? [] i x h = cc
  at-get_elem? (y ∷ xs) zero x h = cc
  at-get_elem? (y ∷ xs) (suc i) x h = at-get_elem? xs i x h

  pub at-get_or : (xs : List A) (i : ℕ) (d : A) → i < length xs → at xs i ≡ ok (get_or xs i d)
  unfolding at
  at-get_or [] i d h = absurd (omega arith)
  at-get_or (x ∷ xs) zero d h = refl
  at-get_or (x ∷ xs) (suc i) d h = at-get_or xs i d (omega arith)

  pub put-set : (xs : List A) (i : ℕ) (v : A) → i < length xs → put xs i v ≡ ok (set xs i v)
  unfolding put
  put-set [] i v h = absurd (omega arith)
  put-set (x ∷ xs) zero v h = refl
  put-set (x ∷ xs) (suc i) v h = rw (put-set xs i v (omega arith))

-- Behind a prefix.
pub at-append {ℓ} : {A : Type ℓ} (xs ys : List A) (x : A) → at (xs ++ x ∷ ys) (length xs) ≡ ok x
unfolding at
at-append [] ys x = refl
at-append (z ∷ xs) ys x = at-append xs ys x

pub put-append {ℓ} :
    {A : Type ℓ} (xs ys : List A) (x y : A) → put (xs ++ x ∷ ys) (length xs) y ≡ ok (xs ++ y ∷ ys)
unfolding put
put-append [] ys x y = refl
put-append (z ∷ xs) ys x y = rw (put-append xs ys x y)

-- The sum of two `int`s that are not negative.
unfoldable pub add_int : ℕ → ℕ → Run ℕ
add_int a b = if ltb (a + b) (2 ^ 31) then ok (a + b) else fault overflow

pub add_int-ok : (a b : ℕ) → a + b < 2 ^ 31 → add_int a b ≡ ok (a + b)
unfolding add_int
add_int-ok a b small = rw (lt→ltb _ _ small)
