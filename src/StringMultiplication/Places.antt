-- ===== src/StringMultiplication/Places.antt =====
-- The number that a list of decimal digits stands for, and what the places are worth.
use cpp_project.Prelude.{
  ℕ, zero, suc, ◌+◌, ◌*◌, ◌^◌, ◌<◌, ◌≡◌, refl, ap, ◌∙◌, List, [], ◌∷◌, length, length-set, get_or,
  get_or-set, set, replicate, arith,
}
use native.Mathlib.Nat.{pow-suc}

abbrev pub worth : List ℕ → ℕ
worth [] = 0
worth (d ∷ ds) = d * 10 ^ length ds + worth ds

-- What the digit at `k` of `n` digits is worth.
abbrev pub place : ℕ → ℕ → ℕ
place zero k = 0
place (suc n) zero = 10 ^ n
place (suc n) (suc k) = place n k

-- The number of the first `j` digits.
abbrev pub front : ℕ → List ℕ → ℕ
front zero s = 0
front (suc j) s = front j s * 10 + get_or s j 0

abbrev pub IsDigits : List ℕ → Type 0
IsDigits s = (k : ℕ) → get_or s k 0 < 10

pub place-suc : (n k : ℕ) → suc k < n → place n k ≡ 10 * place n (suc k)
place-suc zero k inside = absurd (omega arith)
place-suc (suc zero) k inside = absurd (omega arith)
place-suc (suc (suc n)) zero inside = omega (arith, pow-suc 10 n)
place-suc (suc (suc n)) (suc k) inside = place-suc (suc n) k (omega arith)

pub place-last : (n : ℕ) → place (suc n) n ≡ 1
place-last zero = refl
place-last (suc n) = place-last n

pub worth-set :
    (s : List ℕ) (k v : ℕ)
    → k < length s
    → worth (set s k v) + get_or s k 0 * place (length s) k ≡ worth s + v * place (length s) k
worth-set [] k v inside = absurd (omega arith)
worth-set (d ∷ ds) zero v inside = omega arith
worth-set (d ∷ ds) (suc k) v inside =
    omega (arith, worth-set ds k v (omega arith), ap (λ n. d * 10 ^ n) (length-set ds k v))

pub set-IsDigits :
    (s : List ℕ) (i v : ℕ) → IsDigits s → v < 10 → i < length s → IsDigits (set s i v)
set-IsDigits s i v digits small inside k = ground (arith, get_or-set s i k v 0 inside, digits k)

front-cons : (j d : ℕ) (ds : List ℕ) → front (suc j) (d ∷ ds) ≡ d * 10 ^ j + front j ds
front-cons zero d ds = omega arith
front-cons (suc j) d ds = omega (arith, front-cons j d ds, ap (λ n. d * n) (pow-suc 10 j))

pub front-length : (s : List ℕ) → front (length s) s ≡ worth s
front-length [] = refl
front-length (d ∷ ds) =
    front-cons (length ds) d ds ∙ ap (λ n. d * 10 ^ length ds + n) (front-length ds)

pub worth-lt : (s : List ℕ) → IsDigits s → worth s < 10 ^ length s
worth-lt [] digits = omega arith
worth-lt (d ∷ ds) digits =
    grind (arith, worth-lt ds (λ k. digits (suc k)), digits 0, pow-suc 10 (length ds))

pub worth-replicate : (n : ℕ) → worth (replicate n 0) ≡ 0
worth-replicate zero = refl
worth-replicate (suc n) = omega (arith, worth-replicate n)
