-- ===== src/Prelude/Integers.antt =====
-- Signed numbers: an `int`, and a `char`, which is signed. No operation here leaves the range of
-- the type that it stands for.
use Prim.Native.Nat.{ℕ, zero, suc}
use mathlib.Core.Path.{◌≡◌, refl, sym, ap}
use mathlib.Core.Logic.{◌↔◌, ◌≢◌}
use mathlib.Core.Bool.{Bool, true, false, false≢true}
use native.Mathlib.Omega.{arith}
use cpp_project.Prelude.Tests.{◌==◌, ltb}

pub data ℤ : Type 0 where
  pos negsuc : ℕ → ℤ

abbrev pub minus_one : ℤ
minus_one = negsuc 0

infix 50 ◌==ℤ◌
abbrev pub ◌==ℤ◌ : ℤ → ℤ → Bool
pos a ==ℤ pos b = a == b
pos a ==ℤ negsuc b = false
negsuc a ==ℤ pos b = false
negsuc a ==ℤ negsuc b = a == b

-- `++i`
abbrev pub increment : ℤ → ℤ
increment (pos n) = pos (suc n)
increment (negsuc zero) = pos 0
increment (negsuc (suc n)) = negsuc n

pos≢negsuc : (a b : ℕ) → pos a ≢ negsuc b
pos≢negsuc a b e = cc

pub ==ℤ_iff : (a b : ℤ) → ((a ==ℤ b) ≡ true) ↔ (a ≡ b)
==ℤ_iff (pos a) (pos b) = ground arith
==ℤ_iff (pos a) (negsuc b) = (λ e. absurd (false≢true e), λ e. absurd (pos≢negsuc a b e))
==ℤ_iff (negsuc a) (pos b) = (λ e. absurd (false≢true e), λ e. absurd (pos≢negsuc b a (sym e)))
==ℤ_iff (negsuc a) (negsuc b) = ground arith

abbrev pub less_int : ℤ → ℤ → Bool
less_int (pos a) (pos b) = ltb a b
less_int (pos a) (negsuc b) = false
less_int (negsuc a) (pos b) = true
less_int (negsuc a) (negsuc b) = ltb b a

-- `--i`
abbrev pub decrement : ℤ → ℤ
decrement (pos zero) = minus_one
decrement (pos (suc n)) = pos n
decrement (negsuc n) = negsuc (suc n)

pub less_int_asym : (a b : ℤ) → less_int a b ≡ true → less_int b a ≡ false
less_int_asym (pos a) (pos b) h = ground arith
less_int_asym (pos a) (negsuc b) h = absurd (false≢true h)
less_int_asym (negsuc a) (pos b) h = refl
less_int_asym (negsuc a) (negsuc b) h = ground arith

pub less_int_trans : (a b c : ℤ) → less_int a b ≡ true → less_int b c ≡ true → less_int a c ≡ true
less_int_trans (pos a) (pos b) (pos c) h k = ground arith
less_int_trans (pos a) (pos b) (negsuc c) h k = absurd (false≢true k)
less_int_trans (pos a) (negsuc b) c h k = absurd (false≢true h)
less_int_trans (negsuc a) (pos b) (pos c) h k = refl
less_int_trans (negsuc a) (pos b) (negsuc c) h k = absurd (false≢true k)
less_int_trans (negsuc a) (negsuc b) (pos c) h k = refl
less_int_trans (negsuc a) (negsuc b) (negsuc c) h k = ground arith

pub less_int_total : (a b : ℤ) → less_int a b ≡ false → less_int b a ≡ false → a ≡ b
less_int_total (pos a) (pos b) h k = ap pos (ground arith)
less_int_total (pos a) (negsuc b) h k = absurd (false≢true (sym k))
less_int_total (negsuc a) (pos b) h k = absurd (false≢true (sym h))
less_int_total (negsuc a) (negsuc b) h k = ap negsuc (ground arith)
