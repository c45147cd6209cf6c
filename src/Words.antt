-- ===== src/Words.antt =====
-- Unsigned machine words: `size_t` has 64 bits. A word is a number below its modulus, and the
-- operations wrap as the language says.
use cpp_project.Prelude.{ℕ, ◌+◌, ◌-◌, ◌*◌, ◌/◌, ◌%◌, ◌^◌}

abbrev pub size_mod : ℕ
size_mod = 2 ^ 64

abbrev pub u32_mod : ℕ
u32_mod = 2 ^ 32

unfoldable pub add64 : ℕ → ℕ → ℕ
add64 a b = (a + b) % size_mod

unfoldable pub sub64 : ℕ → ℕ → ℕ
sub64 a b = (a + size_mod - b) % size_mod

unfoldable pub mul64 : ℕ → ℕ → ℕ
mul64 a b = a * b % size_mod

unfoldable pub shl64 : ℕ → ℕ → ℕ
shl64 a k = a * 2 ^ k % size_mod

unfoldable pub shr : ℕ → ℕ → ℕ
shr a k = a / 2 ^ k

unfoldable pub mul32 : ℕ → ℕ → ℕ
mul32 a b = a * b % u32_mod

unfoldable pub shl32 : ℕ → ℕ → ℕ
shl32 a k = a * 2 ^ k % u32_mod
