-- ===== src/Cannon/BytesHash.antt =====
-- cannon/src/cannon/bytes_hash_functions.h: cityhash, the hash of a key for a 64-bit `size_t`. A
-- pointer into the key is its offset, and every load is checked against the length of the key.
pub mod InBounds
pub mod Murmur
use cpp_project.Prelude.{
  ℕ, zero, suc, ◌+◌, ◌-◌, ◌*◌, ◌/◌, ◌%◌, ◌^◌, bit_or, bit_xor, ltb, leb, ◌==◌, if◌then◌else◌, List,
  [], ◌∷◌, length, take, drop, true, false,
}
use cpp_project.Run.{Run, ok, fault, out_of_bounds, ◌>>=◌}
use cpp_project.Words.{add64, sub64, mul64, shl64, shr, mul32, shl32, u32_mod, size_mod}

-- The number that some bytes stand for, the lowest first: the targets are little-endian.
little_endian : List ℕ → ℕ
little_endian [] = 0
little_endian (b ∷ bs) = b + 256 * little_endian bs

-- `__loadword`: `n` bytes at an offset.
pub load : ℕ → List ℕ → ℕ → Run ℕ
unfolding little_endian
load n s off =
    if leb (off + n) (length s)
    then ok (little_endian (take n (drop off s)))
    else fault out_of_bounds

abbrev k0 : ℕ
k0 = 0xc3a5c85c97cb3127

abbrev k1 : ℕ
k1 = 0xb492b66fbe98f273

abbrev k2 : ℕ
k2 = 0x9ae16a3b2f90404f

abbrev k3 : ℕ
k3 = 0xc949d7c7509e6557

rotate_by_at_least_1 : ℕ → ℕ → ℕ
unfolding shl64 shr
rotate_by_at_least_1 val shift = bit_or (shr val shift) (shl64 val (64 - shift))

rotate : ℕ → ℕ → ℕ
unfolding rotate_by_at_least_1
rotate val shift = if shift == 0 then val else rotate_by_at_least_1 val shift

shift_mix : ℕ → ℕ
unfolding shr
shift_mix val = bit_xor val (shr val 47)

hash_len_16 : ℕ → ℕ → ℕ
unfolding mul64 shr
hash_len_16 u v =
    let mul : ℕ = 0x9ddfea08eb382d69 in
    let a = mul64 (bit_xor u v) mul in
    let a' = bit_xor a (shr a 47) in
    let b = mul64 (bit_xor v a') mul in let b' = bit_xor b (shr b 47) in mul64 b' mul

hash_len_0_to_16 : List ℕ → ℕ → Run ℕ
unfolding load hash_len_16 rotate_by_at_least_1 shift_mix add64 mul64 shl32
hash_len_0_to_16 s len = elim (ltb 8 len) [
  | true ↦ do
    a ← load 8 s 0
    b ← load 8 s (len - 8)
    ok (bit_xor (hash_len_16 a (rotate_by_at_least_1 (add64 b len) len)) b)
  | false ↦ elim (leb 4 len) [
    | true ↦ do a ← load 4 s 0; b ← load 4 s (len - 4); ok (hash_len_16 (add64 len (shl32 a 3)) b)
    | false ↦ elim (ltb 0 len) [
      | true ↦ do
        a ← load 1 s 0
        b ← load 1 s (len / 2)
        c ← load 1 s (len - 1)
        let y = (a + shl32 b 8) % u32_mod
        let z = (len + shl32 c 2) % u32_mod
        ok (mul64 (shift_mix (bit_xor (mul64 y k2) (mul64 z k3))) k2)
      | false ↦ ok k2
    ]
  ]
]

hash_len_17_to_32 : List ℕ → ℕ → Run ℕ
unfolding load hash_len_16 rotate add64 sub64 mul64
hash_len_17_to_32 s len = do
  a₀ ← load 8 s 0
  b ← load 8 s 8
  c₀ ← load 8 s (len - 8)
  d₀ ← load 8 s (len - 16)
  let a = mul64 a₀ k1
  let c = mul64 c₀ k2
  let d = mul64 d₀ k0
  ok (
      hash_len_16 (add64 (add64 (rotate (sub64 a b) 43) (rotate c 30)) d)
        (add64 (sub64 (add64 a (rotate (bit_xor b k3) 20)) c) len))

-- The overload on six words.
weak_hash_len_32_with_seeds : (w x y z a b : ℕ) → ℕ × ℕ
unfolding add64 rotate
weak_hash_len_32_with_seeds w x y z a b =
    let a₁ = add64 a w in
    let b₁ = rotate (add64 (add64 b a₁) z) 21 in
    let a₂ = add64 (add64 a₁ x) y in let b₂ = add64 b₁ (rotate a₂ 44) in (add64 a₂ z, add64 b₂ a₁)

-- The overload on 32 bytes at an offset.
weak_hash_len_32_at : List ℕ → ℕ → (a b : ℕ) → Run (ℕ × ℕ)
unfolding load weak_hash_len_32_with_seeds
weak_hash_len_32_at s off a b = do
  w ← load 8 s off
  x ← load 8 s (off + 8)
  y ← load 8 s (off + 16)
  z ← load 8 s (off + 24)
  ok (weak_hash_len_32_with_seeds w x y z a b)

hash_len_33_to_64 : List ℕ → ℕ → Run ℕ
unfolding load rotate shift_mix add64 mul64
hash_len_33_to_64 s len = do
  z ← load 8 s 24
  w₀ ← load 8 s 0
  w_16 ← load 8 s (len - 16)
  w₈ ← load 8 s 8
  w₁₆ ← load 8 s 16
  w_32 ← load 8 s (len - 32)
  w_8 ← load 8 s (len - 8)
  w_24 ← load 8 s (len - 24)
  let a = add64 w₀ (mul64 (add64 len w_16) k0)
  let b = rotate (add64 a z) 52
  let c = rotate a 37
  let a₁ = add64 a w₈
  let c₁ = add64 c (rotate a₁ 7)
  let a₂ = add64 a₁ w₁₆
  let vf = add64 a₂ z
  let vs = add64 (add64 b (rotate a₂ 31)) c₁
  let a₃ = add64 w₁₆ w_32
  let z₁ = add64 z w_8
  let b₁ = rotate (add64 a₃ z₁) 52
  let c₂ = rotate a₃ 37
  let a₄ = add64 a₃ w_24
  let c₃ = add64 c₂ (rotate a₄ 7)
  let a₅ = add64 a₄ w_16
  let wf = add64 a₅ z₁
  let ws = add64 (add64 b₁ (rotate a₅ 31)) c₃
  let r = shift_mix (add64 (mul64 (add64 vf ws) k2) (mul64 (add64 wf vs) k0))
  ok (mul64 (shift_mix (add64 (mul64 r k0) vs)) k2)

-- The 56 bytes of state of the long loop.
record State : Type 0 where
  x : ℕ
  y : ℕ
  z : ℕ
  v : ℕ × ℕ
  w : ℕ × ℕ

-- One round of the `do` loop, at the offset `__s`.
chunk : List ℕ → ℕ → State → Run State
unfolding load rotate add64 mul64 weak_hash_len_32_at
chunk s off st = do
  w₈ ← load 8 s (off + 8)
  let x = mul64 (rotate (add64 (add64 (add64 st.x st.y) st.v.0) w₈) 37) k1
  w₄₈ ← load 8 s (off + 48)
  let y = mul64 (rotate (add64 (add64 st.y st.v.1) w₄₈) 42) k1
  let x' = bit_xor x st.w.1
  w₄₀ ← load 8 s (off + 40)
  let y' = add64 y (add64 st.v.0 w₄₀)
  let z = mul64 (rotate (add64 st.z st.w.0) 33) k1
  v ← weak_hash_len_32_at s off (mul64 st.v.1 k1) (add64 x' st.w.0)
  w₁₆ ← load 8 s (off + 16)
  w ← weak_hash_len_32_at s (off + 32) (add64 z st.w.1) (add64 y' w₁₆)
  ok (record { x = z; y = y'; z = x'; v = v; w = w })

-- The `do` loop: its length falls by 64 a round to 0, so it makes `__len / 64` rounds.
chunks : ℕ → List ℕ → ℕ → State → Run State
unfolding chunk
chunks zero s off st = ok st
chunks (suc rounds) s off st = chunk s off st >>= chunks rounds s (off + 64)

hash_len_over_64 : List ℕ → ℕ → Run ℕ
unfolding load hash_len_16 shift_mix add64 mul64 weak_hash_len_32_at chunks
hash_len_over_64 s len = do
  w_40 ← load 8 s (len - 40)
  w_16 ← load 8 s (len - 16)
  w_56 ← load 8 s (len - 56)
  w_48 ← load 8 s (len - 48)
  w_24 ← load 8 s (len - 24)
  let y = add64 w_16 w_56
  let z = hash_len_16 (add64 w_48 len) w_24
  v ← weak_hash_len_32_at s (len - 64) len z
  w ← weak_hash_len_32_at s (len - 32) (add64 y k1) w_40
  w₀ ← load 8 s 0
  let x = add64 (mul64 w_40 k1) w₀
  -- `(__len - 1) & ~63` clears the low six bits
  let len' = (len - 1) / 64 * 64
  st ← chunks (len' / 64) s 0 (record { x = x; y = y; z = z; v = v; w = w })
  ok (
      hash_len_16 (add64 (add64 (hash_len_16 st.v.0 st.w.0) (mul64 (shift_mix st.y) k1)) st.z)
        (add64 (hash_len_16 st.v.1 st.w.1) st.x))

-- `static_cast<size_t>` of an `int32_t` extends its sign.
sign_extend32 : ℕ → ℕ
sign_extend32 v = if ltb v (2 ^ 31) then v else v + (size_mod - u32_mod)

-- `__murmur2_or_cityhash<size_t, 64>::operator()`
unfoldable pub city_hash : List ℕ → Run ℕ
unfolding load sign_extend32 hash_len_0_to_16 hash_len_17_to_32 hash_len_33_to_64 hash_len_over_64
city_hash s =
    let len = length s in
    elim (len == 32) [
      | true ↦ load 4 s 0 >>= λ v. ok (sign_extend32 v)
      | false ↦ elim (len == 64) [
        | true ↦ load 8 s 0
        | false ↦ elim (leb len 32) [
          | true ↦ if leb len 16 then hash_len_0_to_16 s len else hash_len_17_to_32 s len
          | false ↦ if leb len 64 then hash_len_33_to_64 s len else hash_len_over_64 s len
        ]
      ]
    ]
