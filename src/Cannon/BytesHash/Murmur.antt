-- ===== src/Cannon/BytesHash/Murmur.antt =====
-- cannon/src/cannon/bytes_hash_functions.h: murmur2, the hash of a key for a 32-bit `size_t`.
use cpp_project.Prelude.{
  ℕ, zero, suc, ◌+◌, ◌-◌, ◌*◌, ◌^◌, ◌≤◌, ◌<◌, ◌≡◌, refl, bit_xor, leb, ◌==◌, List, length, true,
  false, if◌then◌else◌, Bool-cases, inl, inr, arith,
}
use cpp_project.Run.{Run, ok, fault, diverges, IsOk, ◌>>=◌, >>=-IsOk}
use cpp_project.Words.{mul32, shr}
use cpp_project.Cannon.BytesHash.{load}
use cpp_project.Cannon.BytesHash.InBounds.{load-IsOk, then_load}

abbrev mix : ℕ
mix = 0x5bd1e995

-- The state of the loop: `__data`, `__len` and `__h`.
pub record LoopState : Type 0 where
  pub data_at : ℕ
  pub len : ℕ
  pub h : ℕ

mix_word : ℕ → ℕ → ℕ
unfolding mul32 shr
mix_word h word =
    let k = mul32 word mix in
    let k' = bit_xor k (shr k 24) in let k'' = mul32 k' mix in bit_xor (mul32 h mix) k''

-- Each round takes four bytes.
words : ℕ → List ℕ → LoopState → Run LoopState
unfolding load mix_word
words zero s st = fault diverges
words (suc fuel) s st = elim (leb 4 st.len) [
  | true ↦ do
    word ← load 4 s st.data_at
    words fuel s (record { data_at = st.data_at + 4; len = st.len - 4; h = mix_word st.h word })
  | false ↦ ok st
]

-- The `switch`, whose cases fall through.
tail_1 : List ℕ → ℕ → ℕ → Run ℕ
unfolding load mul32
tail_1 s data_at h = do byte ← load 1 s data_at; ok (mul32 (bit_xor h byte) mix)

tail_2 : List ℕ → ℕ → ℕ → Run ℕ
unfolding load tail_1
tail_2 s data_at h = do byte ← load 1 s (data_at + 1); tail_1 s data_at (bit_xor h (byte * 2 ^ 8))

tail_3 : List ℕ → ℕ → ℕ → Run ℕ
unfolding load tail_2
tail_3 s data_at h = do byte ← load 1 s (data_at + 2); tail_2 s data_at (bit_xor h (byte * 2 ^ 16))

tail : List ℕ → LoopState → Run ℕ
unfolding tail_1 tail_2 tail_3
tail s st =
    if st.len == 3
    then tail_3 s st.data_at st.h
    else (if st.len == 2
        then tail_2 s st.data_at st.h
        else (if st.len == 1 then tail_1 s st.data_at st.h else ok st.h))

final_mix : ℕ → ℕ
unfolding mul32 shr
final_mix h = let h' = mul32 (bit_xor h (shr h 13)) mix in bit_xor h' (shr h' 15)

-- The hash of the first `len` bytes at the key. Each round of the loop takes a byte at least.
unfoldable pub murmur2_at : List ℕ → ℕ → Run ℕ
unfolding load words tail final_mix
murmur2_at s len = elim (len == 32) [
  | true ↦ load 4 s 0
  | false ↦ do
    st ← words (len + 1) s (record { data_at = 0; len = len; h = len })
    h ← tail s st
    ok (final_mix h)
]

words-IsOk :
    (fuel : ℕ) (s : List ℕ) (st : LoopState)
    → st.len < fuel
    → st.data_at + st.len ≤ length s
    → (st' : LoopState) × (words fuel s st ≡ ok st') × (st'.data_at + st'.len ≤ length s)
unfolding words
words-IsOk zero s st enough inside = absurd (omega arith)
words-IsOk (suc fuel) s st enough inside = elim (Bool-cases (leb 4 st.len)) [
  | inl more ↦
      let (word, read) = load-IsOk 4 s st.data_at (ground arith) in
      let (st', run, within) =
        words-IsOk fuel s
          (record { data_at = st.data_at + 4; len = st.len - 4; h = mix_word st.h word })
          (ground arith) (ground arith) in
      (st', rw (words, more, read, ◌>>=◌) run, within)
  | inr done ↦ (st, rw (words, done) refl, inside)
]

tail_1-IsOk : (s : List ℕ) (data_at h : ℕ) → data_at + 1 ≤ length s → IsOk (tail_1 s data_at h)
unfolding tail_1
tail_1-IsOk s data_at h inside = then_load 1 s data_at inside λ a. (_, refl)

tail_2-IsOk : (s : List ℕ) (data_at h : ℕ) → data_at + 2 ≤ length s → IsOk (tail_2 s data_at h)
unfolding tail_2
tail_2-IsOk s data_at h inside =
    then_load 1 s (data_at + 1) (omega arith) λ a. tail_1-IsOk s data_at _ (omega arith)

tail_3-IsOk : (s : List ℕ) (data_at h : ℕ) → data_at + 3 ≤ length s → IsOk (tail_3 s data_at h)
unfolding tail_3
tail_3-IsOk s data_at h inside =
    then_load 1 s (data_at + 2) (omega arith) λ a. tail_2-IsOk s data_at _ (omega arith)

tail-IsOk : (s : List ℕ) (st : LoopState) → st.data_at + st.len ≤ length s → IsOk (tail s st)
unfolding tail
tail-IsOk s st inside = elim (Bool-cases (st.len == 3)) [
  | inl e ↦ rw e (tail_3-IsOk s st.data_at st.h (ground arith))
  | inr e ↦ rw e (elim (Bool-cases (st.len == 2)) [
    | inl e' ↦ rw e' (tail_2-IsOk s st.data_at st.h (ground arith))
    | inr e' ↦ rw e' (elim (Bool-cases (st.len == 1)) [
      | inl e'' ↦ rw e'' (tail_1-IsOk s st.data_at st.h (ground arith))
      | inr e'' ↦ rw e'' (_, refl)
    ])
  ])
]

-- The 32-bit hash of a key of any length ends with a value: it makes no load outside of the key,
-- and its loop ends.
pub murmur2-IsOk : (s : List ℕ) → IsOk (murmur2_at s (length s))
unfolding murmur2_at
murmur2-IsOk s = elim (Bool-cases (length s == 32)) [
  | inl e ↦ rw (e, murmur2_at) (load-IsOk 4 s 0 (ground arith))
  | inr e ↦
      let (st, run, within) =
        words-IsOk (length s + 1) s (record { data_at = 0; len = length s; h = length s })
          (omega arith) (omega arith) in
      rw (e, murmur2_at, run, ◌>>=◌) (>>=-IsOk (tail-IsOk s st within) λ h. (_, refl))
]
