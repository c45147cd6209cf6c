-- ===== src/Cannon/BytesHash/InBounds.antt =====
-- The hash function reads its key only within the key's length, whatever that length is.
use cpp_project.Prelude.{
  ℕ, zero, suc, ◌+◌, ◌-◌, ◌*◌, ◌/◌, ◌≤◌, ◌<◌, refl, List, length, arith, leb, ltb, ◌==◌, le→leb,
  Bool-cases, inl, inr,
}
use cpp_project.Run.{Run, IsOk, ◌>>=◌, >>=-IsOk}
use cpp_project.Cannon.BytesHash.{
  load, hash_len_0_to_16, hash_len_17_to_32, weak_hash_len_32_at, hash_len_33_to_64, State, chunk,
  chunks, hash_len_over_64, city_hash,
}

pub load-IsOk : (n : ℕ) (s : List ℕ) (off : ℕ) → off + n ≤ length s → IsOk (load n s off)
unfolding load
load-IsOk n s off h = rw (le→leb _ _ h) (_, refl)

-- A load within the key, and what follows it.
pub then_load {ℓ} :
    {B : Type ℓ} (n : ℕ) (s : List ℕ) (off : ℕ) {f : ℕ → Run B}
    → off + n ≤ length s
    → ((a : ℕ) → IsOk (f a))
    → IsOk (load n s off >>= f)
then_load n s off h k = >>=-IsOk (load-IsOk n s off h) k

weak_hash_len_32_at-IsOk :
    (s : List ℕ) (off a b : ℕ) → off + 32 ≤ length s → IsOk (weak_hash_len_32_at s off a b)
unfolding weak_hash_len_32_at
weak_hash_len_32_at-IsOk s off a b h = then_load 8 s off (omega arith) λ w.
    then_load 8 s (off + 8) (omega arith) λ x.
      then_load 8 s (off + 16) (omega arith)
        λ y. then_load 8 s (off + 24) (omega arith) λ z. (_, refl)

hash_len_0_to_16-IsOk : (s : List ℕ) → IsOk (hash_len_0_to_16 s (length s))
unfolding hash_len_0_to_16
hash_len_0_to_16-IsOk s = elim (Bool-cases (ltb 8 (length s))) [
  | inl long ↦
      rw (long, hash_len_0_to_16)
        (then_load 8 s 0 (ground arith)
          λ a. then_load 8 s (length s - 8) (ground arith) λ b. (_, refl))
  | inr short ↦
      rw (short, hash_len_0_to_16)
        (elim (Bool-cases (leb 4 (length s))) [
          | inl four ↦ rw four (
              then_load 4 s 0 (ground arith)
                λ a. then_load 4 s (length s - 4) (ground arith) λ b. (_, refl))
          | inr few ↦ rw few (elim (Bool-cases (ltb 0 (length s))) [
            | inl some_bytes ↦ rw some_bytes (
                then_load 1 s 0 (ground arith) λ a.
                  then_load 1 s (length s / 2) (ground arith)
                    λ b. then_load 1 s (length s - 1) (ground arith) λ c. (_, refl))
            | inr empty ↦ rw empty (_, refl)
          ])
        ])
]

hash_len_17_to_32-IsOk : (s : List ℕ) → 16 < length s → IsOk (hash_len_17_to_32 s (length s))
unfolding hash_len_17_to_32
hash_len_17_to_32-IsOk s h = then_load 8 s 0 (omega arith) λ a. then_load 8 s 8 (omega arith) λ b.
    then_load 8 s (length s - 8) (omega arith)
      λ c. then_load 8 s (length s - 16) (omega arith) λ d. (_, refl)

hash_len_33_to_64-IsOk : (s : List ℕ) → 32 < length s → IsOk (hash_len_33_to_64 s (length s))
unfolding hash_len_33_to_64
hash_len_33_to_64-IsOk s h = then_load 8 s 24 (omega arith) λ a. then_load 8 s 0 (omega arith) λ b.
    then_load 8 s (length s - 16) (omega arith) λ c. then_load 8 s 8 (omega arith) λ d.
      then_load 8 s 16 (omega arith) λ e. then_load 8 s (length s - 32) (omega arith) λ f.
        then_load 8 s (length s - 8) (omega arith)
          λ g. then_load 8 s (length s - 24) (omega arith) λ k. (_, refl)

chunk-IsOk : (s : List ℕ) (off : ℕ) (st : State) → off + 64 ≤ length s → IsOk (chunk s off st)
unfolding chunk
chunk-IsOk s off st h = then_load 8 s (off + 8) (omega arith) λ a.
    then_load 8 s (off + 48) (omega arith) λ b. then_load 8 s (off + 40) (omega arith) λ c.
      >>=-IsOk (weak_hash_len_32_at-IsOk s off _ _ (omega arith)) λ v.
        then_load 8 s (off + 16) (omega arith)
          λ d. >>=-IsOk (weak_hash_len_32_at-IsOk s (off + 32) _ _ (omega arith)) λ w. (_, refl)

chunks-IsOk :
    (rounds : ℕ) (s : List ℕ) (off : ℕ) (st : State)
    → off + rounds * 64 ≤ length s
    → IsOk (chunks rounds s off st)
unfolding chunks
chunks-IsOk zero s off st h = (st, refl)
chunks-IsOk (suc rounds) s off st h =
    >>=-IsOk (chunk-IsOk s off st (omega arith))
      λ st'. chunks-IsOk rounds s (off + 64) st' (omega arith)

hash_len_over_64-IsOk : (s : List ℕ) → 64 < length s → IsOk (hash_len_over_64 s (length s))
unfolding hash_len_over_64
hash_len_over_64-IsOk s h = then_load 8 s (length s - 40) (omega arith) λ a.
    then_load 8 s (length s - 16) (omega arith) λ b.
      then_load 8 s (length s - 56) (omega arith) λ c.
        then_load 8 s (length s - 48) (omega arith) λ d.
          then_load 8 s (length s - 24) (omega arith) λ e.
            >>=-IsOk (weak_hash_len_32_at-IsOk s (length s - 64) _ _ (omega arith)) λ v.
              >>=-IsOk (weak_hash_len_32_at-IsOk s (length s - 32) _ _ (omega arith)) λ w.
                then_load 8 s 0 (omega arith) λ f.
                  >>=-IsOk (chunks-IsOk ((length s - 1) / 64 * 64 / 64) s 0 _ (omega arith))
                    λ st. (_, refl)

-- The 64-bit hash of a key of any length ends with a value: it makes no load outside of the key.
pub city_hash-IsOk : (s : List ℕ) → IsOk (city_hash s)
unfolding city_hash
city_hash-IsOk s = elim (Bool-cases (length s == 32)) [
  | inl e ↦ rw (e, city_hash) (then_load 4 s 0 (ground arith) λ v. (_, refl))
  | inr ne ↦
      rw (ne, city_hash)
        (elim (Bool-cases (length s == 64)) [
          | inl e ↦ rw e (load-IsOk 8 s 0 (ground arith))
          | inr ne' ↦ rw ne' (elim (Bool-cases (leb (length s) 32)) [
            | inl le ↦ rw le (elim (Bool-cases (leb (length s) 16)) [
              | inl e ↦ rw e (hash_len_0_to_16-IsOk s)
              | inr e ↦ rw e (hash_len_17_to_32-IsOk s (ground arith))
            ])
            | inr gt ↦ rw gt (elim (Bool-cases (leb (length s) 64)) [
              | inl e ↦ rw e (hash_len_33_to_64-IsOk s (ground arith))
              | inr e ↦ rw e (hash_len_over_64-IsOk s (ground arith))
            ])
          ])
        ])
]
