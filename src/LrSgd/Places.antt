-- ===== src/LrSgd/Places.antt =====
-- The places of the instances in the training loop, and those of a batch.
use cpp_project.Prelude.{
  ℕ, zero, suc, ◌+◌, ◌-◌, ◌≤◌, ◌<◌, ◌≡◌, inl, inr, refl, ap, ℤ, Bool, List, length, take, drop,
  length-take, take-append-drop, leb, Bool-cases, min, count, count-append, SameElements, arith,
}
use cpp_project.LrSgd.Updates.{Doubles, Settings, Random}
use cpp_project.LrSgd.Train.{places, batch_at, shuffled, batch_size_for}
use cpp_project.LrSgd.Batches.{AllBelow}

count-take-le : (q : ℕ → Bool) (n : ℕ) (xs : List ℕ) → count q (take n xs) ≤ count q xs
count-take-le q n xs =
    omega (arith, ap (count q) (take-append-drop n xs), count-append q (take n xs) (drop n xs))

count-drop-le : (q : ℕ → Bool) (n : ℕ) (xs : List ℕ) → count q (drop n xs) ≤ count q xs
count-drop-le q n xs =
    omega (arith, ap (count q) (take-append-drop n xs), count-append q (take n xs) (drop n xs))

pub places-AllBelow : (i n m : ℕ) → i + n ≤ m → AllBelow m (places i n)
unfolding places count
places-AllBelow i zero m le = refl
places-AllBelow i (suc n) m le = ground (arith, places-AllBelow (i + 1) n m)

pub length-places : (i n : ℕ) → length (places i n) ≡ n
unfolding places
length-places i zero = refl
length-places i (suc n) = ap suc (length-places (i + 1) n)

module _ {R G : Type 0} (doubles : Doubles R) (settings : Settings R) (random : Random R G) where
  -- A shuffle only moves places about.
  abbrev pub Shuffles : Type 0
  Shuffles = (g : G) (data_idx : List ℕ) → SameElements (random.shuffle g data_idx).0 data_idx

  pub shuffled-SameElements :
      Shuffles
      → (instances : List (List (ℤ × R))) (batch_size : ℕ) (data_idx : List ℕ) (g : G)
      → SameElements (shuffled doubles settings random instances batch_size data_idx g).0 data_idx
  unfolding shuffled
  shuffled-SameElements shuffles instances batch_size data_idx g =
      elim (Bool-cases settings.need_shuffle_data) [
        | inl on ↦ λ q. rw (shuffled, on) (shuffles g data_idx q)
        | inr off ↦ λ q. rw (shuffled, off) refl
      ]

  pub batch_at-AllBelow :
      (instances : List (List (ℤ × R))) (batch_size : ℕ) (data_idx : List ℕ) (begin : ℕ)
      → AllBelow (length instances) data_idx
      → AllBelow
          (length instances)
          (batch_at doubles settings random instances batch_size data_idx begin)
  unfolding batch_at
  batch_at-AllBelow instances batch_size data_idx begin below = omega (
    arith,
    count-take-le (λ i. leb (length instances) i)
        (min (begin + batch_size) (length instances) - begin) (drop begin data_idx),
    count-drop-le (λ i. leb (length instances) i) begin data_idx,
  )

  pub positive_size :
      (n : ℕ) → 0 < n → 0 < settings.mini_batch_size → 0 < batch_size_for doubles settings random n
  unfolding batch_size_for
  positive_size n some_data positive = ground arith

  -- A batch from the first place on is not empty.
  pub first_batch :
      (instances : List (List (ℤ × R))) (batch_size : ℕ) (data_idx : List ℕ)
      → 0 < batch_size
      → 0 < length instances
      → length data_idx ≡ length instances
      → 0 < length (batch_at doubles settings random instances batch_size data_idx 0)
  unfolding batch_at
  first_batch instances batch_size data_idx positive some_data size =
      omega
        (arith, length-take (min (0 + batch_size) (length instances) - 0) data_idx (omega arith))
