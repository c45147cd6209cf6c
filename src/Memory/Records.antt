-- ===== src/Memory/Records.antt =====
-- A vector of bytes that holds records of one width: reads and writes at a record's offset.
use cpp_project.Prelude.{
  ℕ, zero, suc, ◌+◌, ◌*◌, ◌≤◌, ◌<◌, ◌≡◌, ◌↔◌, refl, ap, sym, some, List, [], ◌∷◌, ◌++◌, length,
  take, drop, set, get_elem?, arith, length-append, length-drop, length-take, take-append-drop,
  le→leb, true, lt-length_of_get_elem?,
}
use mathlib.Core.List.{flatten, append_assoc}
use native.Mathlib.Nat.{zero-add, suc-add, zero-mul}
use cpp_project.Run.{ok}
use cpp_project.Memory.{read, write, bytes_equal}

module _ {ℓ} {A : Type ℓ} where
  take-append_le : (n : ℕ) (xs ys : List A) → n ≤ length xs → take n (xs ++ ys) ≡ take n xs
  take-append_le zero xs ys h = refl
  take-append_le (suc n) [] ys h = absurd (omega arith)
  take-append_le (suc n) (x ∷ xs) ys h = ap (◌∷◌ x) (take-append_le n xs ys (omega arith))

  pub take-append_length : (xs ys : List A) → take (length xs) (xs ++ ys) ≡ xs
  take-append_length [] ys = refl
  take-append_length (x ∷ xs) ys = ap (◌∷◌ x) (take-append_length xs ys)

  pub drop-append_add : (k : ℕ) (xs ys : List A) → drop (length xs + k) (xs ++ ys) ≡ drop k ys
  drop-append_add k [] ys = rw zero-add
  drop-append_add k (x ∷ xs) ys = rw suc-add (drop-append_add k xs ys)

  take-append_add : (k : ℕ) (xs ys : List A) → take (length xs + k) (xs ++ ys) ≡ xs ++ take k ys
  take-append_add k [] ys = rw zero-add
  take-append_add k (x ∷ xs) ys = rw suc-add (ap (◌∷◌ x) (take-append_add k xs ys))

-- Records of width `w`.
abbrev pub HaveWidth : ℕ → List (List ℕ) → Type 0
HaveWidth w [] = Unit
HaveWidth w (r ∷ rs) = (length r ≡ w) × HaveWidth w rs

pub HaveWidth-get_elem? :
    (w : ℕ) (rs : List (List ℕ)) (i : ℕ) (r : List ℕ)
    → HaveWidth w rs
    → get_elem? rs i ≡ some r
    → length r ≡ w
HaveWidth-get_elem? w [] i r h e = cc
HaveWidth-get_elem? w (x ∷ rs) zero r h e = ground arith
HaveWidth-get_elem? w (x ∷ rs) (suc i) r h e = HaveWidth-get_elem? w rs i r h.1 e

pub HaveWidth-set :
    (w : ℕ) (rs : List (List ℕ)) (i : ℕ) (r : List ℕ)
    → HaveWidth w rs
    → length r ≡ w
    → HaveWidth w (set rs i r)
HaveWidth-set w [] i r h e = h
HaveWidth-set w (x ∷ rs) zero r h e = (e, h.1)
HaveWidth-set w (x ∷ rs) (suc i) r h e = (h.0, HaveWidth-set w rs i r h.1 e)

pub length-flatten :
    (w : ℕ) (rs : List (List ℕ)) → HaveWidth w rs → length (flatten rs) ≡ length rs * w
unfolding flatten
length-flatten w [] h = omega arith
length-flatten w (r ∷ rs) h = omega (arith, length-append r (flatten rs), length-flatten w rs h.1)

drop-flatten :
    (w : ℕ) (rs : List (List ℕ)) (i : ℕ) (r : List ℕ)
    → HaveWidth w rs
    → get_elem? rs i ≡ some r
    → (rest : List ℕ) × (drop (i * w) (flatten rs) ≡ r ++ rest)
unfolding flatten
drop-flatten w [] i r h e = cc
drop-flatten w (x ∷ rs) zero r h e = (flatten rs, rw zero-mul (ap (λ v. v ++ flatten rs) (cc)))
drop-flatten w (x ∷ rs) (suc i) r h e =
    let step : suc i * w ≡ length x + i * w = omega (arith, h.0) in
    rw (step, drop-append_add (i * w) x (flatten rs)) (drop-flatten w rs i r h.1 e)

take_record : (n : ℕ) (v r rest : List ℕ) → v ≡ r ++ rest → n ≤ length r → take n v ≡ take n r
take_record n v r rest e h = rw e (take-append_le n r rest h)

index_in_range : (i n w : ℕ) → i < n → i * w + w ≤ n * w
index_in_range i n w h = grind arith

-- The first bytes of a record, read at the record's offset.
pub read-flatten :
    (w : ℕ) (rs : List (List ℕ)) (i : ℕ) (r : List ℕ) (n : ℕ)
    → HaveWidth w rs
    → get_elem? rs i ≡ some r
    → n ≤ w
    → read (flatten rs) (i * w) n ≡ ok (take n r)
unfolding read
read-flatten w rs i r n h e le =
    let (rest, split) = drop-flatten w rs i r h e in
    let width = HaveWidth-get_elem? w rs i r h e in
    let inside : i * w + n ≤ length (flatten rs) = omega (
      arith,
      length-flatten w rs h,
      index_in_range i (length rs) w (lt-length_of_get_elem? rs i r e),
    ) in
    rw (le→leb _ _ inside) (ap ok (take_record n _ r rest split (omega arith)))

overwrite :
    (w : ℕ) (rs : List (List ℕ)) (i : ℕ) (b : List ℕ)
    → HaveWidth w rs
    → i < length rs
    → take (i * w) (flatten rs) ++ (b ++ drop (i * w + w) (flatten rs)) ≡ flatten (set rs i b)
unfolding flatten
overwrite w [] i b h lt = absurd (omega arith)
overwrite w (x ∷ rs) zero b h lt =
    let step : 0 * w + w ≡ length x + 0 = omega (arith, h.0) in
    rw (step, zero-mul) (ap (λ v. b ++ v) (drop-append_add 0 x (flatten rs)))
overwrite w (x ∷ rs) (suc i) b h lt =
    let start : suc i * w ≡ length x + i * w = omega (arith, h.0) in
    let end : suc i * w + w ≡ length x + (i * w + w) = omega (arith, h.0) in
    rw
      (
        end,
        start,
        drop-append_add (i * w + w) x (flatten rs),
        take-append_add (i * w) x (flatten rs),
        append_assoc,
      )
      (ap (λ v. x ++ v) (overwrite w rs i b h.1 (omega arith)))

-- A whole record, written at its offset.
pub write-flatten :
    (w : ℕ) (rs : List (List ℕ)) (i : ℕ) (b : List ℕ)
    → HaveWidth w rs
    → i < length rs
    → length b ≡ w
    → write (flatten rs) (i * w) b ≡ ok (flatten (set rs i b))
unfolding write
write-flatten w rs i b h lt e =
    let inside : i * w + w ≤ length (flatten rs) =
      omega (arith, length-flatten w rs h, index_in_range i (length rs) w lt) in
    rw (e, le→leb _ _ inside) (ap ok (overwrite w rs i b h lt))

-- `memcmp` decides equality.
pub bytes_equal_iff : (a b : List ℕ) → (bytes_equal a b ≡ true) ↔ (a ≡ b)
unfolding bytes_equal
bytes_equal_iff [] [] = ground arith
bytes_equal_iff [] (y ∷ b) = ground arith
bytes_equal_iff (x ∷ a) [] = ground arith
bytes_equal_iff (x ∷ a) (y ∷ b) = ground (arith, bytes_equal_iff a b)

-- Cutting a vector into records.
unfoldable pub records : ℕ → ℕ → List ℕ → List (List ℕ)
records w zero v = []
records w (suc n) v = take w v ∷ records w n (drop w v)

pub records-flatten :
    (w n : ℕ) (v : List ℕ)
    → length v ≡ n * w
    → (flatten (records w n v) ≡ v) × HaveWidth w (records w n v) × (length (records w n v) ≡ n)
unfolding records flatten
records-flatten w zero [] h = (refl, tt, refl)
records-flatten w zero (x ∷ v) h = absurd (omega arith)
records-flatten w (suc n) v h =
    let (whole, widths, size) = records-flatten w n (drop w v) (omega (arith, length-drop w v)) in
    (rw whole (take-append-drop w v), (length-take w v (omega arith), widths), ap suc size)

drop-nil : (k : ℕ) → drop {A = ℕ} k [] ≡ []
drop-nil zero = refl
drop-nil (suc k) = refl

pub drop_add : (i k : ℕ) (v : List ℕ) → drop (i + k) v ≡ drop k (drop i v)
drop_add zero k v = rw zero-add
drop_add (suc i) k [] = rw suc-add (sym (drop-nil k))
drop_add (suc i) k (x ∷ v) = rw suc-add (drop_add i k v)

drop-append_le : (k : ℕ) (xs ys : List ℕ) → k ≤ length xs → drop k (xs ++ ys) ≡ drop k xs ++ ys
drop-append_le zero xs ys h = refl
drop-append_le (suc k) [] ys h = absurd (omega arith)
drop-append_le (suc k) (x ∷ xs) ys h = drop-append_le k xs ys (omega arith)

-- The last bytes of a record, read behind its first `k`.
pub read-flatten_tail :
    (w : ℕ) (rs : List (List ℕ)) (i : ℕ) (r : List ℕ) (k n : ℕ)
    → HaveWidth w rs
    → get_elem? rs i ≡ some r
    → k + n ≡ w
    → read (flatten rs) (i * w + k) n ≡ ok (drop k r)
unfolding read
read-flatten_tail w rs i r k n h e split =
    let (rest, found) = drop-flatten w rs i r h e in
    let width = HaveWidth-get_elem? w rs i r h e in
    let inside : i * w + k + n ≤ length (flatten rs) = omega (
      arith,
      length-flatten w rs h,
      index_in_range i (length rs) w (lt-length_of_get_elem? rs i r e),
    ) in
    let size : length (drop k r) ≡ n = omega (arith, length-drop k r) in
    rw
      (
        le→leb _ _ inside,
        drop_add (i * w) k (flatten rs),
        found,
        drop-append_le k r rest (omega arith),
      )
      (ap ok (rw (← size) (take-append_length (drop k r) rest)))
