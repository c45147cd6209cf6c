-- ===== src/Kmp/Table.antt =====
-- The table has a place for each character of the pattern, but the loop writes one place more.
use mathlib.Core.Path.{subst}
use cpp_project.Prelude.{
  ℕ, zero, suc, ◌+◌, ◌*◌, ◌≤◌, ◌<◌, ◌≡◌, ◌∙◌, ◌⊎◌, inl, inr, refl, ap, ℤ, pos, negsuc, minus_one,
  increment, true, false, List, [], ◌∷◌, length, replicate, length-replicate, get_elem?,
  get_elem?-some, get_elem?-set, set, length-set, some, ltb, lt→ltb, lt-or_le, ◌==◌, ==_iff,
  if◌then◌else◌, Bool-cases, arith,
}
use cpp_project.Run.{ok, fault, out_of_bounds, ◌>>=◌, put, at_int, put_int, at-get_elem?, put-set}
use cpp_project.Kmp.{goes_on, next_loop, get_next, kmp}

put-outside {ℓ} :
    {A : Type ℓ} (xs : List A) (i : ℕ) (v : A) → length xs ≤ i → put xs i v ≡ fault out_of_bounds
unfolding put
put-outside [] i v le = refl
put-outside (x ∷ xs) zero v le = absurd (omega arith)
put-outside (x ∷ xs) (suc i) v le = rw (put-outside xs i v (omega arith))

-- How far an `int` from -1 on is from -1.
abbrev height : ℤ → ℕ
height (pos n) = n + 1
height (negsuc n) = 0

-- A place before `k`, or -1.
abbrev IsLink : ℤ → ℕ → Type 0
IsLink (pos n) k = n < k
IsLink (negsuc n) k = n ≡ 0

height-le : (z : ℤ) (k : ℕ) → IsLink z k → height z ≤ k
height-le (pos n) k link = omega arith
height-le (negsuc n) k link = omega arith

abbrev Links : List ℤ → ℕ → Type 0
Links next j = (k : ℕ) → k ≤ j → (z : ℤ) × (get_elem? next k ≡ some z) × IsLink z k

IsLink-mono : (z : ℤ) (k j : ℕ) → k ≤ j → IsLink z k → IsLink z j
IsLink-mono (pos n) k j le link = omega arith
IsLink-mono (negsuc n) k j le link = link

increment-IsLink : (z : ℤ) (j : ℕ) → IsLink z j → IsLink (increment z) (j + 1)
increment-IsLink (pos n) j link = omega arith
increment-IsLink (negsuc zero) j link = omega arith
increment-IsLink (negsuc (suc n)) j link = absurd (omega arith)

height-increment : (z : ℤ) (j : ℕ) → IsLink z j → height (increment z) ≡ height z + 1
height-increment (pos n) j link = omega arith
height-increment (negsuc zero) j link = refl
height-increment (negsuc (suc n)) j link = absurd (omega arith)

Links-set :
    (next : List ℤ) (j : ℕ) (z : ℤ)
    → j + 1 < length next
    → Links next j
    → IsLink z (j + 1)
    → Links (set next (j + 1) z) (j + 1)
Links-set next j z inside links link k le = elim (Bool-cases (j + 1 == k)) [
  | inl here ↦ (
    z,
    get_elem?-set next (j + 1) k z inside ∙ rw here refl,
    subst (IsLink z) ((==_iff (j + 1) k).0 here) link,
  )
  | inr there ↦
      let (y, at_y, link_y) = links k (ground arith) in
      (y, get_elem?-set next (j + 1) k z inside ∙ rw there at_y, link_y)
]

-- The test ends without a fault; and when it fails there is a place to go back to.
goes_on-cases :
    (pattern_text : List ℕ) (i : ℤ) (j : ℕ)
    → IsLink i j
    → j < length pattern_text
    → (goes_on pattern_text i pattern_text j ≡ ok true)
      ⊎ ((n : ℕ) × (i ≡ pos n) × (goes_on pattern_text i pattern_text j ≡ ok false))
unfolding goes_on at_int
goes_on-cases pattern_text (negsuc zero) j link lt = inl refl
goes_on-cases pattern_text (negsuc (suc n)) j link lt = absurd (omega arith)
goes_on-cases pattern_text (pos n) j link lt =
    let (x, at_x) = get_elem?-some pattern_text n (omega arith) in
    let (y, at_y) = get_elem?-some pattern_text j lt in
    elim (Bool-cases (x == y)) [
      | inl e ↦
          inl
            (rw (at-get_elem? pattern_text n x at_x, at-get_elem? pattern_text j y at_y, ◌>>=◌, e))
      | inr e ↦ inr (
        n,
        refl,
        rw (at-get_elem? pattern_text n x at_x, at-get_elem? pattern_text j y at_y, ◌>>=◌, e),
      )
    ]

next_loop-fault :
    (fuel : ℕ) (pattern_text : List ℕ) (next : List ℤ) (i : ℤ) (j : ℕ)
    → j < length pattern_text
    → length next ≡ length pattern_text
    → IsLink i j
    → Links next j
    → 2 * length pattern_text + height i ≤ fuel + 2 * j
    → next_loop fuel pattern_text next i j ≡ fault out_of_bounds
unfolding next_loop put_int at_int
next_loop-fault zero pattern_text next i j lt size link links enough = absurd (omega arith)
next_loop-fault (suc fuel) pattern_text next i j lt size link links enough =
    elim (goes_on-cases pattern_text i j link lt) [
      | inl on ↦ elim (lt-or_le (j + 1) (length next)) [
        | inl inside ↦
            rw (next_loop, lt→ltb _ _ lt, on, put-set next (j + 1) (increment i) inside, ◌>>=◌)
              (next_loop-fault fuel pattern_text (set next (j + 1) (increment i)) (increment i)
                (j + 1) (omega arith) (length-set next (j + 1) (increment i) ∙ size)
                (increment-IsLink i j link)
                (Links-set next j (increment i) inside links (increment-IsLink i j link))
                (omega (arith, height-increment i j link)))
        | inr outside ↦
            rw (next_loop, lt→ltb _ _ lt, on, put-outside next (j + 1) (increment i) outside, ◌>>=◌)
              refl
      ]
      | inr (n, e, back) ↦
          let lt_n : n < j = subst (λ z. IsLink z j) e link in
          let (z, at_z, link_z) = links n (omega arith) in
          rw (next_loop, lt→ltb _ _ lt, back, ◌>>=◌, e, at-get_elem? next n z at_z)
            (next_loop-fault fuel pattern_text next z j lt size
              (IsLink-mono z n j (omega arith) link_z) links
              (omega (arith, height-le z n link_z, ap height e)))
    ]

Links-start : (n : ℕ) → 0 < n → Links (set (replicate n (pos 0)) 0 minus_one) 0
Links-start zero positive k le = absurd (omega arith)
Links-start (suc n) positive zero le = (minus_one, refl, refl)
Links-start (suc n) positive (suc k) le = absurd (omega arith)

-- The making of the table never ends well: for every pattern it writes the place behind the last.
pub get_next-fault : (pattern_text : List ℕ) → get_next pattern_text ≡ fault out_of_bounds
unfolding get_next put_int put
get_next-fault [] = refl
get_next-fault (c ∷ rest) =
    let n = length (c ∷ rest) in
    let zeros = replicate n (pos 0) in
    let size : length zeros ≡ n = length-replicate n (pos 0) in
    next_loop-fault (2 * n + 1) (c ∷ rest) (set zeros 0 minus_one) minus_one 0 (omega arith)
      (length-set zeros 0 minus_one ∙ size) refl (Links-start n (omega arith)) (omega arith)

nonzero : (n : ℕ) → (suc n == 0) ≡ false
nonzero n = ground arith

-- The search finds the empty pattern at 0, and no pattern in a text that is shorter. In all other
-- cases it writes behind the end of its table.
pub kmp-cases :
    (src ptn : List ℕ)
    → kmp src ptn ≡ (
        if length ptn == 0
        then ok (pos 0)
        else if ltb (length src) (length ptn)
        then ok minus_one
        else fault out_of_bounds)
unfolding kmp
kmp-cases src [] = refl
kmp-cases src (c ∷ rest) = elim (Bool-cases (ltb (length src) (length (c ∷ rest)))) [
  | inl shorter ↦ rw (nonzero (length rest), shorter)
  | inr enough ↦ rw (nonzero (length rest), enough, get_next-fault (c ∷ rest))
]
