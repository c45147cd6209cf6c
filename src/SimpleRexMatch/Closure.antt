-- ===== src/SimpleRexMatch/Closure.antt =====
-- `_add_state` puts the states into the list that what is left of the pattern can begin with.
use mathlib.Core.Path.{subst}
use native.Mathlib.Nat.{zero-add, add-zero}
use cpp_project.Prelude.{
  ℕ, zero, suc, ◌+◌, ◌≤◌, ◌<◌, ◌≡◌, refl, ap, sym, ◌∙◌, ℤ, pos, negsuc, ◌==ℤ◌, Bool, false, ◌&&◌,
  ◌||◌, ◌==◌, if◌then◌else◌, List, [], ◌∷◌, ◌++◌, append_assoc, arith, length, some, get_elem?,
}
use cpp_project.Run.{Run, ok, ◌>>=◌, at_int, at-get_elem?}
use cpp_project.SimpleRexMatch.{State, split, unmark, push_state, add_state}
use cpp_project.SimpleRexMatch.Reference.{meets, Item, one, many, matches, repeat, is_empty}
use cpp_project.SimpleRexMatch.Layout.{total, width, total-append, ArePlain}
use cpp_project.SimpleRexMatch.Active.{
  any, entry, entry_state, head_state, program-head, program-entry, HasProgram, IsActive, IsGrown,
  IsGrown-trans, state_at, push_state_lem,
}

unfoldable pub closure : ℕ → List Item → List ℤ
closure o [] = pos o ∷ []
closure o (one c ∷ items) = pos o ∷ []
closure o (many c ∷ items) = pos (o + 1) ∷ closure (o + 2) items

pub same_c : (s p : State) → unmark s ≡ p → s.c ≡ p.c
unfolding unmark
same_c s p e = ap (λ z. z.c) e

pub same_out : (s p : State) → unmark s ≡ p → s.out ≡ p.out
unfolding unmark
same_out s p e = ap (λ z. z.out) e

pub same_out1 : (s p : State) → unmark s ≡ p → s.out1 ≡ p.out1
unfolding unmark
same_out1 s p e = ap (λ z. z.out1) e

module _ (items : List Item) (number : ℤ) where
  abbrev pub Adds : List State → List ℤ → Run (List State × List ℤ) → List ℤ → Type 0
  Adds states list run added =
      (states' : List State) × (list' : List ℤ) × (run ≡ ok (states', list'))
      × IsGrown items number states states' list list' added

  module _ (states : List State) (list : List ℤ) (whole : HasProgram items states)
      (active : IsActive items number states list) where
    push_entry :
        (pre rest : List Item)
        → items ≡ pre ++ rest
        → Adds states list
            (push_state states list number (pos (entry (total pre) rest)))
            (pos (entry (total pre) rest) ∷ [])
    push_entry pre rest parts =
        let (s, at_s, same) =
          state_at items states (entry (total pre) rest) (entry_state (total pre) rest) whole
            (rw parts (program-entry pre rest)) in
        push_state_lem items number states list (entry (total pre) rest) s whole active
          (record { pre = pre; rest = rest; parts = parts; place = refl }) at_s

    pub head_at :
        (pre rest : List Item)
        → items ≡ pre ++ rest
        → (s : State) × (get_elem? states (total pre) ≡ some s)
          × (unmark s ≡ head_state (total pre) rest)
    head_at pre rest parts =
        state_at items states (total pre) (head_state (total pre) rest) whole
          (rw parts (program-head pre rest))

    -- A state that is no split is put into the list.
    add_plain :
        (fuel : ℕ) (pre rest : List Item)
        → items ≡ pre ++ rest
        → entry (total pre) rest ≡ total pre
        → ((head_state (total pre) rest).c ==ℤ split) ≡ false
        → Adds states list
            (add_state (suc fuel) states list number (pos (total pre)))
            (pos (total pre) ∷ [])
    unfolding add_state at_int
    add_plain fuel pre rest parts here plain =
        let (s, at_s, same) = head_at pre rest parts in
        let (states', list', run, grown) =
          subst (λ k. Adds states list (push_state states list number (pos k)) (pos k ∷ [])) here
            (push_entry pre rest parts) in
        (
          states',
          list',
          rw (at-get_elem? states (total pre) s at_s, ◌>>=◌, same_c s _ same, plain) run,
          grown,
        )

  pub add_state_lem :
      (fuel : ℕ) (states : List State) (list : List ℤ) (pre rest : List Item)
      → HasProgram items states
      → IsActive items number states list
      → items ≡ pre ++ rest
      → ArePlain rest
      → length rest < fuel
      → Adds states list
          (add_state fuel states list number (pos (total pre)))
          (closure (total pre) rest)
  unfolding closure add_state at_int
  add_state_lem zero states list pre rest whole active parts plain enough = absurd (omega arith)
  add_state_lem (suc fuel) states list pre [] whole active parts plain enough =
      add_plain states list whole active fuel pre [] parts refl refl
  add_state_lem (suc fuel) states list pre (one c ∷ rest) whole active parts plain enough =
      add_plain states list whole active fuel pre (one c ∷ rest) parts refl plain.0
  add_state_lem (suc fuel) states list pre (many c ∷ rest) whole active parts plain enough =
      let (s, at_s, same) = head_at states list whole active pre (many c ∷ rest) parts in
      let (states₁, list₁, run₁, first) =
        push_entry states list whole active pre (many c ∷ rest) parts in
      let size : total (pre ++ many c ∷ []) ≡ total pre + 2 =
        omega (arith, total-append pre (many c ∷ [])) in
      let (states₂, list₂, run₂, second) =
        subst
          (λ k. Adds states₁ list₁ (add_state fuel states₁ list₁ number (pos k)) (closure k rest))
          size
          (add_state_lem fuel states₁ list₁ (pre ++ many c ∷ []) rest first.whole first.active
            (parts ∙ sym (append_assoc pre (many c ∷ []) rest)) plain.1 (omega arith)) in
      (
        states₂,
        list₂,
        rw
            (
              add_state,
              at-get_elem? states (total pre) s at_s,
              ◌>>=◌,
              same_c s _ same,
              same_out s _ same,
              same_out1 s _ same,
              run₁,
              ◌>>=◌,
            )
            run₂,
        IsGrown-trans items first second,
      )

-- What the states accept. A state waits for a character of the first item that is left.
unfoldable pub awaits : List Item → List ℤ → Bool
awaits [] src = is_empty src
awaits (one c ∷ items) src = matches (one c ∷ items) src
awaits (many c ∷ items) [] = false
awaits (many c ∷ items) (x ∷ src) = meets c x && matches (many c ∷ items) src

unfoldable pub accepts_from : ℕ → List Item → ℕ → List ℤ → Bool
accepts_from o [] k src = awaits [] src
accepts_from o (item ∷ items) k src =
    if k == entry o (item ∷ items)
    then awaits (item ∷ items) src
    else accepts_from (o + width item) items k src

abbrev pub accepts : List Item → List ℤ → ℤ → Bool
accepts items src (pos k) = accepts_from 0 items k src
accepts items src (negsuc k) = false

entry-range :
    (o : ℕ) (item : Item) (items : List Item)
    → (o ≤ entry o (item ∷ items)) × (entry o (item ∷ items) < o + width item)
entry-range o (one c) items = (omega arith, omega arith)
entry-range o (many c) items = (omega arith, omega arith)

entry-le : (o : ℕ) (items : List Item) → o ≤ entry o items
entry-le o [] = omega arith
entry-le o (one c ∷ items) = omega arith
entry-le o (many c ∷ items) = omega arith

accepts_here :
    (o k : ℕ) (item : Item) (rest : List Item) (src : List ℤ)
    → k ≡ entry o (item ∷ rest)
    → accepts_from o (item ∷ rest) k src ≡ awaits (item ∷ rest) src
unfolding accepts_from
accepts_here o k item rest src e = ground arith

accepts_entry :
    (o : ℕ) (pre rest : List Item) (src : List ℤ)
    → accepts_from o (pre ++ rest) (entry (o + total pre) rest) src ≡ awaits rest src
unfolding accepts_from
accepts_entry o [] [] src = refl
accepts_entry o [] (item ∷ rest) src =
    accepts_here o (entry (o + 0) (item ∷ rest)) item rest src
      (ap (λ n. entry n (item ∷ rest)) (add-zero o))
accepts_entry o (item ∷ pre) rest src =
    let shift : o + (width item + total pre) ≡ o + width item + total pre = omega arith in
    rw shift (
      ground (
        arith,
        entry-le (o + width item + total pre) rest,
        entry-range o item (pre ++ rest),
        accepts_entry (o + width item) pre rest src,
      ))

pub accepts_lem :
    (src : List ℤ) (items pre rest : List Item)
    → items ≡ pre ++ rest
    → accepts items src (pos (entry (total pre) rest)) ≡ awaits rest src
accepts_lem src items pre rest parts = rw parts (
    ap (λ n. accepts_from 0 (pre ++ rest) (entry n rest) src) (sym (zero-add (total pre)))
    ∙ accepts_entry 0 pre rest src)

-- A character is met by what is left where it can begin.
matches_many :
    (c : ℤ) (rest : List Item) (src : List ℤ)
    → (awaits (many c ∷ rest) src || matches rest src) ≡ matches (many c ∷ rest) src
unfolding awaits matches repeat
matches_many c rest [] = refl
matches_many c rest (x ∷ src) = refl

pub matches-closure :
    (src : List ℤ) (items pre rest : List Item)
    → items ≡ pre ++ rest
    → any (accepts items src) (closure (total pre) rest) ≡ matches rest src
unfolding any closure awaits matches
matches-closure src items pre [] parts = ground (arith, accepts_lem src items pre [] parts)
matches-closure src items pre (one c ∷ rest) parts =
    ground (arith, accepts_lem src items pre (one c ∷ rest) parts)
matches-closure src items pre (many c ∷ rest) parts =
    let size : total (pre ++ many c ∷ []) ≡ total pre + 2 =
      omega (arith, total-append pre (many c ∷ [])) in
    rw
      (
        accepts_lem src items pre (many c ∷ rest) parts,
        ← size,
        matches-closure src items (pre ++ many c ∷ []) rest
            (parts ∙ sym (append_assoc pre (many c ∷ []) rest)),
      )
      (matches_many c rest src)
