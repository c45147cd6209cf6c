-- ===== src/SimpleRexMatch/Follow.antt =====
-- The step of `is_matched` that goes on from a state that the character hits.
use cpp_project.Prelude.{
  ℕ, suc, ◌+◌, ◌≤◌, ◌<◌, ◌≡◌, refl, ap, sym, ◌∙◌, ℤ, pos, minus_one, ◌==ℤ◌, Bool, true, false, ◌&&◌,
  List, [], ◌∷◌, ◌++◌, append_assoc, arith, length, length-append, length-map, Bool-cases, inl, inr,
  holds_at,
}
use cpp_project.Run.{Run, ok}
use cpp_project.SimpleRexMatch.{State, fresh, unmark, is_hit, add_state, follow}
use cpp_project.SimpleRexMatch.Reference.{Item, one, many, matches}
use cpp_project.SimpleRexMatch.Layout.{
  total, program, total-append, length-layout, ArePlain, layout, single,
}
use cpp_project.SimpleRexMatch.Active.{
  any, member, entry_state, has_mark, HasProgram, IsActive, IsGrown,
}
use cpp_project.SimpleRexMatch.Closure.{
  closure, same_c, same_out, Adds, add_state_lem, awaits, accepts, matches-closure,
}

length-le-total : (items : List Item) → length items ≤ total items
length-le-total [] = omega arith
length-le-total (one c ∷ items) = omega (arith, length-le-total items)
length-le-total (many c ∷ items) = omega (arith, length-le-total items)

ArePlain-append : (pre rest : List Item) → ArePlain (pre ++ rest) → ArePlain rest
ArePlain-append [] rest h = h
ArePlain-append (item ∷ pre) rest h = ArePlain-append pre rest h.1

add_nowhere :
    (n : ℕ) (states : List State) (list : List ℤ) (number : ℤ)
    → add_state (suc n) states list number minus_one ≡ ok (states, list)
unfolding add_state
add_nowhere n states list number = refl

and_hit : (b m : Bool) → b ≡ true → (b && m) ≡ m
and_hit b m e = ground arith

and_miss : (b m : Bool) → b ≡ false → (b && m) ≡ false
and_miss b m e = ground arith

-- Numbers of two lists.
pub record IsPair (clist nlist : ℤ) : Type 0 where
  pub apart : (nlist ==ℤ clist) ≡ false
  pub none_current : (minus_one ==ℤ clist) ≡ false
  pub none_next : (minus_one ==ℤ nlist) ≡ false

module _ (items : List Item) (plain : ArePlain items) where
  -- Only states of the list have the mark.
  abbrev pub Waits : ℤ → List State → List ℤ → Type 0
  Waits number states list =
      (j : ℕ) → holds_at (has_mark number) states j ≡ true → member (pos j) list ≡ true

  pub length-rest :
      (states : List State) (pre rest : List Item)
      → HasProgram items states
      → items ≡ pre ++ rest
      → length rest < suc (length states)
  length-rest states pre rest whole parts = omega (
    arith,
    ap length whole,
    length-map unmark states,
    length-append (layout 0 items) (program []),
    length-layout 0 items,
    ap total parts,
    total-append pre rest,
    length-le-total rest,
  )

  plain_rest : (pre rest : List Item) → items ≡ pre ++ rest → ArePlain rest
  plain_rest pre rest parts = ArePlain-append pre rest (rw (← parts) plain)

  module _ (clist nlist x : ℤ) (pair : IsPair clist nlist) where
    IsGrown-refl :
        (states : List State) (next : List ℤ)
        → HasProgram items states
        → IsActive items nlist states next
        → IsGrown items nlist states states next next []
    unfolding any
    IsGrown-refl states next whole active = record {
      whole = whole;
      active = active;
      others = λ l k other holds. holds;
      any_list = λ f. ground arith;
    }

    tested :
        {b : Bool} {next : ℤ} (s : State) (c : ℤ)
        → unmark s ≡ single c next
        → is_hit s.c x ≡ b
        → is_hit c x ≡ b
    tested s c same test = ap (λ z. is_hit z x) (sym (same_c s _ same)) ∙ test

    abbrev pub Follows : List State → List ℤ → Run (List State × List ℤ) → List Item → Type 0
    Follows states next run rest =
        (states' : List State) × (next' : List ℤ) × (added : List ℤ) × (run ≡ ok (states', next'))
        × IsGrown items nlist states states' next next' added
        × ((src : List ℤ) → any (accepts items src) added ≡ awaits rest (x ∷ src))

    module _ (states : List State) (next : List ℤ) (whole : HasProgram items states)
        (active : IsActive items nlist states next) where
      -- From the way out on.
      add_rest :
          (pre rest : List Item)
          → items ≡ pre ++ rest
          → Adds items nlist states next
              (add_state (suc (length states)) states next nlist (pos (total pre)))
              (closure (total pre) rest)
      add_rest pre rest parts =
          add_state_lem items nlist (suc (length states)) states next pre rest whole active parts
            (plain_rest pre rest parts) (length-rest states pre rest whole parts)

      follow_miss :
          (s : State) (rest : List Item)
          → is_hit s.c x ≡ false
          → ((src : List ℤ) → awaits rest (x ∷ src) ≡ false)
          → Follows states next (follow states next nlist x s) rest
      unfolding follow any
      follow_miss s rest miss closed = (
        states,
        next,
        [],
        rw (follow, miss),
        IsGrown-refl states next whole active,
        λ src. sym (closed src),
      )

      pub follow_lem :
          (pre rest : List Item) (s : State)
          → items ≡ pre ++ rest
          → unmark s ≡ entry_state (total pre) rest
          → Follows states next (follow states next nlist x s) rest
      unfolding follow any awaits matches
      follow_lem pre [] s parts same = elim (Bool-cases (is_hit s.c x)) [
        | inl hit ↦ (
          states,
          next,
          [],
          rw (follow, hit, same_out s fresh same) (add_nowhere (length states) states next nlist),
          IsGrown-refl states next whole active,
          λ src. refl,
        )
        | inr miss ↦ follow_miss s [] miss (λ src. refl)
      ]
      follow_lem pre (one c ∷ rest) s parts same = elim (Bool-cases (is_hit s.c x)) [
        | inl hit ↦
            let way_out : s.out ≡ pos (total (pre ++ one c ∷ [])) =
              same_out s (single c (pos (total pre + 1))) same
              ∙ ap pos (sym (total-append pre (one c ∷ []))) in
            let parts' = parts ∙ sym (append_assoc pre (one c ∷ []) rest) in
            let (states', next', run, grown) = add_rest (pre ++ one c ∷ []) rest parts' in
            (
              states',
              next',
              closure (total (pre ++ one c ∷ [])) rest,
              rw (follow, hit, way_out) run,
              grown,
              λ src.
                  matches-closure src items (pre ++ one c ∷ []) rest parts'
                  ∙ sym (and_hit (is_hit c x) (matches rest src) (tested s c same hit)),
            )
        | inr miss ↦
            follow_miss s (one c ∷ rest) miss
              (λ src. and_miss (is_hit c x) (matches rest src) (tested s c same miss))
      ]
      follow_lem pre (many c ∷ rest) s parts same = elim (Bool-cases (is_hit s.c x)) [
        | inl hit ↦
            let (states', next', run, grown) = add_rest pre (many c ∷ rest) parts in
            (
              states',
              next',
              closure (total pre) (many c ∷ rest),
              rw (follow, hit, same_out s (single c (pos (total pre))) same) run,
              grown,
              λ src.
                  matches-closure src items pre (many c ∷ rest) parts
                  ∙ sym (and_hit (is_hit c x) (matches (many c ∷ rest) src) (tested s c same hit)),
            )
        | inr miss ↦
            follow_miss s (many c ∷ rest) miss
              (λ src. and_miss (is_hit c x) (matches (many c ∷ rest) src) (tested s c same miss))
      ]
