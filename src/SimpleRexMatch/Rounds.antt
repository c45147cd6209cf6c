-- ===== src/SimpleRexMatch/Rounds.antt =====
-- One round of `is_matched`: the active states meet a character.
use cpp_project.Prelude.{
  ℕ, ◌≡◌, refl, sym, ◌∙◌, ℤ, pos, minus_one, ◌==ℤ◌, ==ℤ_iff, true, false, ◌||◌, ◌==◌, List, [], ◌∷◌,
  ◌++◌, arith, Bool-cases, inl, inr, some, get_elem?, set, holds_at, holds_at-set,
  holds_at-get_elem?, lt-length_of_get_elem?,
}
use mathlib.Core.Path.{subst}
use cpp_project.Run.{ok, ◌>>=◌, at_int, put_int, at-get_elem?, put-set}
use cpp_project.SimpleRexMatch.{State, unmark, visit, visit_all}
use cpp_project.SimpleRexMatch.Reference.{Item}
use cpp_project.SimpleRexMatch.Layout.{total, ArePlain, program}
use cpp_project.SimpleRexMatch.Active.{
  any, member, entry, entry_state, program-entry, has_mark, HasProgram, IsActive, IsEntry, IsGrown,
  state_at, map-set,
}
use cpp_project.SimpleRexMatch.Closure.{accepts, accepts_lem}
use cpp_project.SimpleRexMatch.Follow.{IsPair, Waits, follow_lem}

unmark-twice : (s : State) → unmark (unmark s) ≡ unmark s
unfolding unmark
unmark-twice s = refl

has_mark-unmark : (l : ℤ) (s : State) → has_mark l (unmark s) ≡ (minus_one ==ℤ l)
unfolding unmark
has_mark-unmark l s = refl

marks_differ :
    (s : State) (l m : ℤ)
    → (m ==ℤ l) ≡ false
    → (s.last_list ==ℤ m) ≡ true
    → (s.last_list ==ℤ l) ≡ false
marks_differ s l m apart same = rw ((==ℤ_iff s.last_list m).0 same) apart

==ℤ_pos : (i j : ℕ) → (pos i ==ℤ pos j) ≡ (i == j)
==ℤ_pos i j = refl

module _ (items : List Item) (plain : ArePlain items) (clist nlist x : ℤ)
    (pair : IsPair clist nlist) where
  -- What a visit, or several, do to the list of the next round.
  pub record IsVisited (states' : List State) (next next' left met : List ℤ) : Type 0 where
    pub whole : HasProgram items states'
    pub active : IsActive items nlist states' next'
    pub waits : Waits items plain clist states' left
    pub accepted :
        (src : List ℤ)
        → any (accepts items src) next'
          ≡ (any (accepts items src) next || any (accepts items (x ∷ src)) met)

  module _ (states states' : List State) (next next' added current : List ℤ) (i : ℕ) (s : State)
      (waits : Waits items plain clist states (pos i ∷ current))
      (grown : IsGrown items nlist states states' next next' added)
      (at_s : get_elem? states' i ≡ some s)
      (gained : (src : List ℤ)
        → any (accepts items src) added ≡ accepts items (x ∷ src) (pos i)) where
    accepted_lem :
        (src : List ℤ)
        → any (accepts items src) next'
          ≡ (any (accepts items src) next || any (accepts items (x ∷ src)) (pos i ∷ []))
    unfolding any
    accepted_lem src = ground (arith, grown.any_list (accepts items src), gained src)

    left_waits :
        (j : ℕ)
        → (i == j) ≡ false
        → holds_at (has_mark clist) states' j ≡ true
        → member (pos j) current ≡ true
    unfolding any
    left_waits j other holds = ground (arith, grown.others clist j pair.apart holds, waits j)

    -- The state is in the next list: its mark stays.
    kept : (s.last_list ==ℤ nlist) ≡ true → IsVisited states' next next' current (pos i ∷ [])
    kept same = record {
      whole = grown.whole;
      active = grown.active;
      waits = λ j holds. elim (Bool-cases (i == j)) [
        | inl here ↦ ground (
          arith,
          holds_at-get_elem? (has_mark clist) states' i s at_s,
          marks_differ s clist nlist pair.apart same,
        )
        | inr other ↦ left_waits j other holds
      ];
      accepted = accepted_lem;
    }

    unmarked : IsVisited (set states' i (unmark s)) next next' current (pos i ∷ [])
    unmarked = record {
      whole = map-set unmark states' i s (unmark s) at_s (unmark-twice s) ∙ grown.whole;
      active = record {
        entries = grown.active.entries;
        marked = λ j holds. ground (
          arith,
          holds_at-set (has_mark nlist) states' i j (unmark s)
              (lt-length_of_get_elem? states' i s at_s),
          has_mark-unmark nlist s,
          pair.none_next,
          grown.active.marked j,
        );
      };
      waits = λ j holds. elim (Bool-cases (i == j)) [
        | inl here ↦ ground (
          arith,
          holds_at-set (has_mark clist) states' i j (unmark s)
              (lt-length_of_get_elem? states' i s at_s),
          has_mark-unmark clist s,
          pair.none_current,
        )
        | inr other ↦ left_waits j other (
            ground (
              arith,
              holds_at-set (has_mark clist) states' i j (unmark s)
                  (lt-length_of_get_elem? states' i s at_s),
              has_mark-unmark clist s,
              pair.none_current,
            ))
      ];
      accepted = accepted_lem;
    }

  -- The visit of a state ends without a fault.
  abbrev Visits : List State → List ℤ → List ℤ → ℤ → Type 0
  Visits states next current k =
      Waits items plain clist states (k ∷ current)
      → (states' : List State) × (next' : List ℤ) × (visit states next nlist x k
          ≡ ok (states', next'))
        × IsVisited states' next next' current (k ∷ [])

  visit_lem :
      (states : List State) (next current : List ℤ) (pre rest : List Item)
      → HasProgram items states
      → IsActive items nlist states next
      → items ≡ pre ++ rest
      → Visits states next current (pos (entry (total pre) rest))
  unfolding visit at_int put_int
  visit_lem states next current pre rest whole active parts waits =
      let i = entry (total pre) rest in
      let p = entry_state (total pre) rest in
      let at_p : get_elem? (program items) i ≡ some p = rw parts (program-entry pre rest) in
      let (s, at_s, same) = state_at items states i p whole at_p in
      let (states', next', added, run, grown, gained) =
        follow_lem items plain clist nlist x pair states next whole active pre rest s parts same in
      let (s', at_s', same') = state_at items states' i p grown.whole at_p in
      let gained' =
        λ (src : List ℤ). gained src ∙ sym (accepts_lem (x ∷ src) items pre rest parts) in
      elim (Bool-cases (s'.last_list ==ℤ nlist)) [
        | inl listed ↦ (
          states',
          next',
          rw (at-get_elem? states i s at_s, ◌>>=◌, run, at-get_elem? states' i s' at_s', listed),
          kept states states' next next' added current i s' waits grown at_s' gained' listed,
        )
        | inr unlisted ↦ (
          set states' i (unmark s'),
          next',
          rw (
            at-get_elem? states i s at_s,
            ◌>>=◌,
            run,
            at-get_elem? states' i s' at_s',
            unlisted,
            put-set states' i (unmark s') (lt-length_of_get_elem? states' i s' at_s'),
          ),
          unmarked states states' next next' added current i s' waits grown at_s' gained',
        )
      ]

  visit_entry :
      (states : List State) (next current : List ℤ) (k : ℤ)
      → HasProgram items states
      → IsActive items nlist states next
      → IsEntry items k
      → Visits states next current k
  visit_entry states next current k whole active is_entry =
      subst (Visits states next current) (sym is_entry.place)
        (visit_lem states next current is_entry.pre is_entry.rest whole active is_entry.parts)

  -- All states of the list meet the character. None keeps the list's mark.
  pub visit_all_lem :
      (states : List State) (next current : List ℤ)
      → HasProgram items states
      → IsActive items nlist states next
      → Waits items plain clist states current
      → ((k : ℤ) → member k current ≡ true → IsEntry items k)
      → (states' : List State) × (next' : List ℤ) × (visit_all states next nlist x current
          ≡ ok (states', next'))
        × IsVisited states' next next' [] current
  unfolding visit_all any
  visit_all_lem states next [] whole active waits entries = (
    states,
    next,
    refl,
    record { whole = whole; active = active; waits = waits; accepted = λ src. ground arith },
  )
  visit_all_lem states next (k ∷ current) whole active waits entries =
      let (states₁, next₁, run₁, first) =
        visit_entry states next current k whole active
          (entries k (ground (arith, (==ℤ_iff k k).1 refl))) waits in
      let (states₂, next₂, run₂, rest) =
        visit_all_lem states₁ next₁ current first.whole first.active first.waits
          (λ z inside. entries z (ground arith)) in
      (
        states₂,
        next₂,
        rw (run₁, ◌>>=◌) run₂,
        record {
          whole = rest.whole;
          active = rest.active;
          waits = rest.waits;
          accepted = λ src. ground (arith, first.accepted src, rest.accepted src);
        },
      )
