-- ===== src/SimpleRexMatch/Matching.antt =====
-- The automaton of a pattern decides what the pattern means.
use cpp_project.Prelude.{
  ℕ, zero, suc, ◌+◌, ◌≡◌, refl, ap, sym, ◌∙◌, ℤ, pos, ◌==ℤ◌, ==ℤ_iff, Bool, true, false, ◌||◌, ◌==◌,
  List, [], ◌∷◌, ◌++◌, map, arith, length, length-map, holds_at, ◌≢◌,
}
use mathlib.Core.Bool.{false≢true}
use cpp_project.Run.{Run, ok, ◌>>=◌}
use cpp_project.SimpleRexMatch.{
  State, Nfa, fresh, unmark, reset_marks, construct, match_loop, has_state, is_matched,
}
use cpp_project.SimpleRexMatch.Reference.{Item, one, many, parse, matches}
use cpp_project.SimpleRexMatch.Layout.{
  total, program, total-append, AreChars, ArePlain, construct_lem, parse-ArePlain, layout, single,
  splitting,
}
use cpp_project.SimpleRexMatch.Active.{any, member, entry, has_mark, HasProgram, IsActive, IsEntry}
use cpp_project.SimpleRexMatch.Closure.{
  add_state_lem, awaits, accepts, accepts_lem, matches-closure,
}
use cpp_project.SimpleRexMatch.Follow.{IsPair, Waits, length-rest}
use cpp_project.SimpleRexMatch.Rounds.{visit_all_lem}

-- At the end of the text only the last state accepts.
awaits-end :
    (pre rest : List Item) → awaits rest [] ≡ (entry (total pre) rest == total (pre ++ rest))
unfolding awaits matches
awaits-end pre [] = ground (arith, total-append pre [])
awaits-end pre (one c ∷ rest) = ground (arith, total-append pre (one c ∷ rest))
awaits-end pre (many c ∷ rest) = ground (arith, total-append pre (many c ∷ rest))

not_member : (k : ℤ) → member k [] ≢ true
unfolding any
not_member k e = false≢true e

from_nothing :
    (f : ℤ → Bool) (next : List ℤ) (b : Bool) → any f next ≡ (any f [] || b) → any f next ≡ b
unfolding any
from_nothing f next b e = e

module _ (items : List Item) (plain : ArePlain items) where
  has_state_lem :
      (current : List ℤ)
      → ((k : ℤ) → member k current ≡ true → IsEntry items k)
      → has_state (pos (total items)) current ≡ any (accepts items []) current
  unfolding has_state any
  has_state_lem [] entries = refl
  has_state_lem (k ∷ current) entries =
      let e = entries k (ground (arith, (==ℤ_iff k k).1 refl)) in
      let here : (k ==ℤ pos (total items)) ≡ accepts items [] k =
        ap (λ z. z ==ℤ pos (total items)) e.place
        ∙ ap (λ l. entry (total e.pre) e.rest == total l) e.parts
        ∙ sym (awaits-end e.pre e.rest)
        ∙ sym (accepts_lem [] items e.pre e.rest e.parts)
        ∙ ap (accepts items []) (sym e.place) in
      ground (arith, here, has_state_lem current (λ z inside. entries z (ground arith)))

  -- A round without a state left is the last one.
  go_on :
      (src : List ℤ) (clist nlist : ℤ) (states' : List State) (next : List ℤ) (f : ℤ → Bool)
      (b : Bool)
      → HasProgram items states'
      → any f next ≡ b
      → (states'' : List State) × (match_loop src states' next nlist clist (pos (total items))
          ≡ ok (states'', any f next))
        × HasProgram items states''
      → (states'' : List State) × ((elim next as (λ _. Run (List State × Bool)) [
        | [] ↦ ok (states', false)
        | state ∷ rest ↦ match_loop src states' next nlist clist (pos (total items))
      ])
          ≡ ok (states'', b))
        × HasProgram items states''
  unfolding any
  go_on src clist nlist states' [] f b whole e rest = (states', ap (λ b. ok (states', b)) e, whole)
  go_on src clist nlist states' (k ∷ next) f b whole e (states'', run, whole') =
      (states'', run ∙ ap (λ b. ok (states'', b)) e, whole')

  match_loop_lem :
      (src : List ℤ) (clist nlist : ℤ) (states : List State) (current : List ℤ)
      → IsPair clist nlist
      → IsPair nlist clist
      → HasProgram items states
      → IsActive items clist states current
      → Waits items plain nlist states []
      → (states' : List State) × (match_loop src states current clist nlist (pos (total items))
          ≡ ok (states', any (accepts items src) current))
        × HasProgram items states'
  unfolding match_loop
  match_loop_lem [] clist nlist states current pair pair' whole active waits =
      (states, ap (λ b. ok (states, b)) (has_state_lem current active.entries), whole)
  match_loop_lem (c ∷ src) clist nlist states current pair pair' whole active waits =
      let (states', next, run, visited) =
        visit_all_lem items plain clist nlist c pair states [] current whole
          (record { entries = λ k inside. absurd (not_member k inside); marked = waits })
          active.marked active.entries in
      let (states'', run', whole') =
        go_on src clist nlist states' next (accepts items src)
          (any (accepts items (c ∷ src)) current) visited.whole
          (from_nothing (accepts items src) next _ (visited.accepted src))
          (match_loop_lem src nlist clist states' next pair' pair visited.whole visited.active
            visited.waits) in
      (states'', rw (run, ◌>>=◌) run', whole')

-- What the constructor makes, and a call leaves.
pub record IsNfa (items : List Item) (nfa : Nfa) : Type 0 where
  pub whole : HasProgram items nfa.states
  pub last : nfa.last_state ≡ pos (total items)

unmark-unmark : (states : List State) → map unmark (map unmark states) ≡ map unmark states
unfolding unmark
unmark-unmark [] = refl
unmark-unmark (s ∷ states) = ap (◌∷◌ (unmark s)) (unmark-unmark states)

no_mark :
    (n j : ℕ) (states : List State) → holds_at (has_mark (pos n)) (map unmark states) j ≡ false
unfolding unmark
no_mark n j [] = refl
no_mark n zero (s ∷ states) = refl
no_mark n (suc j) (s ∷ states) = no_mark n j states

layout-unmarked :
    (o : ℕ) (items : List Item)
    → map unmark (layout o items ++ fresh ∷ []) ≡ layout o items ++ fresh ∷ []
unfolding unmark
layout-unmarked o [] = refl
layout-unmarked o (one c ∷ items) =
    ap (◌∷◌ (single c (pos (o + 1)))) (layout-unmarked (o + 1) items)
layout-unmarked o (many c ∷ items) =
    ap (λ l. splitting o (pos (o + 2)) ∷ single c (pos o) ∷ l) (layout-unmarked (o + 2) items)

is_matched_lem :
    (items : List Item) (plain : ArePlain items) (nfa : Nfa) (src : List ℤ)
    → IsNfa items nfa
    → (nfa' : Nfa) × (is_matched nfa src ≡ ok (nfa', matches items src)) × IsNfa items nfa'
unfolding is_matched reset_marks
is_matched_lem items plain nfa src made =
    let whole = unmark-unmark nfa.states ∙ made.whole in
    let fresh_marks =
      λ (n j : ℕ) (holds : holds_at (has_mark (pos n)) (map unmark nfa.states) j ≡ true).
        false≢true (sym (no_mark n j nfa.states) ∙ holds) in
    let (states₁, list₁, run₁, grown) =
      add_state_lem items (pos 0) (suc (length nfa.states)) (map unmark nfa.states) [] [] items
        whole
        (record {
          entries = λ k inside. absurd (not_member k inside);
          marked = λ k holds. absurd (fresh_marks 0 k holds);
        })
        refl plain
        (omega (
          arith,
          length-rest items plain (map unmark nfa.states) [] items whole refl,
          length-map unmark nfa.states,
        )) in
    let (states₂, run₂, whole₂) =
      match_loop_lem items plain src (pos 0) (pos 1) states₁ list₁
        (record { apart = refl; none_current = refl; none_next = refl })
        (record { apart = refl; none_current = refl; none_next = refl }) grown.whole grown.active
        (λ j holds. absurd (fresh_marks 1 j (grown.others (pos 1) j refl holds))) in
    (
      record { states = states₂; last_state = nfa.last_state },
      rw (
        run₁,
        ◌>>=◌,
        made.last,
        run₂,
        from_nothing _ list₁ _ (grown.any_list (accepts items src)),
        matches-closure src items [] items refl,
      ),
      record { whole = whole₂; last = made.last },
    )

-- A test of one text after another with the same automaton.
pub match_each : Nfa → List (List ℤ) → Run (List Bool)
match_each nfa [] = ok []
match_each nfa (src ∷ texts) = do
  r ← is_matched nfa src
  rest ← match_each r.0 texts
  ok (r.1 ∷ rest)

match_each_lem :
    (items : List Item)
    → ArePlain items
    → (texts : List (List ℤ)) (nfa : Nfa) → IsNfa items nfa
    → match_each nfa texts ≡ ok (map (matches items) texts)
unfolding match_each
match_each_lem items plain [] nfa made = refl
match_each_lem items plain (src ∷ texts) nfa made =
    let (nfa', run, made') = is_matched_lem items plain nfa src made in
    rw (run, ◌>>=◌, match_each_lem items plain texts nfa' made')

-- For a pattern whose characters are `char`s, the constructor ends without a fault, and so does
-- every test of a text afterwards, in any number and order. A test returns true just where the
-- text is what the pattern means: each character of the pattern meets one of the text, or any
-- number of them before '*'; it meets itself, and '.' meets all.
pub match_each-construct :
    (ptn : List ℤ) (texts : List (List ℤ))
    → AreChars ptn
    → (construct ptn >>= λ nfa. match_each nfa texts) ≡ ok (map (matches (parse ptn)) texts)
match_each-construct ptn texts chars =
    let nfa : Nfa = record { states = program (parse ptn); last_state = pos (total (parse ptn)) } in
    rw (construct_lem ptn chars, ◌>>=◌)
      (match_each_lem (parse ptn) (parse-ArePlain ptn chars) texts nfa
        (record { whole = layout-unmarked 0 (parse ptn); last = refl }))
