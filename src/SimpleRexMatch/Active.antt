-- ===== src/SimpleRexMatch/Active.antt =====
-- The list of active states and the marks on the states: a state is marked with a list's number
-- only if it is in the list. What putting a state into a list does.
use native.Mathlib.Nat.{add-zero, zero-add}
use mathlib.Core.Path.{subst}
use cpp_project.Prelude.{
  ℕ, zero, suc, ◌+◌, ◌≡◌, refl, ap, sym, ◌∙◌, ℤ, pos, ◌==ℤ◌, ==ℤ_iff, Bool, true, false, ◌||◌, ◌==◌,
  if◌then◌else◌, List, [], ◌∷◌, ◌++◌, map, append_assoc, arith, Bool-cases, inl, inr, some,
  get_elem?, set, holds_at, holds_at-set, holds_at-get_elem?, lt-length_of_get_elem?,
}
use cpp_project.Run.{ok, ◌>>=◌, at, at_int, put_int, at-get_elem?, put-set}
use cpp_project.SimpleRexMatch.{State, fresh, unmark, push_state}
use cpp_project.SimpleRexMatch.Reference.{Item, one, many}
use cpp_project.SimpleRexMatch.Layout.{
  total, layout, program, single, splitting, length-layout, layout-append, get_elem?-append,
}

unfoldable pub any : (ℤ → Bool) → List ℤ → Bool
any f [] = false
any f (k ∷ ks) = f k || any f ks

pub any-append : (f : ℤ → Bool) (xs ys : List ℤ) → any f (xs ++ ys) ≡ (any f xs || any f ys)
unfolding any
any-append f [] ys = refl
any-append f (x ∷ xs) ys = ground (arith, any-append f xs ys)

abbrev pub member : ℤ → List ℤ → Bool
member k list = any (λ y. y ==ℤ k) list

pub any_of_member :
    (f : ℤ → Bool) (list : List ℤ) (k : ℤ) → member k list ≡ true → f k ≡ true → any f list ≡ true
unfolding any
any_of_member f [] k inside holds = cc
any_of_member f (x ∷ list) k inside holds = elim (Bool-cases (x ==ℤ k)) [
  | inl e ↦ rw ((==ℤ_iff x k).0 e, holds) refl
  | inr e ↦ ground (arith, any_of_member f list k)
]

-- A state that meets a character: that of the first item that is left, or the state behind all.
abbrev pub entry : ℕ → List Item → ℕ
entry o [] = o
entry o (one c ∷ items) = o
entry o (many c ∷ items) = o + 1

abbrev pub entry_state : ℕ → List Item → State
entry_state o [] = fresh
entry_state o (one c ∷ items) = single c (pos (o + 1))
entry_state o (many c ∷ items) = single c (pos o)

abbrev pub head_state : ℕ → List Item → State
head_state o [] = fresh
head_state o (one c ∷ items) = single c (pos (o + 1))
head_state o (many c ∷ items) = splitting o (pos (o + 2))

behind :
    (pre rest : List Item) (i : ℕ)
    → get_elem? (program (pre ++ rest)) (total pre + i)
      ≡ get_elem? (layout (total pre) rest ++ fresh ∷ []) i
behind pre rest i =
    ap (λ l. get_elem? (l ++ fresh ∷ []) (total pre + i))
      (layout-append 0 pre rest ∙ ap (λ n. layout 0 pre ++ layout n rest) (zero-add (total pre)))
    ∙ ap (λ l. get_elem? l (total pre + i))
        (append_assoc (layout 0 pre) (layout (total pre) rest) (fresh ∷ []))
    ∙ ap (λ n. get_elem? (layout 0 pre ++ (layout (total pre) rest ++ fresh ∷ [])) (n + i))
        (sym (length-layout 0 pre))
    ∙ get_elem?-append (layout 0 pre) (layout (total pre) rest ++ fresh ∷ []) i

-- Where the states of what is left stand.
pub program-head :
    (pre rest : List Item)
    → get_elem? (program (pre ++ rest)) (total pre) ≡ some (head_state (total pre) rest)
program-head pre rest =
    ap (get_elem? (program (pre ++ rest))) (sym (add-zero (total pre)))
    ∙ behind pre rest 0
    ∙ here rest
  where
    here :
        (rest : List Item)
        → get_elem? (layout (total pre) rest ++ fresh ∷ []) 0 ≡ some (head_state (total pre) rest)
    here [] = refl
    here (one c ∷ rest) = refl
    here (many c ∷ rest) = refl

pub program-entry :
    (pre rest : List Item)
    → get_elem? (program (pre ++ rest)) (entry (total pre) rest)
      ≡ some (entry_state (total pre) rest)
program-entry pre [] = program-head pre []
program-entry pre (one c ∷ rest) = program-head pre (one c ∷ rest)
program-entry pre (many c ∷ rest) = behind pre (many c ∷ rest) 1

module _ {ℓ κ} {A : Type ℓ} {B : Type κ} (f : A → B) where
  get_elem?_of_map :
      (xs : List A) (i : ℕ) (p : B)
      → get_elem? (map f xs) i ≡ some p
      → (x : A) × (get_elem? xs i ≡ some x) × (f x ≡ p)
  get_elem?_of_map [] i p e = cc
  get_elem?_of_map (x ∷ xs) zero p e = (x, refl, cc)
  get_elem?_of_map (x ∷ xs) (suc i) p e = get_elem?_of_map xs i p e

  -- A write that the map does not see.
  pub map-set :
      (xs : List A) (i : ℕ) (x y : A)
      → get_elem? xs i ≡ some x
      → f y ≡ f x
      → map f (set xs i y) ≡ map f xs
  map-set [] i x y at same = refl
  map-set (z ∷ xs) zero x y at same = cc
  map-set (z ∷ xs) (suc i) x y at same = ap (◌∷◌ (f z)) (map-set xs i x y at same)

abbrev pub has_mark : ℤ → State → Bool
has_mark number s = s.last_list ==ℤ number

module _ (items : List Item) where
  abbrev pub HasProgram : List State → Type 0
  HasProgram states = map unmark states ≡ program items

  pub record IsEntry (k : ℤ) : Type 0 where
    pub pre : List Item
    pub rest : List Item
    pub parts : items ≡ pre ++ rest
    pub place : k ≡ pos (entry (total pre) rest)

  pub record IsActive (number : ℤ) (states : List State) (list : List ℤ) : Type 0 where
    pub entries : (k : ℤ) → member k list ≡ true → IsEntry k
    pub marked : (k : ℕ) → holds_at (has_mark number) states k ≡ true → member (pos k) list ≡ true

  -- What a call adds to the list of the number: other marks are only taken away.
  pub record IsGrown (number : ℤ) (states states' : List State) (list list' added : List ℤ)
      : Type 0 where
    pub whole : HasProgram states'
    pub active : IsActive number states' list'
    pub others :
        (l : ℤ) (k : ℕ)
        → (number ==ℤ l) ≡ false
        → holds_at (has_mark l) states' k ≡ true
        → holds_at (has_mark l) states k ≡ true
    pub any_list : (f : ℤ → Bool) → any f list' ≡ (any f list || any f added)

  -- A state of the vector has the fields of the state of the program.
  pub state_at :
      (states : List State) (k : ℕ) (p : State)
      → HasProgram states
      → get_elem? (program items) k ≡ some p
      → (s : State) × (get_elem? states k ≡ some s) × (unmark s ≡ p)
  state_at states k p whole at =
      get_elem?_of_map unmark states k p (ap (λ l. get_elem? l k) whole ∙ at)

  unmark-marked : (s : State) (l : ℤ) → unmark (record s { last_list = l }) ≡ unmark s
  unfolding unmark
  unmark-marked s l = refl

  -- A state that is not in the list is put there.
  module _ (number : ℤ) (states : List State) (list : List ℤ) (k : ℕ) (s : State)
      (whole : HasProgram states) (active : IsActive number states list)
      (is_entry : IsEntry (pos k)) (at_s : get_elem? states k ≡ some s) where
    abbrev pushed : List State
    pushed = set states k (record s { last_list = number })

    holds_at-pushed :
        (l : ℤ) (j : ℕ)
        → holds_at (has_mark l) pushed j
          ≡ (if k == j then number ==ℤ l else holds_at (has_mark l) states j)
    holds_at-pushed l j =
        holds_at-set (has_mark l) states k j (record s { last_list = number })
          (lt-length_of_get_elem? states k s at_s)

    entries_pushed : (z : ℤ) → member z (list ++ pos k ∷ []) ≡ true → IsEntry z
    unfolding any
    entries_pushed z inside = elim (Bool-cases (member z list)) [
      | inl old ↦ active.entries z old
      | inr new ↦
          subst IsEntry
            ((==ℤ_iff (pos k) z).0 (ground (arith, any-append (λ y. y ==ℤ z) list (pos k ∷ []))))
            is_entry
    ]

    marked_pushed :
        (j : ℕ)
        → holds_at (has_mark number) pushed j ≡ true
        → member (pos j) (list ++ pos k ∷ []) ≡ true
    unfolding any
    marked_pushed j holds = ground (
      arith,
      any-append (λ y. y ==ℤ pos j) list (pos k ∷ []),
      holds_at-pushed number j,
      active.marked j,
    )

    pushed-IsGrown : IsGrown number states pushed list (list ++ pos k ∷ []) (pos k ∷ [])
    pushed-IsGrown = record {
      whole =
          map-set unmark states k s (record s { last_list = number }) at_s (unmark-marked s number)
          ∙ whole;
      active = record { entries = entries_pushed; marked = marked_pushed };
      others = λ l j other holds. ground (arith, holds_at-pushed l j);
      any_list = λ f. any-append f list (pos k ∷ []);
    }

    kept-IsGrown :
        (s.last_list ==ℤ number) ≡ true → IsGrown number states states list list (pos k ∷ [])
    unfolding any
    kept-IsGrown same = record {
      whole = whole;
      active = active;
      others = λ l j other holds. holds;
      any_list = λ f. ground (
        arith,
        any_of_member f list (pos k)
            (active.marked k (holds_at-get_elem? (has_mark number) states k s at_s ∙ same)),
      );
    }

    pub push_state_lem :
        (states' : List State) × (list' : List ℤ) × (push_state states list number (pos k)
          ≡ ok (states', list'))
        × IsGrown number states states' list list' (pos k ∷ [])
    unfolding push_state at_int put_int
    push_state_lem = elim (Bool-cases (s.last_list ==ℤ number)) [
      | inl same ↦ (states, list, rw (at-get_elem? states k s at_s, ◌>>=◌, same), kept-IsGrown same)
      | inr other ↦ (
        pushed,
        list ++ pos k ∷ [],
        rw (
          at-get_elem? states k s at_s,
          ◌>>=◌,
          other,
          put-set states k (record s { last_list = number })
              (lt-length_of_get_elem? states k s at_s),
        ),
        pushed-IsGrown,
      )
    ]

  -- One addition after another.
  pub IsGrown-trans :
      {number : ℤ} {states₁ states₂ states₃ : List State} {list₁ list₂ list₃ xs ys : List ℤ}
      → IsGrown number states₁ states₂ list₁ list₂ xs
      → IsGrown number states₂ states₃ list₂ list₃ ys
      → IsGrown number states₁ states₃ list₁ list₃ (xs ++ ys)
  IsGrown-trans {xs} {ys} first second = record {
    whole = second.whole;
    active = second.active;
    others = λ l k other holds. first.others l k other (second.others l k other holds);
    any_list = λ f. ground (arith, first.any_list f, second.any_list f, any-append f xs ys);
  }
