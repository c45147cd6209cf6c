-- ===== src/SimpleRexMatch/Layout.antt =====
-- How the states of a pattern lie in the vector, and that the constructor makes them so.
use native.Mathlib.Nat.{zero-add, add-zero}
use cpp_project.Prelude.{
  ℕ, zero, suc, ◌+◌, ◌≤◌, ◌<◌, ◌≡◌, refl, ap, sym, ℤ, pos, negsuc, minus_one, ◌==ℤ◌, Bool, true,
  false, List, [], ◌∷◌, ◌++◌, append-nil, append_assoc, arith, length, length-append, drop,
  Bool-cases, inl, inr, if◌then◌else◌, get_elem?,
}
use cpp_project.Run.{at-append, put-append, ok, ◌>>=◌, at_int, put_int}
use cpp_project.SimpleRexMatch.{
  State, fresh, split, star, is_starred, added_states, set_way_out, construct_loop, add_last,
  construct,
}
use cpp_project.SimpleRexMatch.Reference.{Item, one, many, parse}

-- A `char`, from -128 to 127.
abbrev pub IsChar : ℤ → Type 0
IsChar (pos n) = n < 128
IsChar (negsuc n) = n < 128

abbrev pub AreChars : List ℤ → Type 0
AreChars [] = Unit
AreChars (c ∷ rest) = IsChar c × AreChars rest

-- The character of an item is not taken for a split.
abbrev pub IsPlain : Item → Type 0
IsPlain (one c) = (c ==ℤ split) ≡ false
IsPlain (many c) = (c ==ℤ split) ≡ false

abbrev pub ArePlain : List Item → Type 0
ArePlain [] = Unit
ArePlain (item ∷ items) = IsPlain item × ArePlain items

abbrev pub width : Item → ℕ
width (one c) = 1
width (many c) = 2

abbrev pub total : List Item → ℕ
total [] = 0
total (item ∷ items) = width item + total items

abbrev pub single : ℤ → ℤ → State
single c next = record { c = c; out = next; out1 = minus_one; last_list = minus_one }

abbrev pub splitting : ℕ → ℤ → State
splitting o next = record { c = split; out = pos (o + 1); out1 = next; last_list = minus_one }

-- The states of an item at `o`, with the way out of it.
abbrev pub item_states : ℕ → Item → ℤ → List State
item_states o (one c) next = single c next ∷ []
item_states o (many c) next = splitting o next ∷ single c (pos o) ∷ []

abbrev pub layout : ℕ → List Item → List State
layout o [] = []
layout o (item ∷ items) = item_states o item (pos (o + width item)) ++ layout (o + width item) items

abbrev pub program : List Item → List State
program items = layout 0 items ++ fresh ∷ []

pub length-item_states :
    (o : ℕ) (item : Item) (next : ℤ) → length (item_states o item next) ≡ width item
length-item_states o (one c) next = refl
length-item_states o (many c) next = refl

pub length-layout : (o : ℕ) (items : List Item) → length (layout o items) ≡ total items
length-layout o [] = refl
length-layout o (item ∷ items) = omega (
  arith,
  length-append (item_states o item (pos (o + width item))) (layout (o + width item) items),
  length-item_states o item (pos (o + width item)),
  length-layout (o + width item) items,
)

pub total-append : (xs ys : List Item) → total (xs ++ ys) ≡ total xs + total ys
total-append [] ys = omega arith
total-append (x ∷ xs) ys = omega (arith, total-append xs ys)

pub layout-append :
    (o : ℕ) (xs ys : List Item) → layout o (xs ++ ys) ≡ layout o xs ++ layout (o + total xs) ys
layout-append o [] ys = ap (λ n. layout n ys) (sym (add-zero o))
layout-append o (x ∷ xs) ys =
    let shift : o + width x + total xs ≡ o + (width x + total xs) = omega arith in
    rw (layout-append (o + width x) xs ys, shift)
      (sym (append_assoc (item_states o x _) (layout (o + width x) xs) _))

-- Reading and writing behind a prefix.
pub get_elem?-append {ℓ} :
    {A : Type ℓ} (xs ys : List A) (i : ℕ) → get_elem? (xs ++ ys) (length xs + i) ≡ get_elem? ys i
get_elem?-append [] ys i = ap (get_elem? ys) (zero-add i)
get_elem?-append (x ∷ xs) ys i =
    let shift : suc (length xs) + i ≡ suc (length xs + i) = omega arith in
    rw shift (get_elem?-append xs ys i)

-- The way out of the item at the end is set.
set_way_out-item :
    (xs : List State) (item : Item) (ys : List State) (v : ℕ)
    → IsPlain item
    → set_way_out (xs ++ (item_states (length xs) item minus_one ++ ys)) (pos (length xs)) v
      ≡ ok (xs ++ (item_states (length xs) item (pos v) ++ ys))
unfolding set_way_out at_int put_int
set_way_out-item xs (one c) ys v plain =
    rw (at-append xs ys (single c minus_one), ◌>>=◌, plain)
      (put-append xs ys (single c minus_one) (single c (pos v)))
set_way_out-item xs (many c) ys v plain =
    let rest = single c (pos (length xs)) ∷ ys in
    rw (at-append xs rest (splitting (length xs) minus_one))
      (put-append xs rest (splitting (length xs) minus_one) (splitting (length xs) (pos v)))

-- What the constructor takes from the pattern in a round.
abbrev first_item : ℤ → Bool → Item
first_item c true = many c
first_item c false = one c

abbrev rest_of : Bool → List ℤ → List ℤ
rest_of b rest = if b then drop 1 rest else rest

added_states-item :
    (size : ℕ) (c : ℤ) (b : Bool)
    → added_states size c b ≡ item_states size (first_item c b) minus_one
unfolding added_states
added_states-item size c true = refl
added_states-item size c false = refl

parse_cons :
    (c : ℤ) (rest : List ℤ)
    → parse (c ∷ rest) ≡ first_item c (is_starred rest) ∷ parse (rest_of (is_starred rest) rest)
unfolding parse
parse_cons c [] = refl
parse_cons c (d ∷ rest) = elim (Bool-cases (d ==ℤ star)) [
  | inl e ↦ rw (parse, e)
  | inr e ↦ rw (parse, e)
]

IsChar-plain : (c : ℤ) → IsChar c → (c ==ℤ split) ≡ false
IsChar-plain (pos n) h = ground arith
IsChar-plain (negsuc n) h = refl

first_item-IsPlain : (c : ℤ) (b : Bool) → IsChar c → IsPlain (first_item c b)
first_item-IsPlain c true h = IsChar-plain c h
first_item-IsPlain c false h = IsChar-plain c h

rest_of-AreChars : (b : Bool) (rest : List ℤ) → AreChars rest → AreChars (rest_of b rest)
rest_of-AreChars true [] h = tt
rest_of-AreChars true (c ∷ rest) h = h.1
rest_of-AreChars false rest h = h

length-rest_of : (b : Bool) (rest : List ℤ) → length (rest_of b rest) ≤ length rest
length-rest_of true [] = omega arith
length-rest_of true (c ∷ rest) = omega arith
length-rest_of false rest = omega arith

-- The item before gets its way out to what is put behind.
linked :
    (pre : List Item) (item : Item) (ys : List State)
    → IsPlain item
    → set_way_out
        ((layout 0 pre ++ item_states (total pre) item minus_one) ++ ys)
        (pos (total pre))
        (length (layout 0 pre ++ item_states (total pre) item minus_one))
      ≡ ok (layout 0 (pre ++ item ∷ []) ++ ys)
linked pre item ys plain =
    let xs = layout 0 pre in
    let size : length xs ≡ total pre = length-layout 0 pre in
    let whole : length (xs ++ item_states (total pre) item minus_one) ≡ 0 + total pre + width item =
      omega (
        arith,
        length-append xs (item_states (total pre) item minus_one),
        size,
        length-item_states (total pre) item minus_one,
      ) in
    rw
      (
        append_assoc xs (item_states (total pre) item minus_one) ys,
        whole,
        layout-append 0 pre (item ∷ []),
        append_assoc xs (layout (0 + total pre) (item ∷ [])) ys,
        append-nil,
        zero-add,
        ← size,
      )
      (set_way_out-item xs item ys (length xs + width item) plain)

size_after :
    (pre : List Item) (item : Item)
    → length (layout 0 pre ++ item_states (total pre) item minus_one) ≡ total (pre ++ item ∷ [])
size_after pre item = omega (
  arith,
  length-append (layout 0 pre) (item_states (total pre) item minus_one),
  length-layout 0 pre,
  length-item_states (total pre) item minus_one,
  total-append pre (item ∷ []),
)

add_last_lem :
    (pre : List Item) (item : Item)
    → IsPlain item
    → add_last (layout 0 pre ++ item_states (total pre) item minus_one, pos (total pre))
      ≡ ok (record {
        states = program (pre ++ item ∷ []);
        last_state = pos (total (pre ++ item ∷ []));
      })
unfolding add_last
add_last_lem pre item plain = rw (linked pre item (fresh ∷ []) plain, ◌>>=◌, size_after pre item)

-- From a round on, and what comes behind the loop.
construct_loop_lem :
    (fuel : ℕ) (ptn : List ℤ) (pre : List Item) (item : Item)
    → AreChars ptn
    → IsPlain item
    → length ptn < fuel
    → (construct_loop fuel ptn
          (layout 0 pre ++ item_states (total pre) item minus_one)
          (pos (total pre))
        >>= add_last)
      ≡ ok (record {
        states = program (pre ++ item ∷ parse ptn);
        last_state = pos (total (pre ++ item ∷ parse ptn));
      })
unfolding construct_loop parse
construct_loop_lem zero ptn pre item chars plain enough = absurd (omega arith)
construct_loop_lem (suc fuel) [] pre item chars plain enough = add_last_lem pre item plain
construct_loop_lem (suc fuel) (c ∷ rest) pre item chars plain enough =
    let b = is_starred rest in
    let next = first_item c b in
    let size = size_after pre item in
    let states = layout 0 pre ++ item_states (total pre) item minus_one in
    rw
      (
        construct_loop,
        added_states-item (length states) c b,
        linked pre item (item_states (length states) next minus_one) plain,
        ◌>>=◌,
        size,
        parse_cons c rest,
        ← append_assoc pre (item ∷ []) (next ∷ parse (rest_of b rest)),
      )
      (construct_loop_lem fuel (rest_of b rest) (pre ++ item ∷ []) next
        (rest_of-AreChars b rest chars.1) (first_item-IsPlain c b chars.0)
        (omega (arith, length-rest_of b rest)))

pub construct_lem :
    (ptn : List ℤ)
    → AreChars ptn
    → construct ptn
      ≡ ok (record { states = program (parse ptn); last_state = pos (total (parse ptn)) })
unfolding construct construct_loop add_last set_way_out parse
construct_lem [] chars = refl
construct_lem (c ∷ rest) chars =
    let b = is_starred rest in
    rw (added_states-item 0 c b, parse_cons c rest)
      (construct_loop_lem (suc (length rest)) (rest_of b rest) [] (first_item c b)
        (rest_of-AreChars b rest chars.1) (first_item-IsPlain c b chars.0)
        (omega (arith, length-rest_of b rest)))

-- The items of a pattern of `char`s are plain.
pub parse-ArePlain : (ptn : List ℤ) → AreChars ptn → ArePlain (parse ptn)
unfolding parse
parse-ArePlain [] chars = tt
parse-ArePlain (c ∷ []) chars = (IsChar-plain c chars.0, tt)
parse-ArePlain (c ∷ d ∷ rest) chars = elim (Bool-cases (d ==ℤ star)) [
  | inl e ↦ rw e (IsChar-plain c chars.0, parse-ArePlain rest chars.1.1)
  | inr e ↦ rw e (IsChar-plain c chars.0, parse-ArePlain (d ∷ rest) chars.1)
]
