-- ===== src/MergeSortedLists/Chain.antt =====
-- The lists of mergeSortedLists/main.cpp on the heap: which nodes they have, in order.
use cpp_project.Prelude.{
  ℕ, zero, suc, ◌≤◌, ◌≡◌, ◌≢◌, ◌⊎◌, inl, inr, refl, ◌∙◌, List, [], ◌∷◌, Option, none, some,
  get_elem?, get_elem?-set, get_or, set, lt-length_of_get_elem?, ==_iff, arith,
}
use cpp_project.Run.{ok, ◌>>=◌, at-get_elem?, put-set}
use cpp_project.MergeSortedLists.{Node, Heap, live, load, link, link_tail}

-- A node: its number, and its data.
abbrev pub Entry : Type 0
Entry = ℕ × ℕ

abbrev pub head_of : List Entry → Option ℕ
head_of [] = none
head_of (e ∷ es) = some e.0

abbrev pub node_of : ℕ → Option ℕ → Node
node_of d q = record { data_of = d; next = q }

-- The nodes stand on the heap, each with the next one.
abbrev pub Chain : Heap → List Entry → Type 0
Chain heap [] = Unit
Chain heap ((a, d) ∷ es) = (get_elem? heap a ≡ some (some (node_of d (head_of es)))) × Chain heap es

abbrev pub NotIn : ℕ → List Entry → Type 0
NotIn x [] = Unit
NotIn x ((a, d) ∷ es) = (x ≢ a) × NotIn x es

abbrev pub Distinct : List Entry → Type 0
Distinct [] = Unit
Distinct ((a, d) ∷ es) = NotIn a es × Distinct es

abbrev pub Apart : List Entry → List Entry → Type 0
Apart xs ys = (x : ℕ) → NotIn x xs ⊎ NotIn x ys

-- The data do not fall, and are `lo` at least.
abbrev pub SortedFrom : ℕ → List Entry → Type 0
SortedFrom lo [] = Unit
SortedFrom lo ((a, d) ∷ es) = (lo ≤ d) × SortedFrom d es

pub load-Chain :
    (heap : Heap) (a d : ℕ) (q : Option ℕ)
    → get_elem? heap a ≡ some (some (node_of d q))
    → load heap a ≡ ok (node_of d q)
unfolding load live
load-Chain heap a d q there = rw (at-get_elem? heap a (some (node_of d q)) there, ◌>>=◌) refl

abbrev relink : Option Node → Option ℕ → Option Node
relink none q = none
relink (some node) q = some (node_of node.data_of q)

-- The heap after `tail->next = q`.
abbrev pub linked : Heap → Option ℕ → Option ℕ → Heap
linked heap none q = heap
linked heap (some t) q = set heap t (relink (get_or heap t none) q)

abbrev pub first_after : Option ℕ → Option ℕ → Option ℕ → Option ℕ
first_after first none q = q
first_after first (some t) q = first

-- The tail is `dummy`, or a node.
abbrev pub IsTail : Heap → Option ℕ → Type 0
IsTail heap none = Unit
IsTail heap (some t) = (d : ℕ) × (q : Option ℕ) × (get_elem? heap t ≡ some (some (node_of d q)))

abbrev pub Fresh : Option ℕ → List Entry → Type 0
Fresh none es = Unit
Fresh (some t) es = NotIn t es

get_or-some :
    {A : Type 0} (xs : List A) (i : ℕ) (x d : A) → get_elem? xs i ≡ some x → get_or xs i d ≡ x
get_or-some [] i x d there = absurd cc
get_or-some (y ∷ xs) zero x d there = cc
get_or-some (y ∷ xs) (suc i) x d there = get_or-some xs i x d there

pub link_lem :
    (heap : Heap) (t d : ℕ) (p q : Option ℕ)
    → get_elem? heap t ≡ some (some (node_of d p))
    → link heap t q ≡ ok (linked heap (some t) q)
unfolding link
link_lem heap t d p q there =
    rw
      (
        load-Chain heap t d p there,
        ◌>>=◌,
        put-set heap t (some (node_of d q)) (lt-length_of_get_elem? heap t _ there),
        get_or-some heap t (some (node_of d p)) none there,
      )
      refl

pub link_tail_lem :
    (heap : Heap) (first tail q : Option ℕ)
    → IsTail heap tail
    → link_tail heap first tail q ≡ ok (linked heap tail q, first_after first tail q)
unfolding link_tail
link_tail_lem heap first none q is = refl
link_tail_lem heap first (some t) q (d, p, there) = rw (link_lem heap t d p q there, ◌>>=◌) refl

-- Linking changes the tail only.
pub linked-other :
    (heap : Heap) (tail q : Option ℕ) (x : ℕ)
    → IsTail heap tail
    → ((t : ℕ) → tail ≡ some t → x ≢ t)
    → get_elem? (linked heap tail q) x ≡ get_elem? heap x
linked-other heap none q x is other = refl
linked-other heap (some t) q x (d, p, there) other = ground (
  arith,
  get_elem?-set heap t x (relink (get_or heap t none) q) (lt-length_of_get_elem? heap t _ there),
  other t refl,
)

pub linked-tail :
    (heap : Heap) (t d : ℕ) (p q : Option ℕ)
    → get_elem? heap t ≡ some (some (node_of d p))
    → get_elem? (linked heap (some t) q) t ≡ some (some (node_of d q))
linked-tail heap t d p q there =
    rw
      (
        get_or-some heap t (some (node_of d p)) none there,
        get_elem?-set heap t t (some (node_of d q)) (lt-length_of_get_elem? heap t _ there),
        (==_iff t t).1 refl,
      )
      refl

-- Nodes that did not change make the same list.
pub Chain-same :
    (heap heap' : Heap) (es : List Entry)
    → ((x : ℕ) → NotIn x es ⊎ (get_elem? heap' x ≡ get_elem? heap x))
    → Chain heap es
    → Chain heap' es
Chain-same heap heap' [] same chain = tt
Chain-same heap heap' ((a, d) ∷ es) same (there, chain) = (
  elim (same a) [ inl (fresh, others) ↦ absurd (fresh refl) | inr kept ↦ kept ∙ there ],
  Chain-same heap heap' es
      (λ x. elim (same x) [ inl (fresh, others) ↦ inl others | inr kept ↦ inr kept ]) chain,
)
