-- ===== src/MergeSortedLists.antt =====
-- mergeSortedLists/main.cpp: linked lists on a heap. A pointer is the number of its node, in the
-- order in which nodes were made, or none; a deleted node is none. An `int` is its value plus
-- 2 ^ 31, which keeps the order. The node on the stack, `dummy`, is its pointer alone.
pub mod Chain
pub mod Merge
use cpp_project.Prelude.{
  ℕ, zero, suc, ◌+◌, ◌≡◌, Bool, true, false, List, [], ◌∷◌, ◌++◌, length, Option, none, some, ltb,
  leb, if◌then◌else◌, ◌&&◌,
}
use cpp_project.Run.{Run, ok, fault, out_of_bounds, diverges, ◌>>=◌, at, put}

pub record Node : Type 0 where
  pub data_of : ℕ
  pub next : Option ℕ

abbrev pub Heap : Type 0
Heap = List (Option Node)

-- `p->data` and `p->next`
unfoldable pub live : Option Node → Run Node
live none = fault out_of_bounds
live (some node) = ok node

unfoldable pub load : Heap → ℕ → Run Node
unfolding at live
load heap p = do node ← at heap p; live node

-- `p->next = q`
unfoldable pub link : Heap → ℕ → Option ℕ → Run Heap
unfolding load put
link heap p q = do node ← load heap p; put heap p (some (record node { next = q }))

-- `tail->next = q`, where no tail is `dummy`: the heap, and `dummy.next`.
unfoldable pub link_tail : Heap → Option ℕ → Option ℕ → Option ℕ → Run (Heap × Option ℕ)
unfolding link
link_tail heap first none q = ok (heap, q)
link_tail heap first (some tail) q = do heap' ← link heap tail q; ok (heap', first)

-- `min`, and `h1` and `h2` after it was taken.
unfoldable pub pick : Node → Node → ℕ → ℕ → ℕ × Option ℕ × Option ℕ
pick node1 node2 h1 h2 =
    if ltb node1.data_of node2.data_of then (h1, node1.next, some h2) else (h2, some h1, node2.next)

-- The loop, where `h1` and `h2` are no null pointers.
unfoldable pub merge_loop : ℕ → Heap → Option ℕ → Option ℕ → ℕ → ℕ → Run (Heap × Option ℕ)
unfolding load link_tail link
merge_loop zero heap first tail h1 h2 = fault diverges
merge_loop (suc fuel) heap first tail h1 h2 = do
  node1 ← load heap h1
  node2 ← load heap h2
  let picked = pick node1 node2 h1 h2
  linked ← link_tail heap first tail (some picked.0)
  elim picked.1 [
    | none ↦ do heap' ← link linked.0 picked.0 picked.2; ok (heap', linked.1)
    | some p1 ↦ elim picked.2 [
      | none ↦ do heap' ← link linked.0 picked.0 (some p1); ok (heap', linked.1)
      | some p2 ↦ merge_loop fuel linked.0 linked.1 (some picked.0) p1 p2
    ]
  ]

unfoldable pub merge_sorted_lists : ℕ → Heap → Option ℕ → Option ℕ → Run (Heap × Option ℕ)
unfolding merge_loop
merge_sorted_lists fuel heap none h2 = ok (heap, h2)
merge_sorted_lists fuel heap (some h1) none = ok (heap, some h1)
merge_sorted_lists fuel heap (some h1) (some h2) = merge_loop fuel heap none none h1 h2

-- `new Node(d)`
unfoldable pub new_node : Heap → ℕ → Heap × ℕ
new_node heap d = (heap ++ some (record { data_of = d; next = none }) ∷ [], length heap)

unfoldable pub construct_loop : List ℕ → Heap → Option ℕ → Option ℕ → Run (Heap × Option ℕ)
unfolding new_node link_tail
construct_loop [] heap first tail = ok (heap, first)
construct_loop (d ∷ datas) heap first tail = do
  let made = new_node heap d
  linked ← link_tail made.0 first tail (some made.1)
  construct_loop datas linked.0 linked.1 (some made.1)

unfoldable pub construct_list : List ℕ → Heap → Run (Heap × Option ℕ)
unfolding construct_loop
construct_list datas heap = construct_loop datas heap none none

-- What `printList` prints.
unfoldable pub print_list : ℕ → Heap → Option ℕ → Run (List ℕ)
unfolding load
print_list zero heap h = fault diverges
print_list (suc fuel) heap none = ok []
print_list (suc fuel) heap (some p) = do
  node ← load heap p
  rest ← print_list fuel heap node.next
  ok (node.data_of ∷ rest)

unfoldable pub deconstruct_list : ℕ → Heap → Option ℕ → Run Heap
unfolding load put
deconstruct_list zero heap h = fault diverges
deconstruct_list (suc fuel) heap none = ok heap
deconstruct_list (suc fuel) heap (some p) = do
  node ← load heap p
  heap' ← put heap p none
  deconstruct_list fuel heap' node.next
