-- ===== src/Tests/ProxyTests.antt =====
-- The stores of cannon_proxy/ run with a map as a list, and the witnesses of their theorems.
use cpp_project.Prelude.{
  ◌↔◌, map, get_or, ℕ, ◌+◌, ◌-◌, ◌%◌, ◌^◌, ◌<◌, ◌≡◌, refl, Bool, true, false, List, [], ◌∷◌, Option,
  none, some, length, ◌==◌, if◌then◌else◌, arith,
}
use cpp_project.Run.{ok}
use cpp_project.CannonProxy.KeyMap.{KeyMap}
use cpp_project.CannonProxy.Store
use cpp_project.CannonProxy.Store.{Stores, init}
use cpp_project.CannonProxy.Store.Laws.{
  same_store, get_index-next, held, absent, or_else, insert-held,
}
use cpp_project.CannonProxy.StoreServer.{
  ItemStatus, Status, CannonKv, CannonResponse, get, insert, clear_data,
}
use cpp_project.CannonProxy.StoreServer.Batches.{
  first, all_new, as_item, insert-batch, get-held, get-insert_clear,
}
use cpp_project.CannonProxy.Service
use cpp_project.CannonProxy.Inserts
use cpp_project.CannonProxy.Inserts.Shares.{dealt_kvs}
use cpp_project.CannonProxy.Inserts.Merged.{insert-merged}
use cpp_project.CannonProxy.Service.Written.{member}
use cpp_project.CannonProxy.Service.Expected.{answers_of, all_held, held_for}
use cpp_project.CannonProxy.Service.Answers.{get-merged}

find_in : List (ℕ × ℕ) → ℕ → Option ℕ
find_in [] k = none
find_in (kv ∷ m) k = if kv.0 == k then some kv.1 else find_in m k

insert_in : List (ℕ × ℕ) → ℕ → ℕ → List (ℕ × ℕ) × Bool
unfolding find_in
insert_in m k v = elim (find_in m k) [ none ↦ ((k, v) ∷ m, true) | some w ↦ (m, false) ]

abbrev pub list_map : KeyMap ℕ
unfolding find_in insert_in
list_map = record {
  Map = List (ℕ × ℕ);
  empty = [];
  size = length;
  find = find_in;
  insert = insert_in;
  size-empty = refl;
  find-empty = λ k. refl;
  insert_present = λ m k v w e. rw (insert_in, e) refl;
  insert_absent = λ m k v e. rw (insert_in, e) refl;
  find-insert = λ m k v e j. rw (insert_in, e) refl;
  size-insert = λ m k v e. rw (insert_in, e) (omega arith);
}

-- Version 0 holds 50 for the key 5, and version 1 holds nothing.
abbrev served : Stores list_map
unfolding insert_in find_in init Store.insert
served = (Store.insert list_map (init list_map) 5 50 0).0

abbrev batch : List (CannonKv ℕ)
batch = record { key = 5; value = 51 } ∷ record { key = 6; value = 60 } ∷ []

abbrev no_response : CannonResponse ℕ
no_response = record { status = Status.error; values = [] }

served-held : held list_map served 0 5 ≡ some 50
unfolding held insert_in find_in init Store.insert
served-held = refl

fresh_batch : (insert list_map (clear_data list_map served 1).0 batch 1).1 ≡ true
unfolding insert clear_data insert_in find_in init
fresh_batch = refl

insert-held_example :
    ((Store.insert list_map served 6 60 1).1 ≡ absent (held list_map served 1 6))
    × (held list_map (Store.insert list_map served 6 60 1).0 0 5 ≡ (
        if same_store 1 0
        then or_else (held list_map served 1 5) (if 6 == 5 then some 60 else none)
        else held list_map served 0 5))
insert-held_example = insert-held list_map served 6 1 60 0 5

insert-batch_example :
    ((insert list_map served batch 0).1 ≡ all_new (λ j. absent (held list_map served 0 j)) batch)
    × ((w j : ℕ)
        → held list_map (insert list_map served batch 0).0 w j ≡ (
            if same_store 0 w
            then or_else (held list_map served 0 j) (first batch j)
            else held list_map served w j))
insert-batch_example = insert-batch list_map served batch 0

get-held_example : get list_map 0 served no_response (5 ∷ 7 ∷ []) 0 ≡ record {
  status = Status.all_ok;
  values =
      record { status = ItemStatus.found; value = 50 }
      ∷ record { status = ItemStatus.not_found; value = 0 }
      ∷ [];
}
unfolding held insert_in find_in init Store.insert as_item
get-held_example = get-held list_map 0 served no_response (5 ∷ 7 ∷ []) 0

get-insert_clear_example :
    (get list_map 0
        (insert list_map (clear_data list_map served 1).0 batch 1).0
        no_response
        (5 ∷ [])
        1
      ≡ record {
        status = Status.all_ok;
        values = record { status = ItemStatus.found; value = 51 } ∷ [];
      })
    × ((w : ℕ)
        → same_store 1 w ≡ false
        → get list_map 0
            (insert list_map (clear_data list_map served 1).0 batch 1).0
            no_response
            (5 ∷ [])
            w
          ≡ get list_map 0 served no_response (5 ∷ []) w)
unfolding first as_item
get-insert_clear_example = get-insert_clear list_map 0 served batch 1 no_response (5 ∷ [])

get_index-next_example : same_store ((2 ^ 32 - 1 + 1) % 2 ^ 32) (2 ^ 32 - 1) ≡ false
get_index-next_example = get_index-next (2 ^ 32 - 1)

-- The keys fall to two stores by their parity.
abbrev two_stores : List (Stores list_map)
unfolding insert_in find_in init Store.insert
two_stores = (Store.insert list_map (init list_map) 6 60 0).0 ∷ served ∷ []

two_stores-plain : (k : ℕ) → member k (5 ∷ 6 ∷ 5 ∷ 8 ∷ []) ≡ true → k % 2 ^ 32 < 2 ^ 31
unfolding member
two_stores-plain k there = ground arith

-- The first 5 is answered as if it were found with the value 0.
get-merged_example :
    Service.get list_map 0 (λ i. true) (λ k. k) two_stores 0 (5 ∷ 6 ∷ 5 ∷ 8 ∷ [])
    ≡ ok (record {
      status = Status.partial_ok;
      values =
          record { status = ItemStatus.found; value = 0 }
          ∷ record { status = ItemStatus.found; value = 60 }
          ∷ record { status = ItemStatus.found; value = 50 }
          ∷ record { status = ItemStatus.not_found; value = 0 }
          ∷ [];
    })
unfolding held insert_in find_in init Store.insert as_item answers_of all_held held_for
get-merged_example =
    get-merged list_map 0 (λ i. true) (λ k. k) two_stores 0 (5 ∷ 6 ∷ 5 ∷ 8 ∷ []) (omega arith)
      (λ i lt. refl) two_stores-plain

batch-plain : (k : ℕ) → member k (map (λ kv. kv.key) batch) ≡ true → k % 2 ^ 32 < 2 ^ 31
unfolding member
batch-plain k there = ground arith

insert-merged_example :
    (clients' : List (Stores list_map)) × (ret : Bool) × (Inserts.insert list_map
        (λ i. true)
        (λ k. k)
        two_stores
        0
        batch
      ≡ ok (clients', ret))
    × (length clients' ≡ 2)
    × ((w k : ℕ)
        → held_for list_map (λ k'. k') clients' w k ≡ (
            if same_store 1 w
            then or_else (held_for list_map (λ k'. k') two_stores 1 k) (first batch k)
            else held_for list_map (λ k'. k') two_stores w k))
    × ((ret ≡ true) ↔ (
        (i : ℕ)
        → i < 2
        → all_new
            (λ j. absent (held list_map (get_or two_stores i (init list_map)) 1 j))
            (dealt_kvs (λ k'. k') 2 i batch)
          ≡ true))
unfolding two_stores
insert-merged_example =
    insert-merged list_map (λ i. true) (λ k. k) two_stores 0 batch (omega arith) (λ i lt. refl) refl
      batch-plain
