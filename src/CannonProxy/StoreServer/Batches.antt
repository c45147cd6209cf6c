-- ===== src/CannonProxy/StoreServer/Batches.antt =====
-- What the handler of cannon_proxy/cannon/src/cannon/cannon_server.cpp does with a batch of entries
-- and with a list of keys.
use cpp_project.Prelude.{
  ℕ, ◌≡◌, ◌∙◌, refl, sym, ap, Bool, true, false, ◌&&◌, not, List, [], ◌∷◌, ◌++◌, map, append-nil,
  append_assoc, Option, none, some, ◌==◌, if◌then◌else◌, arith,
}
use mathlib.Core.Path.{fun_ext}
use cpp_project.CannonProxy.KeyMap.{KeyMap}
use cpp_project.CannonProxy.Store.{SeekStatus, Stores}
use cpp_project.CannonProxy.Store
use cpp_project.CannonProxy.Store.Laws.{
  same_store, same_store_refl, held, absent, or_else, insert-held, own_store, found_as, seek-held,
  clear-held,
}
use cpp_project.CannonProxy.StoreServer.{
  ItemStatus, Status, ValueItem, CannonKv, CannonResponse, item_of, get_items, get, insert_all,
  insert, clear_data,
}

module _ {V : Type 0} where
  -- The value of the first entry of a batch that has the key.
  unfoldable pub first : List (CannonKv V) → ℕ → Option V
  first [] j = none
  first (kv ∷ kvs) j = if kv.key == j then some kv.value else first kvs j

  -- Every key of the batch is free, and none comes twice.
  unfoldable pub all_new : (ℕ → Bool) → List (CannonKv V) → Bool
  all_new free [] = true
  all_new free (kv ∷ kvs) = free kv.key && all_new (λ j. not (kv.key == j) && free j) kvs

  -- The item that stands for what is held.
  unfoldable pub as_item : V → Option V → ValueItem V
  as_item zero_value none = record { status = ItemStatus.not_found; value = zero_value }
  as_item zero_value (some v) = record { status = ItemStatus.found; value = v }

  added_first :
      (same new : Bool) (o o' h h' c : Option V) (x : V)
      → o' ≡ or_else o (if new then some x else none)
      → h' ≡ (if same then or_else o (if new then some x else none) else h)
      → (if same then or_else o' c else h')
        ≡ (if same then or_else o (if new then some x else c) else h)
  unfolding or_else
  added_first false new o o' h h' c x own other = other
  added_first true true none o' h h' c x own other = rw own refl
  added_first true true (some y) o' h h' c x own other = rw own refl
  added_first true false none o' h h' c x own other = rw own refl
  added_first true false (some y) o' h h' c x own other = rw own refl

  still_free :
      (o : Option V) (b : Bool) (x : V)
      → absent (or_else o (if b then some x else none)) ≡ not b && absent o
  unfolding or_else absent
  still_free o b x = ground arith

  or_else-none : (o : Option V) → or_else o none ≡ o
  unfolding or_else
  or_else-none o = ground arith

nested {ℓ} :
    {A : Type ℓ} (b : Bool) (x y z : A)
    → (if b then x else if b then y else z) ≡ (if b then x else z)
nested b x y z = ground arith

and-rest : (a b r r' ret : Bool) → a ≡ b → r ≡ r' → (a && ret) && r ≡ ret && (b && r')
and-rest a b r r' ret e e' = ground arith

module _ {V : Type 0} (maps : KeyMap V) where
  own_version :
      (s : Stores maps) (kv : CannonKv V) (v j : ℕ)
      → held maps (Store.insert maps s kv.key kv.value v).0 v j
        ≡ or_else (held maps s v j) (if kv.key == j then some kv.value else none)
  own_version s kv v j = (insert-held maps s kv.key v kv.value v j).1 ∙ rw (same_store_refl v) refl

  insert_all-held :
      (s : Stores maps) (kvs : List (CannonKv V)) (v : ℕ) (ret : Bool) (w j : ℕ)
      → held maps (insert_all maps s kvs v ret).0 w j
        ≡ (if same_store v w then or_else (held maps s v j) (first kvs j) else held maps s w j)
  unfolding insert_all first
  insert_all-held s [] v ret w j = sym (
      ap (λ o. if same_store v w then o else held maps s w j) (or_else-none (held maps s v j))
      ∙ own_store maps s v w j)
  insert_all-held s (kv ∷ kvs) v ret w j =
      let r = Store.insert maps s kv.key kv.value v in
      insert_all-held r.0 kvs v (r.1 && ret) w j
      ∙ added_first (same_store v w) (kv.key == j) (held maps s v j) (held maps r.0 v j)
          (held maps s w j) (held maps r.0 w j) (first kvs j) kv.value (own_version s kv v j)
          (insert-held maps s kv.key v kv.value w j).1

  insert_all-new :
      (s : Stores maps) (kvs : List (CannonKv V)) (v : ℕ) (ret : Bool)
      → (insert_all maps s kvs v ret).1 ≡ ret && all_new (λ j. absent (held maps s v j)) kvs
  unfolding insert_all all_new
  insert_all-new s [] v ret = ground arith
  insert_all-new s (kv ∷ kvs) v ret =
      let r = Store.insert maps s kv.key kv.value v in
      insert_all-new r.0 kvs v (r.1 && ret)
      ∙ and-rest r.1 (absent (held maps s v kv.key)) (all_new (λ j. absent (held maps r.0 v j)) kvs)
          (all_new (λ j. not (kv.key == j) && absent (held maps s v j)) kvs) ret
          (insert-held maps s kv.key v kv.value v 0).0
          (ap (λ free. all_new free kvs)
            (fun_ext (λ j.
              ap absent (own_version s kv v j)
              ∙ still_free (held maps s v j) (kv.key == j) kv.value)))

  -- Inserting a batch returns true just where every key is free in the version and comes once in
  -- the batch. Whatever it returns, each key then has what it had in the version or else the first
  -- value that the batch has for it, and versions of the other store keep what they have.
  pub insert-batch :
      (s : Stores maps) (kvs : List (CannonKv V)) (v : ℕ)
      → ((insert maps s kvs v).1 ≡ all_new (λ j. absent (held maps s v j)) kvs)
        × ((w j : ℕ)
            → held maps (insert maps s kvs v).0 w j ≡ (
                if same_store v w
                then or_else (held maps s v j) (first kvs j)
                else held maps s w j))
  unfolding insert
  insert-batch s kvs v = (insert_all-new s kvs v true, insert_all-held s kvs v true)

module _ {V : Type 0} (zero_value : V) where
  item_of-found : (o : Option V) → item_of zero_value (found_as o) ≡ as_item zero_value o
  unfolding item_of found_as as_item
  item_of-found o = ground arith

module _ {V : Type 0} (maps : KeyMap V) (zero_value : V) where
  pub get_items-held :
      (s : Stores maps) (keys : List ℕ) (v : ℕ) (values : List (ValueItem V))
      → get_items maps zero_value s keys v values
        ≡ values ++ map (λ k. as_item zero_value (held maps s v k)) keys
  unfolding get_items
  get_items-held s [] v values = sym (append-nil values)
  get_items-held s (key ∷ keys) v values =
      rw (seek-held maps s key v, item_of-found zero_value (held maps s v key))
        (get_items-held s keys v (values ++ as_item zero_value (held maps s v key) ∷ [])
          ∙ append_assoc values (as_item zero_value (held maps s v key) ∷ [])
              (map (λ k. as_item zero_value (held maps s v k)) keys))

  -- A query appends one item for each key, in the order of the keys: found with the value that the
  -- version holds for it, or not found with the value 0. The status is always that all is well.
  pub get-held :
      (s : Stores maps) (res : CannonResponse V) (keys : List ℕ) (v : ℕ)
      → get maps zero_value s res keys v ≡ record {
        status = Status.all_ok;
        values = res.values ++ map (λ k. as_item zero_value (held maps s v k)) keys;
      }
  unfolding get
  get-held s res keys v = rw (get_items-held s keys v res.values) refl

  get-same :
      (s : Stores maps) (res : CannonResponse V) (keys : List ℕ) (v : ℕ) (h : ℕ → Option V)
      → ((k : ℕ) → held maps s v k ≡ h k)
      → get maps zero_value s res keys v ≡ record {
        status = Status.all_ok;
        values = res.values ++ map (λ k. as_item zero_value (h k)) keys;
      }
  get-same s res keys v h same = rw (get-held s res keys v, fun_ext same) refl

  refilled :
      (s : Stores maps) (kvs : List (CannonKv V)) (v w j : ℕ)
      → held maps (insert maps (clear_data maps s v).0 kvs v).0 w j
        ≡ (if same_store v w then first kvs j else held maps s w j)
  unfolding clear_data or_else
  refilled s kvs v w j =
      (insert-batch maps (Store.clear_data maps s v) kvs v).1 w j
      ∙ rw (clear-held maps s v v j, same_store_refl v, clear-held maps s v w j)
          (nested (same_store v w) (first kvs j) none (held maps s w j))

  -- After a version is cleared and a batch is inserted under it, a query under it is answered from
  -- the batch alone, with the first value of each key; a query under a version of the other store
  -- is answered as before.
  pub get-insert_clear :
      (s : Stores maps) (kvs : List (CannonKv V)) (v : ℕ) (res : CannonResponse V) (keys : List ℕ)
      → (get maps zero_value (insert maps (clear_data maps s v).0 kvs v).0 res keys v ≡ record {
        status = Status.all_ok;
        values = res.values ++ map (λ k. as_item zero_value (first kvs k)) keys;
      })
        × ((w : ℕ)
            → same_store v w ≡ false
            → get maps zero_value (insert maps (clear_data maps s v).0 kvs v).0 res keys w
              ≡ get maps zero_value s res keys w)
  get-insert_clear s kvs v res keys = (
    get-same (insert maps (clear_data maps s v).0 kvs v).0 res keys v (first kvs)
        (λ k. refilled s kvs v v k ∙ rw (same_store_refl v) refl),
    λ w other.
        get-same (insert maps (clear_data maps s v).0 kvs v).0 res keys w (held maps s w)
          (λ k. refilled s kvs v w k ∙ rw other refl)
        ∙ sym (get-held s res keys w),
  )
