-- ===== src/CannonProxy/Store/Laws.antt =====
-- The laws of cannon_proxy/cannon/src/cannon/storage.cpp: what a seek finds after an insertion or
-- a clearing, in the same version and in others.
use cpp_project.Prelude.{
  ℕ, zero, suc, ◌+◌, ◌%◌, ◌^◌, ◌≤◌, ◌≡◌, ◌∙◌, refl, sym, ap, bit_and-le_right, bit_and-one, Bool,
  true, false, ◌&&◌, Option, Option-cases, Bool-cases, none, some, inl, inr, ◌==◌, ==_iff,
  if◌then◌else◌, arith,
}
use cpp_project.CannonProxy.KeyMap.{KeyMap}
use cpp_project.CannonProxy.Store.{
  SeekStatus, Stores, get_index, store_at, with_store, seek, insert, clear_data,
}

-- Whether two versions use one store.
unfoldable pub same_store : ℕ → ℕ → Bool
unfolding get_index
same_store v w = get_index v == get_index w

-- A version and the next use different stores, also where the `int` wraps around.
pub get_index-next : (v : ℕ) → same_store ((v + 1) % 2 ^ 32) v ≡ false
unfolding same_store get_index
get_index-next v = ground (arith, bit_and-one ((v + 1) % 2 ^ 32), bit_and-one v)

pub same_store_refl : (v : ℕ) → same_store v v ≡ true
unfolding same_store
same_store_refl v = ground arith

module _ {V : Type 0} where
  unfoldable pub absent : Option V → Bool
  absent none = true
  absent (some v) = false

  unfoldable pub or_else : Option V → Option V → Option V
  or_else none o = o
  or_else (some x) o = some x

  unfoldable pub found_as : Option V → SeekStatus × Option V
  found_as none = (SeekStatus.not_found, none)
  found_as (some v) = (SeekStatus.found, some v)

module _ {V : Type 0} (maps : KeyMap V) where
  open maps use {
    Map, empty, find as map_find, insert as map_insert, find-empty, insert_present, insert_absent,
    find-insert,
  }

  -- What a version holds for a key.
  unfoldable pub held : Stores maps → ℕ → ℕ → Option V
  unfolding get_index store_at
  held s version key = map_find (store_at maps s (get_index version)) key

  store_at-with_store :
      (s : Stores maps) (i j : ℕ) (m : Map)
      → i ≤ 1
      → j ≤ 1
      → store_at maps (with_store maps s i m) j ≡ (if i == j then m else store_at maps s j)
  unfolding store_at with_store
  store_at-with_store s zero zero m hi hj = refl
  store_at-with_store s zero (suc j) m hi hj = ground arith
  store_at-with_store s (suc i) zero m hi hj = ground arith
  store_at-with_store s (suc i) (suc j) m hi hj = ground arith

  pub index-le : (v : ℕ) → get_index v ≤ 1
  unfolding get_index
  index-le v = bit_and-le_right v 1

  -- What any version holds for any key once a map is written over the store of a version.
  held-with_store :
      (s : Stores maps) (v w j : ℕ) (m : Map)
      → held (with_store maps s (get_index v) m) w j
        ≡ (if same_store v w then map_find m j else held s w j)
  unfolding held same_store
  held-with_store s v w j m = elim (Bool-cases (get_index v == get_index w)) [
    | inl e ↦
        rw
          (
            held,
            e,
            store_at-with_store s (get_index v) (get_index w) m (index-le v) (index-le w),
            e,
          )
          refl
    | inr e ↦
        rw
          (
            held,
            e,
            store_at-with_store s (get_index v) (get_index w) m (index-le v) (index-le w),
            e,
          )
          refl
  ]

  same_held : (s : Stores maps) (v w j : ℕ) → same_store v w ≡ true → held s v j ≡ held s w j
  unfolding same_store held
  same_held s v w j e = ap (λ i. map_find (store_at maps s i) j) (ground arith)

  -- What a version holds is what its store holds.
  pub own_store :
      (s : Stores maps) (v w j : ℕ)
      → (if same_store v w then held s v j else held s w j) ≡ held s w j
  own_store s v w j = elim (Bool-cases (same_store v w)) [
    | inl e ↦ rw (e, same_held s v w j e) refl
    | inr e ↦ rw e refl
  ]

  insert-map :
      (s : Stores maps) (key v w j : ℕ) (x : V) (r : Map × Bool)
      → map_insert (store_at maps s (get_index v)) key x ≡ r
      → ((insert maps s key x v).1 ≡ r.1)
        × (held (insert maps s key x v).0 w j
            ≡ (if same_store v w then map_find r.0 j else held s w j))
  unfolding insert
  insert-map s key v w j x r e = (
    ap (λ q. q.1) e,
    ap (λ q. held (with_store maps s (get_index v) q.0) w j) e ∙ held-with_store s v w j r.0,
  )

  -- An insertion of a key that is there is refused and changes nothing.
  pub insert-present :
      (s : Stores maps) (key v : ℕ) (x y : V)
      → held s v key ≡ some y
      → (w j : ℕ)
      → ((insert maps s key x v).1 ≡ false) × (held (insert maps s key x v).0 w j ≡ held s w j)
  unfolding held
  insert-present s key v x y there w j =
      let r =
        insert-map s key v w j x (store_at maps s (get_index v), false)
          (insert_present (store_at maps s (get_index v)) key x y there) in
      (r.0, r.1 ∙ own_store s v w j)

  unguarded :
      (s : Stores maps) (key v w j : ℕ) (x : V)
      → (if same_store v w then (if key == j then some x else held s v j) else held s w j)
        ≡ (if same_store v w && key == j then some x else held s w j)
  unguarded s key v w j x = elim (Bool-cases (same_store v w)) [
    | inl e ↦ rw (e, same_held s v w j e) refl
    | inr e ↦ rw e refl
  ]

  -- An insertion of a key that is not there is accepted, and is seen in its version only.
  pub insert-absent :
      (s : Stores maps) (key v : ℕ) (x : V)
      → held s v key ≡ none
      → (w j : ℕ)
      → ((insert maps s key x v).1 ≡ true)
        × (held (insert maps s key x v).0 w j
            ≡ (if same_store v w && key == j then some x else held s w j))
  unfolding held
  insert-absent s key v x there w j =
      let m = store_at maps s (get_index v) in
      let r = insert-map s key v w j x (map_insert m key x) refl in
      (
        r.0 ∙ insert_absent m key x there,
        r.1
            ∙ (ap (λ o. if same_store v w then o else held s w j) (find-insert m key x there j)
                ∙ unguarded s key v w j x),
      )

  added :
      (same new : Bool) (o h : Option V) (x : V)
      → (same ≡ true → o ≡ h)
      → (new ≡ true → o ≡ none)
      → (if same && new then some x else h)
        ≡ (if same then or_else o (if new then some x else none) else h)
  unfolding or_else
  added false new o h x own free = refl
  added true true none h x own free = refl
  added true true (some y) h x own free = cc (free refl)
  added true false none h x own free = sym (own refl)
  added true false (some y) h x own free = sym (own refl)

  kept :
      (same new : Bool) (o h : Option V) (x y : V)
      → (same ≡ true → o ≡ h)
      → (new ≡ true → o ≡ some y)
      → h ≡ (if same then or_else o (if new then some x else none) else h)
  unfolding or_else
  kept false new o h x y own taken = refl
  kept true true none h x y own taken = cc (taken refl)
  kept true true (some z) h x y own taken = sym (own refl)
  kept true false none h x y own taken = sym (own refl)
  kept true false (some z) h x y own taken = sym (own refl)

  held_at :
      (s : Stores maps) (v key j : ℕ) (o : Option V)
      → held s v key ≡ o
      → (key == j) ≡ true
      → held s v j ≡ o
  held_at s v key j o there e = ground (arith, ap (held s v) ((==_iff key j).0 e))

  -- The insertion of one entry is accepted just where its version holds nothing for the key,
  -- and then only that key of that version changes, to the value.
  pub insert-held :
      (s : Stores maps) (key v : ℕ) (x : V) (w j : ℕ)
      → ((insert maps s key x v).1 ≡ absent (held s v key))
        × (held (insert maps s key x v).0 w j ≡ (
            if same_store v w
            then or_else (held s v j) (if key == j then some x else none)
            else held s w j))
  unfolding absent
  insert-held s key v x w j = elim (Option-cases (held s v key)) [
    | inl e ↦
        let r = insert-absent s key v x e w j in
        (
          rw e (r.0),
          r.1
              ∙ added (same_store v w) (key == j) (held s v j) (held s w j) x (same_held s v w j)
                  (held_at s v key j none e),
        )
    | inr (y, e) ↦
        let r = insert-present s key v x y e w j in
        (
          rw e (r.0),
          r.1
              ∙ kept (same_store v w) (key == j) (held s v j) (held s w j) x y (same_held s v w j)
                  (held_at s v key j (some y) e),
        )
  ]

  pub clear-held :
      (s : Stores maps) (v w j : ℕ)
      → held (clear_data maps s v) w j ≡ (if same_store v w then none else held s w j)
  unfolding clear_data
  clear-held s v w j =
      held-with_store s v w j empty
      ∙ ap (λ o. if same_store v w then o else held s w j) (find-empty j)

  pub seek-held : (s : Stores maps) (key v : ℕ) → seek maps s key v ≡ found_as (held s v key)
  unfolding seek held found_as
  seek-held s key v = elim (Option-cases (held s v key)) [
    | inl e ↦ rw (seek, e) refl
    | inr (x, e) ↦ rw (seek, e) refl
  ]
