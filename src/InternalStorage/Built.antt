-- ===== src/InternalStorage/Built.antt =====
-- What the constructor makes of the entries.
use native.Mathlib.Nat.{zero-add}
use cpp_project.Prelude.{
  ℕ, ◌+◌, ◌-◌, ◌*◌, ◌<◌, ◌≡◌, ◌∙◌, refl, ap, sym, List, [], ◌∷◌, length, replicate,
  length-replicate, get_or-replicate, get_or, get_or-set, set, length-set, ltb, count, SameElements,
  arith,
}
use cpp_project.Run.{ok, ◌>>=◌, at-get_or, put-set}
use cpp_project.Buckets.{start_of, size_of, IsIndexed, IsPlacing}
use cpp_project.Buckets.Rounds.{start_of-zero}
use cpp_project.Cannon.HashMap
use cpp_project.Cannon.HashMap.Counting.{begins_loop_lem, length-begins_loop}
use cpp_project.HashTable
use cpp_project.HashTable.Power.{next_power-IsCapacity}
use cpp_project.InternalStorage.{
  Entry, SortedTable, slot, next_power, begins_loop, count_loop, construct,
}
use cpp_project.InternalStorage.Placing.{slot-le, place_loop_lem}

next_power-same : (size : ℕ) → next_power size ≡ HashTable.next_power size
unfolding next_power HashTable.next_power
next_power-same size = refl

begins_loop-same : (n : ℕ) (counts : List ℕ) → begins_loop n counts ≡ HashMap.begins_loop n counts
unfolding begins_loop HashMap.begins_loop
begins_loop-same n [] = refl
begins_loop-same n (x ∷ counts) = ap (◌∷◌ n) (begins_loop-same (n + x) counts)

module _ {K V : Type 0} (hash : K → ℕ) where
  -- Each entry is in the run of its bucket, and the index says where each run begins.
  pub record IsSorted (t : SortedTable K V) (kvs : List (Entry K V)) : Type 0 where
    pub same : SameElements t.table kvs
    pub index_size : length t.indexes ≡ t.size_mask + 1
    pub indexes :
        (h : ℕ)
        → h < t.size_mask + 1
        → get_or t.indexes h 0 ≡ start_of (slot {V = V} hash t.size_mask) t.table h
    pub indexed : IsIndexed (slot {V = V} hash t.size_mask) t.table

  count_loop_lem :
      (mask : ℕ) (kvs : List (Entry K V)) (indexes : List ℕ)
      → mask < length indexes
      → (counts : List ℕ) × (count_loop hash mask kvs indexes ≡ ok counts)
        × (length counts ≡ length indexes)
        × ((h : ℕ)
            → get_or counts h 0 ≡ get_or indexes h 0 + size_of (slot {V = V} hash mask) kvs h)
  unfolding count_loop count
  count_loop_lem mask [] indexes wide = (indexes, refl, refl, λ h. omega arith)
  count_loop_lem mask (kv ∷ kvs) indexes wide =
      let k = slot hash mask kv in
      let n = get_or indexes k 0 in
      let inside : k < length indexes = omega (arith, slot-le hash mask kv) in
      let (counts, run, size, total) =
        count_loop_lem mask kvs (set indexes k (n + 1))
          (omega (arith, length-set indexes k (n + 1))) in
      (
        counts,
        rw (at-get_or indexes k 0 inside, ◌>>=◌, put-set indexes k (n + 1) inside) run,
        size ∙ length-set indexes k (n + 1),
        λ h. ground (arith, total h, get_or-set indexes k h (n + 1) 0 inside),
      )

  start_at :
      (mask : ℕ) (kvs : List (Entry K V)) (counts : List ℕ) (h : ℕ)
      → ((k : ℕ) → get_or counts k 0 ≡ size_of (slot {V = V} hash mask) kvs k)
      → h < length counts
      → get_or (begins_loop 0 counts) h 0 ≡ start_of (slot {V = V} hash mask) kvs h
  start_at mask kvs counts h totals lt =
      let s = slot {V = V} hash mask in
      ap (λ l. get_or l h 0) (begins_loop-same 0 counts)
      ∙ begins_loop_lem s kvs counts 0 0 (sym (start_of-zero s kvs))
          (λ k l. totals k ∙ ap (size_of s kvs) (sym (zero-add k))) h lt
      ∙ ap (start_of s kvs) (zero-add h)

  IsPlacing-first :
      (mask : ℕ) (begins : List ℕ) (kvs : List (Entry K V))
      → ((h : ℕ) → h < mask + 1 → get_or begins h 0 ≡ start_of (slot {V = V} hash mask) kvs h)
      → IsPlacing
          (slot {V = V} hash mask)
          (mask + 1)
          (λ h. get_or begins h 0)
          (λ h. get_or begins h 0)
          kvs
          0
  IsPlacing-first mask begins kvs starts = record {
    within = λ x. omega (arith, slot-le hash mask x);
    starts = starts;
    ordered = λ h lt. omega arith;
    filled = λ h p lt l r. absurd (omega arith);
    placed = λ p lt. absurd (omega arith);
  }

  IsSorted-built :
      (mask : ℕ) (begins : List ℕ) (sorted kvs : List (Entry K V))
      → SameElements sorted kvs
      → length begins ≡ mask + 1
      → ((h : ℕ) → h < mask + 1 → get_or begins h 0 ≡ start_of (slot {V = V} hash mask) kvs h)
      → IsIndexed (slot {V = V} hash mask) sorted
      → IsSorted (record { table = sorted; indexes = begins; size_mask = mask }) kvs
  IsSorted-built mask begins sorted kvs same size starts indexed = record {
    same = same;
    index_size = size;
    indexes = λ h lt. starts h lt ∙ sym (same (λ x. ltb (slot {V = V} hash mask x) h));
    indexed = indexed;
  }

  -- The constructor ends without a fault, and sorts the entries by bucket.
  pub construct-IsSorted :
      (kvs : List (Entry K V))
      → (t : SortedTable K V) × (construct hash kvs ≡ ok t) × IsSorted t kvs
  unfolding construct
  construct-IsSorted kvs =
      let (p, power, capacity) = next_power-IsCapacity (length kvs) in
      let mask = p - 1 in
      let zeros = replicate {A = ℕ} p 0 in
      let zeros_size = length-replicate {A = ℕ} p 0 in
      let (counts, counted, counts_size, totals) =
        count_loop_lem mask kvs zeros (omega (arith, capacity.positive)) in
      let begins = begins_loop 0 counts in
      let begins_size : length begins ≡ mask + 1 = omega (
        arith,
        ap length (begins_loop-same 0 counts),
        length-begins_loop counts 0,
        capacity.positive,
      ) in
      let starts = λ (h : ℕ) (lt : h < mask + 1).
        start_at mask kvs counts h (λ k. omega (arith, totals k, get_or-replicate {A = ℕ} p k 0))
          (omega (arith, capacity.positive)) in
      let (sorted, placed, same, indexed) =
        place_loop_lem hash mask begins (omega arith) (2 * length kvs + 1) 0 begins kvs
          (omega arith) (omega arith) (IsPlacing-first mask begins kvs starts) (omega arith) in
      (
        record { table = sorted; indexes = begins; size_mask = mask },
        rw (next_power-same (length kvs), power, ◌>>=◌, counted, placed),
        IsSorted-built mask begins sorted kvs same begins_size starts indexed,
      )
