-- ===== src/HashTable/Invariant.antt =====
-- The invariant of hash_table/immutable_hash_table.h, and that its operations keep it.
use mathlib.Core.List.{flatten}
use cpp_project.Prelude.{
  ℕ, zero, suc, ◌+◌, ◌-◌, ◌*◌, ◌^◌, ◌<◌, ◌≤◌, ◌≡◌, ◌∙◌, refl, ap, Bool, true, false, List, [],
  replicate, length, length-replicate, get_or-replicate, Option, count, count-true, Bool-cases, inl,
  inr, ◌==◌, ltb, leb, arith,
}
use cpp_project.Run.{ok, ◌>>=◌}
use cpp_project.Words.{mul64}
use cpp_project.HashTable.{
  TableEntry, Table, find_entry, rehash, long_max, next_power, expand_if_needed, shrink_if_needed,
}
use cpp_project.HashTable.Chains.{
  has_key, first_or, first_or-none, last_entry-first, find_entry-flatten,
}
use cpp_project.HashTable.Rehash.{slot, IsPlaced, held, move_buckets_lem}
use cpp_project.HashTable.Power.{IsCapacity, next_power-IsCapacity}

doubled : (n : ℕ) → n < 2 ^ 62 → mul64 n 2 ≡ n * 2
unfolding mul64
doubled n small = omega arith

empty-IsPlaced :
    (V : Type 0) (hash : ℕ → ℕ) (mask n : ℕ)
    → IsPlaced {V = V} hash mask (replicate {A = List (TableEntry V)} n [])
unfolding IsPlaced count
empty-IsPlaced V hash mask n i key other =
    rw (get_or-replicate {A = List (TableEntry V)} n i []) refl

module _ {V : Type 0} (hash : ℕ → ℕ) where
  -- As many buckets as the size says, of which the mask is the last; as many entries as counted, each
  -- in the bucket of its key, no key twice, and no more entries than buckets.
  pub record IsTable (t : Table V) : Type 0 where
    pub many : length t.buckets ≡ t.size
    pub masked : t.size_mask + 1 ≡ t.size
    pub counted : t.used ≡ length (flatten t.buckets)
    pub placed : IsPlaced hash t.size_mask t.buckets
    pub once : (key : ℕ) → count (has_key key) (flatten t.buckets) ≤ 1
    pub room : t.used ≤ t.size

  -- What the table holds for a key.
  abbrev pub entry_for : Table V → ℕ → Option (TableEntry V)
  entry_for t key = held hash t.size_mask t.buckets key

  count-flatten_empty : (q : TableEntry V → Bool) (n : ℕ) → count q (flatten (replicate n [])) ≡ 0
  unfolding count flatten
  count-flatten_empty q zero = refl
  count-flatten_empty q (suc n) = count-flatten_empty q n

  -- Any state of the fields with no entry.
  pub empty-IsTable :
      (size mask : ℕ) (loading : Bool)
      → mask + 1 ≡ size
      → IsTable (record {
        buckets = replicate size [];
        size = size;
        size_mask = mask;
        used = 0;
        loading = loading;
      })
  empty-IsTable size mask loading masked = record {
    many = length-replicate size [];
    masked = masked;
    counted = omega (
      arith,
      count-true {A = TableEntry V} (flatten (replicate size [])),
      count-flatten_empty (λ e. true) size,
    );
    placed = empty-IsPlaced V hash mask size;
    once = λ key. omega (arith, count-flatten_empty (has_key key) size);
    room = omega arith;
  }

  -- The same entries.
  pub record IsRebuilt (t t' : Table V) : Type 0 where
    pub table : IsTable t'
    pub same : (key : ℕ) → entry_for t' key ≡ entry_for t key
    pub used : t'.used ≡ t.used
    pub loading : t'.loading ≡ t.loading

  rebuilt :
      (t : Table V) (n size : ℕ)
      → IsTable t
      → t.used ≤ n
      → n ≤ long_max
      → next_power n ≡ ok size
      → IsCapacity n size
      → (size == t.size) ≡ false
      → (t' : Table V) × (moved : Bool) × (rehash hash t n ≡ ok (t', moved))
        × IsRebuilt t t'
        × (n ≤ t'.size)
  unfolding rehash find_entry IsPlaced
  rebuilt t n size is enough small run capacity other =
      let empty_buckets : List (List (TableEntry V)) = replicate size [] in
      let many = length-replicate {A = List (TableEntry V)} size [] in
      let (buckets, moved, by) =
        move_buckets_lem hash (size - 1) t.buckets empty_buckets
          (omega (arith, capacity.positive, many)) in
      (
        record t { buckets = buckets; size = size; size_mask = size - 1 },
        true,
        rw (run, ◌>>=◌, other, moved, ◌>>=◌) refl,
        record {
          table = record {
            many = by.long ∙ many;
            masked = omega (arith, capacity.positive);
            counted = omega (
              arith,
              is.counted,
              by.counted (λ e. true),
              count-true (flatten buckets),
              count-true (flatten t.buckets),
              count-flatten_empty (λ e. true) size,
            );
            placed = by.placed (empty-IsPlaced V hash (size - 1) size);
            once = λ key. omega (
              arith,
              is.once key,
              by.counted (has_key key),
              count-flatten_empty (has_key key) size,
            );
            room = omega (arith, capacity.enough small);
          };
          same = λ key.
              by.found key
              ∙ (last_entry-first (flatten t.buckets) key (held hash (size - 1) empty_buckets key)
                    (is.once key)
                  ∙ (ap (λ b. first_or (find_entry (flatten t.buckets) key) (find_entry b key))
                        (get_or-replicate {A = List (TableEntry V)} size (slot hash (size - 1) key)
                          [])
                      ∙ (first_or-none (find_entry (flatten t.buckets) key)
                          ∙ find_entry-flatten t.buckets (slot hash t.size_mask key) key
                              (λ i other. is.placed i key other))));
          used = refl;
          loading = refl;
        },
        capacity.enough small,
      )

  pub rehash_lem :
      (t : Table V) (n : ℕ)
      → IsTable t
      → t.used ≤ n
      → n ≤ long_max
      → (t' : Table V) × (moved : Bool) × (rehash hash t n ≡ ok (t', moved))
        × IsRebuilt t t'
        × (n ≤ t'.size)
  unfolding rehash
  rehash_lem t n is enough small =
      let (size, run, capacity) = next_power-IsCapacity n in
      elim (Bool-cases (size == t.size)) [
        | inl same ↦ (
          t,
          false,
          rw (run, ◌>>=◌, same) refl,
          record { table = is; same = λ key. refl; used = refl; loading = refl },
          ground (arith, capacity.enough small),
        )
        | inr other ↦ rebuilt t n size is enough small run capacity other
      ]

  pub expand_lem :
      (t : Table V)
      → IsTable t
      → t.used < 2 ^ 62
      → (t' : Table V) × (expand_if_needed hash t ≡ ok t') × IsRebuilt t t' × (t'.used < t'.size)
  unfolding expand_if_needed
  expand_lem t is small = elim (Bool-cases (leb t.size t.used)) [
    | inl full ↦
        let (t', moved, run, by, wide) = rehash_lem t (t.used * 2) is (omega arith) (omega arith) in
        (
          t',
          rw (full, doubled t.used small, run, ◌>>=◌) refl,
          by,
          ground (arith, wide, by.used, is.masked),
        )
    | inr fits ↦ (
      t,
      rw fits refl,
      record { table = is; same = λ key. refl; used = refl; loading = refl },
      ground arith,
    )
  ]

  pub shrink_lem :
      (t : Table V)
      → IsTable t
      → t.used < 2 ^ 62
      → (t' : Table V) × (shrink_if_needed hash t ≡ ok t') × IsRebuilt t t'
  unfolding shrink_if_needed
  shrink_lem t is small = elim (Bool-cases (ltb (mul64 t.used 2) t.size)) [
    | inl sparse ↦
        let (t', moved, run, by, wide) = rehash_lem t (t.used * 2) is (omega arith) (omega arith) in
        (t', rw (sparse, doubled t.used small, run, ◌>>=◌) refl, by)
    | inr full ↦
        (t, rw full refl, record { table = is; same = λ key. refl; used = refl; loading = refl })
  ]
