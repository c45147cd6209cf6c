-- ===== src/HashTable/Construction.antt =====
-- The constructor of hash_table/immutable_hash_table.h.
use cpp_project.Prelude.{
  ℕ, ◌-◌, ◌^◌, ◌<◌, ◌≤◌, ◌≡◌, refl, false, [], replicate, inl, inr, arith, lt-or_le, lt→ltb, le→ltb,
  ◌⊎◌,
}
use cpp_project.Run.{ok, fault, exception, ◌>>=◌}
use cpp_project.HashTable.{Table, new, allocate, long_max}
use cpp_project.Cannon.HashMap.Power.{IsNextPower}
use cpp_project.HashTable.Power.{next_power-IsNextPower, next_power-big, next_power-wide}
use cpp_project.HashTable.Invariant.{IsTable, empty-IsTable}

module _ {V : Type 0} (hash : ℕ → ℕ) where
  -- A table for up to 2 ^ 59 entries.
  pub new-IsTable :
      (n : ℕ)
      → n ≤ 2 ^ 59
      → (t : Table V) × (new n ≡ ok t)
        × IsTable hash t
        × (t.used ≡ 0)
        × (t.loading ≡ false)
        × IsNextPower 4 n t.size
  unfolding new allocate
  new-IsTable n small =
      let (size, run, next) = next_power-IsNextPower n (omega arith) in
      let fits : size < 2 ^ 60 = ground (arith, next.least) in
      (
        record {
          buckets = replicate size [];
          size = size;
          size_mask = size - 1;
          used = 0;
          loading = false;
        },
        rw (run, ◌>>=◌, allocate, lt→ltb _ _ fits) refl,
        empty-IsTable hash size (size - 1) false (omega (arith, next.positive)),
        refl,
        refl,
        next,
      )

  new-throws : (n : ℕ) → 2 ^ 59 < n → new {V = V} n ≡ fault exception
  unfolding new allocate
  new-throws n big = elim (lt-or_le n long_max) [
    | inl below ↦
        let (size, run, next) = next_power-IsNextPower n below in
        let wide = next_power-wide n size next big in
        rw (run, ◌>>=◌, allocate, le→ltb size (2 ^ 60) wide)
    | inr above ↦ rw (next_power-big n above, ◌>>=◌, allocate)
  ]

  -- For up to 2 ^ 59 entries the constructor ends without a fault. The table holds no entries, is not
  -- loading, and has as many buckets as the first power of two from 16 on that is not below the number
  -- of entries. For more entries the constructor throws.
  pub new-cases :
      (n : ℕ)
      → ((n ≤ 2 ^ 59)
          × ((t : Table V) × (new n ≡ ok t)
              × IsTable hash t
              × (t.used ≡ 0)
              × (t.loading ≡ false)
              × IsNextPower 4 n t.size))
        ⊎ ((2 ^ 59 < n) × (new {V = V} n ≡ fault exception))
  new-cases n = elim (lt-or_le (2 ^ 59) n) [
    | inl big ↦ inr (big, new-throws n big)
    | inr small ↦ inl (small, new-IsTable n small)
  ]
