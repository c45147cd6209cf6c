-- ===== src/Cannon/HashMap/Load.antt =====
-- Loading a fresh table: it ends without a fault, and establishes the invariant.
use mathlib.Core.List.{flatten}
use mathlib.Core.Path.{subst}
use native.Mathlib.Nat.{le-add_right, zero-add, zero-mul}
use cpp_project.Prelude.{
  ℕ, zero, suc, ◌+◌, ◌-◌, ◌*◌, ◌^◌, ◌≤◌, ◌<◌, ◌≡◌, ◌∙◌, refl, ap, sym, List, length, replicate, ltb,
  SameElements-length, length-replicate, get_or, SameElements, arith, some,
}
use cpp_project.Run.{ok, ◌>>=◌}
use cpp_project.Memory.Records.{HaveWidth, records, records-flatten}
use cpp_project.Buckets.{start_of, size_of, IsIndexed, IsPlacing}
use cpp_project.Buckets.Rounds.{start_of-zero}
use cpp_project.Cannon.HashMap.{
  HashMap, new, divide, count_loop, begins_loop, place_loop, construct_immutable_hash_map, load_kvs,
}
use cpp_project.Cannon.HashMap.Power.{next_power_lem}
use cpp_project.Cannon.HashMap.Invariant.{slot, slot-le, IsLoaded}
use cpp_project.Cannon.HashMap.Counting.{
  resize-nil, get_or-replicate, count_loop_lem, begins_loop_lem, length-begins_loop,
}
use cpp_project.Cannon.HashMap.Placing.{place_loop_lem}

divide-mul : (n w : ℕ) → 0 < w → divide (n * w) w ≡ ok n
unfolding divide
divide-mul n zero pos = absurd (omega arith)
divide-mul n (suc w) pos = ap ok (grind arith)

le-mul : (n w : ℕ) → 0 < w → n ≤ n * w
le-mul n w pos = grind arith

start_at :
    (key_size : ℕ) (counts : List ℕ) (rs : List (List ℕ)) (mask h : ℕ)
    → ((k : ℕ) → get_or counts k 0 ≡ size_of (slot key_size mask) rs k)
    → h < length counts
    → get_or (begins_loop 0 counts) h 0 ≡ start_of (slot key_size mask) rs h
start_at key_size counts rs mask h totals lt =
    begins_loop_lem (slot key_size mask) rs counts 0 0 (sym (start_of-zero (slot key_size mask) rs))
      (λ k l. totals k ∙ ap (size_of (slot key_size mask) rs) (sym (zero-add k))) h lt
    ∙ ap (start_of (slot key_size mask) rs) (zero-add h)

-- Before the third loop no bucket holds anything.
IsPlacing-start :
    (key_size mask : ℕ) (begins : List ℕ) (rs : List (List ℕ))
    → ((h : ℕ) → h < mask + 1 → get_or begins h 0 ≡ start_of (slot key_size mask) rs h)
    → IsPlacing
        (slot key_size mask)
        (mask + 1)
        (λ h. get_or begins h 0)
        (λ h. get_or begins h 0)
        rs
        0
IsPlacing-start key_size mask begins rs starts = record {
  within = λ x. omega (arith, slot-le key_size mask x);
  starts = starts;
  ordered = λ h lt. omega arith;
  filled = λ h p lt l r. absurd (omega arith);
  placed = λ p lt. absurd (omega arith);
}

-- The loops' results make up a loaded table.
IsLoaded-built :
    (key_size value_size n mask : ℕ) (begins : List ℕ) (entries sorted : List (List ℕ))
    → HaveWidth (key_size + value_size) sorted
    → SameElements sorted entries
    → length entries ≡ n
    → length begins ≡ mask + 2
    → ((h : ℕ) → h < mask + 2 → get_or begins h 0 ≡ start_of (slot key_size mask) entries h)
    → IsIndexed (slot key_size mask) sorted
    → IsLoaded
        (record {
          key_size = key_size;
          value_size = value_size;
          kv_size = key_size + value_size;
          kv_count = n;
          hash_mask = some mask;
          table = flatten sorted;
          indexes = begins;
        })
        sorted
IsLoaded-built key_size value_size n mask begins entries sorted widths same number size starts
      indexed =
    record {
      mask = mask;
      sizes = refl;
      masked = refl;
      counted = sym number ∙ sym (SameElements-length sorted entries same);
      table = refl;
      widths = widths;
      index_size = size;
      indexes = λ h lt. starts h lt ∙ sym (same (λ x. ltb (slot key_size mask x) h));
      indexed = indexed;
    }

module _ (key_size value_size n : ℕ) (kvs : List ℕ) where
  abbrev kv_size : ℕ
  kv_size = key_size + value_size

  abbrev pub entries : List (List ℕ)
  entries = records (key_size + value_size) n kvs

  pub load_kvs-IsLoaded :
      0 < key_size + value_size
      → length kvs ≡ n * (key_size + value_size)
      → n ≤ 2 ^ 63
      → (m : HashMap) × (rs : List (List ℕ)) × (load_kvs (new key_size value_size) kvs ≡ ok m)
        × IsLoaded m rs
        × SameElements rs entries
        × (m.key_size ≡ key_size)
        × (m.value_size ≡ value_size)
  unfolding load_kvs construct_immutable_hash_map new
  load_kvs-IsLoaded pos size small =
      let (whole, widths, number) = records-flatten kv_size n kvs size in
      let (p, power, next) = next_power_lem n small in
      let mask = p - 1 in
      let divided : divide (length kvs) kv_size ≡ ok n = rw size (divide-mul n kv_size pos) in
      let rounds : n ≤ length kvs = rw size (le-mul n kv_size pos) in
      let m₀ : HashMap = record (new key_size value_size) { table = kvs } in
      let fresh = replicate {A = ℕ} (p + 1) 0 in
      let fresh_size : length fresh ≡ p + 1 = length-replicate {A = ℕ} (p + 1) 0 in
      let (counts, counted, counts_size, totals) =
        count_loop_lem m₀ mask entries (sym whole) widths pos (le-add_right key_size value_size)
          (length kvs + 1) 0 fresh (omega arith) (omega (arith, number, rounds))
          (omega (arith, next.positive)) (λ h. omega (arith, get_or-replicate (p + 1) h 0)) in
      let counted' =
        subst (λ o. count_loop (length kvs + 1) m₀ mask o fresh ≡ ok counts) (zero-mul kv_size)
          counted in
      let begins = begins_loop 0 counts in
      let begins_size : length begins ≡ mask + 2 =
        omega (arith, length-begins_loop counts 0, next.positive) in
      let starts = λ (h : ℕ) (lt : h < mask + 2).
        start_at key_size counts entries mask h totals (omega (arith, next.positive)) in
      let m₁ : HashMap = record m₀ { kv_count = n; hash_mask = some mask; indexes = begins } in
      let (sorted, placed, (widths', same, indexed)) =
        place_loop_lem m₁ mask begins (le-add_right key_size value_size) (omega arith) (2 * n + 1) 0
          begins entries widths (sym number) (omega arith) (omega arith)
          (IsPlacing-start key_size mask begins entries (λ h lt. starts h (omega arith)))
          (omega arith) in
      (
        record m₁ { table = flatten sorted },
        sorted,
        rw (
          divided,
          ◌>>=◌,
          power,
          ◌>>=◌,
          resize-nil (p + 1) 0,
          counted',
          ◌>>=◌,
          subst (λ t. place_loop (2 * n + 1) m₁ mask begins begins t 0 ≡ ok (flatten sorted)) whole
              placed,
        ),
        IsLoaded-built key_size value_size n mask begins entries sorted widths' same number
            begins_size starts indexed,
        same,
        refl,
        refl,
      )
