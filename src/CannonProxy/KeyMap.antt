-- ===== src/CannonProxy/KeyMap.antt =====
-- What the store asks of `google::sparse_hash_map<int64_t, double>`, a library that the program
-- calls: a finite map, in which an insertion does not replace what is there.
use cpp_project.Prelude.{ℕ, ◌+◌, ◌≡◌, Bool, true, false, Option, none, some, ◌==◌, if◌then◌else◌}

-- A key is the bit pattern of an `int64_t`. The values are `double`s, of which only 0 is named.
pub record KeyMap (V : Type 0) : Type 1 where
  pub Map : Type 0
  pub empty : Map
  pub size : Map → ℕ
  pub find : Map → ℕ → Option V
  pub insert : Map → ℕ → V → Map × Bool
  pub size-empty : size empty ≡ 0
  pub find-empty : (k : ℕ) → find empty k ≡ none
  pub insert_present : (m : Map) (k : ℕ) (v w : V) → find m k ≡ some w → insert m k v ≡ (m, false)
  pub insert_absent : (m : Map) (k : ℕ) (v : V) → find m k ≡ none → (insert m k v).1 ≡ true
  pub find-insert :
      (m : Map) (k : ℕ) (v : V)
      → find m k ≡ none
      → (j : ℕ) → find (insert m k v).0 j ≡ (if k == j then some v else find m j)
  pub size-insert : (m : Map) (k : ℕ) (v : V) → find m k ≡ none → size (insert m k v).0 ≡ size m + 1
