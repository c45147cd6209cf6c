-- ===== src/Cannon/Schema.antt =====
-- cannon/src/cannon/kv_schema_type.cpp and kv_schema.cpp: how long keys and values are, by a schema
-- in a file. The strings and trees of boost, and the reading of numbers, are parameters. The
-- constructor of a type is declared `throw()`, so the fault `exception` of it ends the program.
pub mod Sizes
use cpp_project.Prelude.{
  ℕ, ◌≡◌, Bool, true, false, ◌&&◌, List, [], ◌∷◌, Option, none, some, ◌==◌, if◌then◌else◌,
}
use cpp_project.Run.{Run, ok, fault, exception, ◌>>=◌}
use cpp_project.Words.{add64, mul64}

-- Texts are lists of characters. `split` cuts a text at each '['.
pub record Boost : Type 1 where
  pub split : List ℕ → List (List ℕ)
  pub trim : List ℕ → List ℕ
  pub to_lower : List ℕ → List ℕ
  pub stoull : List ℕ → Option ℕ
  pub Tree : Type 0
  pub read_json : List ℕ → Option Tree
  pub keys_of : Tree → Option (List Tree)
  pub values_of : Tree → Option (List Tree)
  pub type_of : Tree → Option (List ℕ)

abbrev pub same_text : List ℕ → List ℕ → Bool
same_text [] [] = true
same_text [] (y ∷ ys) = false
same_text (x ∷ xs) [] = false
same_text (x ∷ xs) (y ∷ ys) = (x == y) && same_text xs ys

-- "i32", "i64", "float" and "double".
unfoldable pub type_size_map : List (List ℕ × ℕ)
type_size_map =
    (105 ∷ 51 ∷ 50 ∷ [], 4)
    ∷ (105 ∷ 54 ∷ 52 ∷ [], 8)
    ∷ (102 ∷ 108 ∷ 111 ∷ 97 ∷ 116 ∷ [], 4)
    ∷ (100 ∷ 111 ∷ 117 ∷ 98 ∷ 108 ∷ 101 ∷ [], 8)
    ∷ []

unfoldable pub find_size : List (List ℕ × ℕ) → List ℕ → Option ℕ
find_size [] type = none
find_size ((name, size) ∷ sizes) type =
    let rest = find_size sizes type in if same_text name type then some size else rest

pub record KvSchema : Type 0 where
  pub key_size : ℕ
  pub value_size : ℕ

module _ (boost : Boost) where
  open boost use {split, trim, to_lower, stoull, Tree, read_json, keys_of, values_of, type_of}

  -- `element_count`, from what follows the name.
  unfoldable pub element_count : List (List ℕ) → Run ℕ
  element_count [] = ok 1
  element_count (count ∷ rest) = elim (stoull (trim count)) [
    | none ↦ fault exception
    | some n ↦ ok n
  ]

  unfoldable pub type_size_of : List (List ℕ) → Run ℕ
  unfolding find_size type_size_map element_count
  type_size_of [] = fault exception
  type_size_of (name ∷ rest) = elim (find_size type_size_map (to_lower (trim name))) [
    | none ↦ fault exception
    | some element_size ↦ do count ← element_count rest; ok (mul64 element_size count)
  ]

  -- The constructor of `KVSchemaType`: its `type_size`.
  unfoldable pub kv_schema_type : List ℕ → Run ℕ
  unfolding type_size_of
  kv_schema_type type_string = type_size_of (split type_string)

  unfoldable pub field_size : Tree → Run ℕ
  unfolding kv_schema_type
  field_size field = elim (type_of field) [
    | none ↦ fault exception
    | some type_string ↦ kv_schema_type type_string
  ]

  -- The loop over the fields of a key or of a value.
  unfoldable pub add_sizes : List Tree → ℕ → Run ℕ
  unfolding field_size
  add_sizes [] size = ok size
  add_sizes (field ∷ fields) size = do n ← field_size field; add_sizes fields (add64 size n)

  unfoldable pub sizes_at : Option (List Tree) → Run ℕ
  unfolding add_sizes
  sizes_at none = fault exception
  sizes_at (some fields) = add_sizes fields 0

  -- The constructor of `KVSchema`.
  unfoldable pub kv_schema : List ℕ → Run KvSchema
  unfolding sizes_at
  kv_schema schema_json_path = elim (read_json schema_json_path) [
    | none ↦ fault exception
    | some root ↦ do
      key_size ← sizes_at (keys_of root)
      value_size ← sizes_at (values_of root)
      ok (record { key_size = key_size; value_size = value_size })
  ]
