-- ===== src/Cannon/Schema/Sizes.antt =====
-- What sizes a schema of cannon/src/cannon/kv_schema.cpp gives.
use cpp_project.Prelude.{
  ℕ, ◌+◌, ◌*◌, ◌%◌, ◌<◌, ◌≡◌, refl, ap, ◌∙◌, List, [], ◌∷◌, ◌++◌, some, arith,
}
use cpp_project.Run.{ok, ◌>>=◌}
use cpp_project.Words.{add64, mul64, size_mod}
use cpp_project.Cannon.Schema.{
  Boost, type_size_map, find_size, element_count, type_size_of, kv_schema_type, field_size,
  add_sizes, sizes_at, kv_schema,
}

-- The numbers that a field can hold.
pub data Number : Type 0 where
  i32 i64 float double : Number

abbrev pub spelling : Number → List ℕ
spelling i32 = 105 ∷ 51 ∷ 50 ∷ []
spelling i64 = 105 ∷ 54 ∷ 52 ∷ []
spelling float = 102 ∷ 108 ∷ 111 ∷ 97 ∷ 116 ∷ []
spelling double = 100 ∷ 111 ∷ 117 ∷ 98 ∷ 108 ∷ 101 ∷ []

-- In bytes.
abbrev pub width : Number → ℕ
width i32 = 4
width i64 = 8
width float = 4
width double = 8

find_size-spelling :
    (number : Number) → find_size type_size_map (spelling number) ≡ some (width number)
unfolding find_size type_size_map
find_size-spelling i32 = refl
find_size-spelling i64 = refl
find_size-spelling float = refl
find_size-spelling double = refl

-- A field as it is written: the name of a number, and how many there are of it, if that is said.
pub data Field : Type 0 where
  single : (name : List ℕ) (number : Number) → Field
  several : (name : List ℕ) (number : Number) (digits : List ℕ) (count : ℕ) → Field

-- '[' is 91 and ']' is 93.
abbrev pub written : Field → List ℕ
written (single name number) = name
written (several name number digits count) = name ++ 91 ∷ (digits ++ 93 ∷ [])

abbrev pub bytes_of : Field → ℕ
bytes_of (single name number) = width number
bytes_of (several name number digits count) = width number * count

abbrev pub total : List Field → ℕ
total [] = 0
total (f ∷ fs) = bytes_of f + total fs

-- The name is one of the four, whatever spaces are around it and whatever the case; the count is
-- read from the digits, also with the bracket after them.
module _ (boost : Boost) where
  open boost use {split, trim, to_lower, stoull, Tree, read_json, keys_of, values_of, type_of}

  abbrev pub IsField : Field → Type 0
  IsField (single name number) = (split name ≡ name ∷ []) × (to_lower (trim name) ≡ spelling number)
  IsField (several name number digits count) =
      (split (name ++ 91 ∷ (digits ++ 93 ∷ [])) ≡ name ∷ (digits ++ 93 ∷ []) ∷ [])
      × (to_lower (trim name) ≡ spelling number)
      × (stoull (trim (digits ++ 93 ∷ [])) ≡ some count)

  -- The trees of the file are these fields.
  abbrev pub AreFields : List Tree → List Field → Type 0
  AreFields [] [] = Unit
  AreFields [] (f ∷ fs) = ⊥
  AreFields (t ∷ ts) [] = ⊥
  AreFields (t ∷ ts) (f ∷ fs) = (type_of t ≡ some (written f)) × IsField f × AreFields ts fs

  kv_schema_type-written :
      (f : Field) → IsField f → kv_schema_type boost (written f) ≡ ok (bytes_of f % size_mod)
  unfolding kv_schema_type type_size_of element_count mul64
  kv_schema_type-written (single name number) (parts, known) =
      rw (parts, type_size_of, ap (find_size type_size_map) known ∙ find_size-spelling number)
        (ap ok (omega arith))
  kv_schema_type-written (several name number digits count) (parts, known, read) =
      let size = ap (find_size type_size_map) known ∙ find_size-spelling number in
      rw (parts, type_size_of, size, element_count, read) refl

  add_sizes-total :
      (ts : List Tree) (fs : List Field) (size : ℕ)
      → AreFields ts fs
      → size < size_mod
      → add_sizes boost ts size ≡ ok ((size + total fs) % size_mod)
  unfolding add_sizes field_size add64
  add_sizes-total [] [] size are small = ap ok (omega arith)
  add_sizes-total (t ∷ ts) (f ∷ fs) size (named, is, are) small =
      rw
        (
          named,
          kv_schema_type-written f is,
          ◌>>=◌,
          add_sizes-total ts fs ((size + bytes_of f % size_mod) % size_mod) are (omega arith),
        )
        (ap ok (omega arith))
  add_sizes-total [] (f ∷ fs) size are small = absurd are
  add_sizes-total (t ∷ ts) [] size are small = absurd are

  from_zero :
      (ts : List Tree) (fs : List Field)
      → AreFields ts fs
      → add_sizes boost ts 0 ≡ ok (total fs % size_mod)
  from_zero ts fs are = add_sizes-total ts fs 0 are (omega arith) ∙ ap ok (omega arith)

  -- A schema whose keys and values are lists of fields gives the sum of the bytes of the fields of
  -- each, modulo 2 ^ 64; a field has the bytes of its type, 4 for i32 and float and 8 for i64 and
  -- double, as often as its count says.
  pub kv_schema-total :
      (path : List ℕ) (root : Tree) (keys values : List Tree) (ks vs : List Field)
      → read_json path ≡ some root
      → keys_of root ≡ some keys
      → values_of root ≡ some values
      → AreFields keys ks
      → AreFields values vs
      → kv_schema boost path
        ≡ ok (record { key_size = total ks % size_mod; value_size = total vs % size_mod })
  unfolding kv_schema sizes_at
  kv_schema-total path root keys values ks vs read keys_there values_there are_keys are_values =
      rw
        (
          kv_schema,
          read,
          keys_there,
          values_there,
          sizes_at,
          from_zero keys ks are_keys,
          from_zero values vs are_values,
        )
        refl
