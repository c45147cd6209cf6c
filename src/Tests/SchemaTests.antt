-- ===== src/Tests/SchemaTests.antt =====
-- A schema read, and the witness of the theorem on its sizes.
use cpp_project.Prelude.{
  ℕ, ◌+◌, ◌-◌, ◌*◌, ◌%◌, ◌≡◌, refl, List, [], ◌∷◌, ◌++◌, map, Option, none, some, ◌==◌, leb, ◌&&◌,
  if◌then◌else◌,
}
use cpp_project.Run.{ok}
use cpp_project.Words.{size_mod}
use cpp_project.Cannon.Schema.{Boost, kv_schema}
use cpp_project.Cannon.Schema.Sizes.{
  i64, float, double, Field, single, several, written, total, kv_schema-total,
}

abbrev split_at : List ℕ → List ℕ → List (List ℕ)
split_at part [] = part ∷ []
split_at part (c ∷ rest) =
    if c == 91 then part ∷ split_at [] rest else split_at (part ++ c ∷ []) rest

abbrev read_digits : ℕ → List ℕ → ℕ
read_digits n [] = n
read_digits n (c ∷ rest) = if leb 48 c && leb c 57 then read_digits (n * 10 + (c - 48)) rest else n

-- "i64" and "Float[10]" for the key, and "double" for the value.
abbrev key_fields : List Field
key_fields =
    single (105 ∷ 54 ∷ 52 ∷ []) i64
    ∷ several (70 ∷ 108 ∷ 111 ∷ 97 ∷ 116 ∷ []) float (49 ∷ 48 ∷ []) 10
    ∷ []

abbrev value_fields : List Field
value_fields = single (100 ∷ 111 ∷ 117 ∷ 98 ∷ 108 ∷ 101 ∷ []) double ∷ []

data File : Type 0 where
  root : File
  text : List ℕ → File

abbrev children : List Field → File → Option (List File)
children fields root = some (map (λ f. text (written f)) fields)
children fields (text t) = none

abbrev text_of : File → Option (List ℕ)
text_of root = none
text_of (text t) = some t

abbrev plain : Boost
plain = record {
  split = split_at [];
  trim = λ s. s;
  to_lower = map (λ c. if leb 65 c && leb c 90 then c + 32 else c);
  stoull = λ s. some (read_digits 0 s);
  Tree = File;
  read_json = λ path. some root;
  keys_of = children key_fields;
  values_of = children value_fields;
  type_of = text_of;
}

kv_schema-total_example :
    kv_schema plain []
    ≡ ok (record {
      key_size = total key_fields % size_mod;
      value_size = total value_fields % size_mod;
    })
kv_schema-total_example =
    kv_schema-total plain [] root
      (text (105 ∷ 54 ∷ 52 ∷ []) ∷ text (70 ∷ 108 ∷ 111 ∷ 97 ∷ 116 ∷ 91 ∷ 49 ∷ 48 ∷ 93 ∷ []) ∷ [])
      (text (100 ∷ 111 ∷ 117 ∷ 98 ∷ 108 ∷ 101 ∷ []) ∷ []) key_fields value_fields refl refl refl
      (refl, (refl, refl), (refl, (refl, refl, refl), tt)) (refl, (refl, refl), tt)
