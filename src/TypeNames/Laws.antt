-- ===== src/TypeNames/Laws.antt =====
-- Field types printed and read back (src/database.c).
use luminix_experience_platf.TypeNames.{field_type_to_string, string_to_field_type, case_eq}
use luminix_experience_platf.Schema.{type_unknown, FieldType}
use luminix_experience_platf.Schema.{
  type_unknown, type_int, type_string, type_float, type_double, type_bool, type_datetime, type_blob,
  type_null,
}
use luminix_experience_platf.Base.{codes, to_lower, map, Bytes, [], ◌∷◌, some, ◌≡◌, refl}

-- what is read back
abbrev pub read_back : FieldType → FieldType
read_back type_double = type_unknown
read_back type_null = type_unknown
read_back type = type

-- The name that is printed for a field type is read back as that type, except that DOUBLE and NULL
-- are read as the unknown type.
pub string_to_field_type-field_type_to_string :
    (type : FieldType) → string_to_field_type (some (field_type_to_string type)) ≡ read_back type
unfolding string_to_field_type field_type_to_string case_eq
string_to_field_type-field_type_to_string type_unknown = refl
string_to_field_type-field_type_to_string type_int = refl
string_to_field_type-field_type_to_string type_string = refl
string_to_field_type-field_type_to_string type_float = refl
string_to_field_type-field_type_to_string type_double = refl
string_to_field_type-field_type_to_string type_bool = refl
string_to_field_type-field_type_to_string type_datetime = refl
string_to_field_type-field_type_to_string type_blob = refl
string_to_field_type-field_type_to_string type_null = refl

case_eq-lower : (a b s : Bytes) → map to_lower a ≡ map to_lower b → case_eq a s ≡ case_eq b s
unfolding case_eq
case_eq-lower [] [] s h = refl
case_eq-lower [] (b ∷ bs) s h = cc
case_eq-lower (a ∷ as') [] s h = cc
case_eq-lower (a ∷ as') (b ∷ bs) [] h = refl
case_eq-lower (a ∷ as') (b ∷ bs) (c ∷ cs) h =
    let first : to_lower a ≡ to_lower b = cc in
    let rest : map to_lower as' ≡ map to_lower bs = cc in
    rw (first, case_eq-lower as' bs cs rest) refl

-- Two names that differ in case alone are read as the same type.
pub string_to_field_type_any_case :
    (a b : Bytes)
    → map to_lower a ≡ map to_lower b
    → string_to_field_type (some a) ≡ string_to_field_type (some b)
unfolding string_to_field_type
string_to_field_type_any_case a b h =
    let same : (s : Bytes) → case_eq a s ≡ case_eq b s = λ s. case_eq-lower a b s h in
    rw
      (
        same (codes "INTEGER"),
        same (codes "INT"),
        same (codes "FLOAT"),
        same (codes "STRING"),
        same (codes "BOOLEAN"),
        same (codes "BOOL"),
        same (codes "DATETIME"),
        same (codes "BLOB"),
      )
      refl
