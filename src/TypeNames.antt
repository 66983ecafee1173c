-- ===== src/TypeNames.antt =====
-- The names of field and index types, in src/database.c.
pub mod Laws
use luminix_experience_platf.Schema.{
  type_blob, type_datetime, type_bool, type_string, type_float, type_int, type_unknown, FieldType,
}
use luminix_experience_platf.Schema.{
  type_unknown, type_int, type_string, type_float, type_double, type_bool, type_datetime, type_blob,
  type_null,
}
use luminix_experience_platf.Base.{
  to_lower, codes, Bytes, ◌*◌, ◌/◌, ◌%◌, ◌^◌, ◌==◌, ℕ, zero, suc, ◌+◌, ◌-◌, ◌≤◌, ◌<◌, ℤ, pos,
  negsuc, Bool, true, false, not, ◌&&◌, ◌||◌, List, [], ◌∷◌, ◌++◌, Option, none, some, ◌≡◌, ◌≢◌,
  ◌↔◌, refl, arith, if◌then◌else◌, inl, inr,
}

unfoldable pub field_type_to_string : FieldType → Bytes
field_type_to_string type_int = codes "INT"
field_type_to_string type_string = codes "STRING"
field_type_to_string type_float = codes "FLOAT"
field_type_to_string type_double = codes "DOUBLE"
field_type_to_string type_bool = codes "BOOL"
field_type_to_string type_datetime = codes "DATETIME"
field_type_to_string type_blob = codes "BLOB"
field_type_to_string type_null = codes "NULL"
field_type_to_string type_unknown = codes "UNKNOWN"

-- `strcasecmp(a, b) == 0`
unfoldable pub case_eq : Bytes → Bytes → Bool
case_eq [] [] = true
case_eq (a ∷ as') (b ∷ bs) = to_lower a == to_lower b && case_eq as' bs
case_eq _ _ = false

unfoldable pub string_to_field_type : Option Bytes → FieldType
unfolding case_eq
string_to_field_type none = type_unknown
string_to_field_type (some str) =
    if case_eq str (codes "INTEGER") || case_eq str (codes "INT")
    then type_int
    else if case_eq str (codes "FLOAT")
    then type_float
    else if case_eq str (codes "STRING")
    then type_string
    else if case_eq str (codes "BOOLEAN") || case_eq str (codes "BOOL")
    then type_bool
    else if case_eq str (codes "DATETIME")
    then type_datetime
    else if case_eq str (codes "BLOB")
    then type_blob
    else type_unknown
