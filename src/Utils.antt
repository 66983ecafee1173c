-- ===== src/Utils.antt =====
-- The string functions of src/utils.c and its test of names; a text that the code changes in place
-- is returned.
pub mod Laws
pub mod Strings
pub mod Arrays
use luminix_experience_platf.Base.{
  is_prefix, drop, to_lower, length, str_eq, map, ltb, codes, leb, Bytes, ◌*◌, ◌/◌, ◌%◌, ◌^◌, ◌==◌,
  ℕ, zero, suc, ◌+◌, ◌-◌, ◌≤◌, ◌<◌, ℤ, pos, negsuc, Bool, true, false, not, ◌&&◌, ◌||◌, List, [],
  ◌∷◌, ◌++◌, Option, none, some, ◌≡◌, ◌≢◌, ◌↔◌, refl, arith, if◌then◌else◌, inl, inr,
}

-- `toupper` in the C locale
abbrev pub to_upper : ℕ → ℕ
to_upper c = if leb 97 c && leb c 122 then c - 32 else c

abbrev pub to_lower_case : Option Bytes → Option Bytes
to_lower_case none = none
to_lower_case (some str) = some (map to_lower str)

abbrev pub to_upper_case : Option Bytes → Option Bytes
to_upper_case none = none
to_upper_case (some str) = some (map to_upper str)

unfoldable pub string_starts_with : Option Bytes → Option Bytes → ℤ
string_starts_with (some str) (some prefix) =
    if ltb (length str) (length prefix)
    then pos 0
    else if is_prefix prefix str
    then pos 1
    else pos 0
string_starts_with _ _ = pos 0

unfoldable pub string_ends_with : Option Bytes → Option Bytes → ℤ
string_ends_with (some str) (some suffix) =
    if ltb (length str) (length suffix)
    then pos 0
    else if str_eq (drop (length str - length suffix) str) suffix
    then pos 1
    else pos 0
string_ends_with _ _ = pos 0

abbrev pub is_alpha : ℕ → Bool
is_alpha c = (leb 65 c && leb c 90) || (leb 97 c && leb c 122)

abbrev pub is_name_char : ℕ → Bool
is_name_char c = is_alpha c || (leb 48 c && leb c 57) || c == 95

unfoldable pub all_name_chars : Bytes → Bool
all_name_chars [] = true
all_name_chars (c ∷ cs) = if not (is_name_char c) then false else all_name_chars cs

abbrev pub reserved_keywords : List Bytes
reserved_keywords =
    codes "SELECT"
    ∷ codes "INSERT"
    ∷ codes "UPDATE"
    ∷ codes "DELETE"
    ∷ codes "CREATE"
    ∷ codes "DROP"
    ∷ codes "ALTER"
    ∷ codes "TABLE"
    ∷ codes "INDEX"
    ∷ codes "DATABASE"
    ∷ codes "FROM"
    ∷ codes "WHERE"
    ∷ codes "AND"
    ∷ codes "OR"
    ∷ codes "NOT"
    ∷ codes "NULL"
    ∷ codes "TRUE"
    ∷ codes "FALSE"
    ∷ codes "INT"
    ∷ codes "FLOAT"
    ∷ codes "STRING"
    ∷ codes "BOOL"
    ∷ codes "DATE"
    ∷ codes "PRIMARY"
    ∷ codes "KEY"
    ∷ codes "FOREIGN"
    ∷ codes "REFERENCES"
    ∷ codes "UNIQUE"
    ∷ codes "CHECK"
    ∷ codes "DEFAULT"
    ∷ []

unfoldable pub is_reserved : List Bytes → Bytes → Bool
is_reserved [] upper_name = false
is_reserved (keyword ∷ rest) upper_name =
    if str_eq upper_name keyword then true else is_reserved rest upper_name

-- the copy of the name is granted
unfoldable pub validate_table_name : Option Bytes → ℤ
validate_table_name none = pos 0
validate_table_name (some []) = pos 0
validate_table_name (some (c ∷ cs)) =
    if ltb 64 (length (c ∷ cs))
    then pos 0
    else if not (is_alpha c) && not (c == 95)
    then pos 0
    else if not (all_name_chars cs)
    then pos 0
    else if is_reserved reserved_keywords (map to_upper (c ∷ cs))
    then pos 0
    else pos 1
