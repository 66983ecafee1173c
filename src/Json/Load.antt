-- ===== src/Json/Load.antt =====
-- src/json_io.c: json_parse_field_value. `Union` is how a write to one member of the union changes
-- what the others read as, and what the C library reads for numbers with a point and for dates.
pub mod Laws
pub mod Written
pub mod Loops
pub mod Definitions
pub mod Rows
pub mod File
use luminix_experience_platf.Base.{
  take, eqb_ℤ, codes, str_eq, Bytes, ◌*◌, ◌/◌, ◌%◌, ◌^◌, ◌==◌, ℕ, zero, suc, ◌+◌, ◌-◌, ◌≤◌, ◌<◌, ℤ,
  pos, negsuc, Bool, true, false, not, ◌&&◌, ◌||◌, List, [], ◌∷◌, ◌++◌, Option, none, some, ◌≡◌,
  ◌≢◌, ◌↔◌, refl, arith, if◌then◌else◌, inl, inr,
}
use luminix_experience_platf.Schema.{
  FieldType, type_int, type_string, type_float, type_double, type_bool, type_datetime, type_blob,
  type_null, type_unknown, Field, FieldValue, zero_value, max_field_chars,
}
use luminix_experience_platf.TypeNames.{case_eq}
use luminix_experience_platf.Json.{
  JsonToken, token_tag, json_parse_token, token_string, token_number, token_boolean, token_null,
}
use luminix_experience_platf.Json.Numbers.{atoi}

pub record Union : Type 0 where
  pub write_int : ℤ → FieldValue → FieldValue
  pub write_string : Bytes → FieldValue → FieldValue
  pub write_float : ℕ → FieldValue → FieldValue
  pub write_double : ℕ → FieldValue → FieldValue
  pub write_bool : Bool → FieldValue → FieldValue
  -- `atof`, as a float and as a double, by their bits
  pub float_of : Bytes → ℕ
  pub double_of : Bytes → ℕ
  -- `sscanf` of the six numbers of a date, and `mktime` of them
  pub scan_time : Bytes → Option ℕ

-- A member reads as what was last written to it.
pub record ReadsBack (u : Union) : Type 0 where
  pub int_back : (n : ℤ) (v : FieldValue) → (u.write_int n v).int_value ≡ n
  pub string_back : (s : Bytes) (v : FieldValue) → (u.write_string s v).string_value ≡ s
  pub bool_back : (b : Bool) (v : FieldValue) → (u.write_bool b v).bool_value ≡ b

abbrev pub value_of : JsonToken → Bytes
value_of t = elim t.value [ none ↦ [] | some v ↦ v ]

abbrev pub is_token : JsonToken → ℕ → Bool
is_token t tag = token_tag t.type == tag

unfoldable pub bool_value_of : JsonToken → Option Bool
unfolding case_eq atoi
bool_value_of t =
    if is_token t (token_tag token_boolean)
    then some (str_eq (value_of t) (codes "true"))
    else if is_token t (token_tag token_number)
    then some (not (eqb_ℤ (atoi (value_of t)) (pos 0)))
    else if is_token t (token_tag token_string)
    then some (
        case_eq (value_of t) (codes "true")
        || case_eq (value_of t) (codes "1")
        || case_eq (value_of t) (codes "yes"))
    else none

-- a write to a member, if there is a value
abbrev pub write_some {ℓ} :
    {A : Type ℓ} → (A → FieldValue → FieldValue) → Option A → FieldValue → FieldValue
write_some write none v = v
write_some write (some a) v = write a v

-- the value of a number or of a string
abbrev pub text_of : JsonToken → Option Bytes
text_of t =
    if is_token t (token_tag token_number) || is_token t (token_tag token_string)
    then some (value_of t)
    else none

-- the switch on the expected type
unfoldable pub value_for : Union → FieldType → JsonToken → FieldValue
unfolding bool_value_of
value_for u type_int t = write_some (λ s. u.write_int (atoi s)) (text_of t) zero_value
value_for u type_string t =
    write_some (λ s. u.write_string (take max_field_chars s)) (text_of t) zero_value
value_for u type_float t = write_some (λ s. u.write_float (u.float_of s)) (text_of t) zero_value
value_for u type_double t = write_some (λ s. u.write_double (u.double_of s)) (text_of t) zero_value
value_for u type_bool t = write_some u.write_bool (bool_value_of t) zero_value
value_for u type_datetime t =
    if is_token t (token_tag token_string)
    then write_some u.write_double (u.scan_time (value_of t)) zero_value
    else zero_value
value_for u type t = zero_value

unfoldable pub json_parse_field_value : Union → FieldType → Bytes → Field × Bytes
unfolding value_for
json_parse_field_value u expected_type json =
    let (t, rest) = json_parse_token json in
    if is_token t (token_tag token_null)
    then (record { name = []; type = type_null; value = zero_value }, rest)
    else (record { name = []; type = expected_type; value = value_for u expected_type t }, rest)
