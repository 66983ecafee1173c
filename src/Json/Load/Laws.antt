-- ===== src/Json/Load/Laws.antt =====
-- src/json_io.c: json_parse_field_value on the texts of values.
use luminix_experience_platf.Base.{
  take_all, str_eq, length, int_max, ◌≤ℤ◌, int_min, ◌∙◌, append_assoc, take, codes, ap, is_prefix,
  Bytes, ◌==◌, ◌≤◌, Bool, true, false, [], ◌∷◌, ◌++◌, some, ◌≡◌, refl, if◌then◌else◌,
}
use luminix_experience_platf.Schema.{
  FieldType, type_int, type_string, type_bool, type_null, Field, FieldValue, zero_value,
  max_field_chars,
}
use luminix_experience_platf.Json.{
  JsonToken, token, token_tag, json_parse_token, token_string, token_number, token_boolean,
  token_null, json_skip_whitespace, token_at, literal_token, json_match_string,
}
use luminix_experience_platf.Json.Escape.Laws.{escape_all, json_parse_token-string}
use luminix_experience_platf.Json.Numbers.{print_int, atoi}
use luminix_experience_platf.Json.Numbers.Laws.{
  number_ends, json_parse_token-print_int, atoi-print_int,
}
use luminix_experience_platf.Json.Save.{CLib}
use luminix_experience_platf.Json.Save.Texts.{value_text}
use luminix_experience_platf.Json.Writer.Laws.{string_text}
use luminix_experience_platf.Json.Load.{
  Union, ReadsBack, value_for, json_parse_field_value, bool_value_of,
}

parse_string_text :
    (str rest : Bytes)
    → json_parse_token (string_text (some str) ++ rest)
      ≡ (token token_string (escape_all str), rest)
unfolding string_text
parse_string_text str rest =
    ap (λ r. json_parse_token (34 ∷ r)) (append_assoc (escape_all str) (34 ∷ []) rest)
    ∙ json_parse_token-string str rest

parse_true :
    (rest : Bytes)
    → json_parse_token (codes "true" ++ rest) ≡ (token token_boolean (codes "true"), rest)
unfolding json_parse_token json_skip_whitespace token_at literal_token json_match_string is_prefix
parse_true rest = refl

parse_false :
    (rest : Bytes)
    → json_parse_token (codes "false" ++ rest) ≡ (token token_boolean (codes "false"), rest)
unfolding json_parse_token json_skip_whitespace token_at literal_token json_match_string is_prefix
parse_false rest = refl

parse_null :
    (rest : Bytes)
    → json_parse_token (codes "null" ++ rest) ≡ (token token_null (codes "null"), rest)
unfolding json_parse_token json_skip_whitespace token_at literal_token json_match_string is_prefix
parse_null rest = refl

-- A value that is not `null` is read from its first token.
from_token :
    (u : Union) (type : FieldType) (json rest : Bytes) (t : JsonToken)
    → json_parse_token json ≡ (t, rest)
    → (token_tag t.type == 8) ≡ false
    → json_parse_field_value u type json
      ≡ (record { name = []; type = type; value = value_for u type t }, rest)
unfolding json_parse_field_value
from_token u type json rest t e n = rw (e, n) refl

from_null :
    (u : Union) (type : FieldType) (rest : Bytes)
    → json_parse_field_value u type (codes "null" ++ rest)
      ≡ (record { name = []; type = type_null; value = zero_value }, rest)
unfolding json_parse_field_value
from_null u type rest = rw (parse_null rest) refl

reread_either :
    (u : Union)
    → ReadsBack u
    → (rest : Bytes) (b : Bool)
    → let r : Field × Bytes =
        json_parse_field_value u type_bool ((if b then codes "true" else codes "false") ++ rest) in
      (r.0.type ≡ type_bool) × (r.0.value.bool_value ≡ b) × (r.1 ≡ rest)
unfolding value_for bool_value_of str_eq
reread_either u back rest true =
    rw
      (from_token u type_bool (codes "true" ++ rest) rest (token token_boolean (codes "true"))
        (parse_true rest) refl)
      (refl, back.bool_back true zero_value, refl)
reread_either u back rest false =
    rw
      (from_token u type_bool (codes "false" ++ rest) rest (token token_boolean (codes "false"))
        (parse_false rest) refl)
      (refl, back.bool_back false zero_value, refl)

module _ (c : CLib) (u : Union) (back : ReadsBack u) where
  -- what a value of a field becomes when it is written and read back as the type of its column
  abbrev reread : FieldType → Field → Bytes → Field × Bytes
  reread type f rest = json_parse_field_value u type (value_text c (some f) ++ rest)

  -- If a member of the union reads as what was written to it: the text of a string is read as its
  -- escapes, cut to 255 bytes.
  pub reread_string :
      (name rest : Bytes) (v : FieldValue)
      → let r : Field × Bytes =
          reread type_string (record { name = name; type = type_string; value = v }) rest in
        (r.0.type ≡ type_string)
        × (r.0.value.string_value ≡ take max_field_chars (escape_all v.string_value))
        × (r.1 ≡ rest)
  unfolding value_text value_for
  reread_string name rest v =
      rw
        (from_token u type_string (string_text (some v.string_value) ++ rest) rest
          (token token_string (escape_all v.string_value)) (parse_string_text v.string_value rest)
          refl)
        (refl, back.string_back (take max_field_chars (escape_all v.string_value)) zero_value, refl)

  pub reread_int :
      (name rest : Bytes) (v : FieldValue)
      → number_ends rest ≡ true
      → int_min ≤ℤ v.int_value
      → v.int_value ≤ℤ int_max
      → let r : Field × Bytes =
          reread type_int (record { name = name; type = type_int; value = v }) rest in
        (r.0.type ≡ type_int) × (r.0.value.int_value ≡ v.int_value) × (r.1 ≡ rest)
  unfolding value_text value_for
  reread_int name rest v e lo hi =
      rw
        (from_token u type_int (print_int v.int_value ++ rest) rest
          (token token_number (print_int v.int_value))
          (json_parse_token-print_int v.int_value rest e) refl)
        (
          refl,
          back.int_back (atoi (print_int v.int_value)) zero_value
              ∙ atoi-print_int v.int_value lo hi,
          refl,
        )

  pub reread_bool :
      (name rest : Bytes) (v : FieldValue)
      → let r : Field × Bytes =
          reread type_bool (record { name = name; type = type_bool; value = v }) rest in
        (r.0.type ≡ type_bool) × (r.0.value.bool_value ≡ v.bool_value) × (r.1 ≡ rest)
  unfolding value_text
  reread_bool name rest v = reread_either u back rest v.bool_value

  pub reread_null :
      (type : FieldType) (name rest : Bytes) (v : FieldValue)
      → reread type (record { name = name; type = type_null; value = v }) rest
        ≡ (record { name = []; type = type_null; value = zero_value }, rest)
  unfolding value_text
  reread_null type name rest v = from_null u type rest

-- A value that survives: an `int`, a string of at most 255 bytes without a byte to escape, a
-- Boolean, or NULL.
abbrev pub IsPlain : FieldType → FieldValue → Type 0
IsPlain type_int v = (int_min ≤ℤ v.int_value) × (v.int_value ≤ℤ int_max)
IsPlain type_string v =
    (escape_all v.string_value ≡ v.string_value) × (length v.string_value ≤ max_field_chars)
IsPlain type_bool v = Unit {0}
IsPlain type_null v = Unit {0}
IsPlain type v = ⊥

abbrev pub SameValue : FieldType → FieldValue → FieldValue → Type 0
SameValue type_int v w = w.int_value ≡ v.int_value
SameValue type_string v w = w.string_value ≡ v.string_value
SameValue type_bool v w = w.bool_value ≡ v.bool_value
SameValue type v w = Unit {0}

-- If a member of the union reads as what was written to it: the text of an `int`, a Boolean, a NULL,
-- or a string of at most 255 bytes without a byte to escape is read as that type and value, and what
-- follows it is left, if it does not go on with a number.
pub json_parse_field_value-value_text :
    (c : CLib) (u : Union)
    → ReadsBack u
    → (name rest : Bytes) (type : FieldType) (v : FieldValue) → IsPlain type v
    → number_ends rest ≡ true
    → let r : Field × Bytes =
        json_parse_field_value u type
          (value_text c (some (record { name = name; type = type; value = v })) ++ rest) in
      (r.0.type ≡ type) × SameValue type v r.0.value × (r.1 ≡ rest)
json_parse_field_value-value_text c u back name rest type_int v plain e =
    reread_int c u back name rest v e plain.0 plain.1
json_parse_field_value-value_text c u back name rest type_string v plain e =
    let (same_type, same, left) = reread_string c u back name rest v in
    (
      same_type,
      same ∙ ap (take max_field_chars) plain.0 ∙ take_all max_field_chars v.string_value plain.1,
      left,
    )
json_parse_field_value-value_text c u back name rest type_bool v plain e =
    reread_bool c u back name rest v
json_parse_field_value-value_text c u back name rest type_null v plain e =
    rw (reread_null c u back type_null name rest v) (refl, tt, refl)
json_parse_field_value-value_text c u back name rest type v plain e = absurd plain
