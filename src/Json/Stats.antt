-- ===== src/Json/Stats.antt =====
-- src/json_io.c: json_get_stats_string, json_get_type and validate_json. `none` means that the fuel
-- of the counting loop ran out. The clock, and the members of JsonStats that stay 0, are left out.
pub mod Laws
pub mod Validate
use luminix_experience_platf.Base.{
  length, codes, Bytes, ◌*◌, ◌/◌, ◌%◌, ◌^◌, ◌==◌, ℕ, zero, suc, ◌+◌, ◌-◌, ◌≤◌, ◌<◌, ℤ, pos, negsuc,
  Bool, true, false, not, ◌&&◌, ◌||◌, List, [], ◌∷◌, ◌++◌, Option, none, some, ◌≡◌, ◌≢◌, ◌↔◌, refl,
  arith, if◌then◌else◌, inl, inr,
}
use luminix_experience_platf.Schema.{ErrorCode, success, error_invalid_input}
use luminix_experience_platf.Json.{
  TokenType, JsonToken, token_tag, json_parse_token, token_object_start, token_object_end,
  token_array_start, token_array_end, token_string, token_number, token_boolean, token_null,
  token_colon, token_comma, token_eof, token_none,
}

pub record JsonStats : Type 0 where
  pub total_size : ℕ
  pub object_count : ℕ
  pub array_count : ℕ
  pub string_count : ℕ
  pub string_bytes : ℕ
  pub number_count : ℕ
  pub boolean_count : ℕ
  pub null_count : ℕ
  pub element_count : ℕ

abbrev value_length : Option Bytes → ℕ
value_length none = 0
value_length (some v) = length v

-- the switch on the type of a token
unfoldable pub count_token : JsonStats → JsonToken → JsonStats
count_token stats t = elim t.type [
  | token_object_start ↦ record stats { object_count = stats.object_count + 1 }
  | token_array_start ↦ record stats { array_count = stats.array_count + 1 }
  | token_string ↦ record stats {
    string_count = stats.string_count + 1;
    string_bytes = stats.string_bytes + value_length t.value;
  }
  | token_number ↦ record stats { number_count = stats.number_count + 1 }
  | token_boolean ↦ record stats { boolean_count = stats.boolean_count + 1 }
  | token_null ↦ record stats { null_count = stats.null_count + 1 }
  | _ ↦ stats
]

unfoldable pub count_tokens : ℕ → Bytes → JsonStats → Option JsonStats
unfolding count_token
count_tokens zero json stats = none
count_tokens (suc f) json stats =
    let (t, rest) = json_parse_token json in
    let more = count_tokens f rest (count_token stats t) in
    if token_tag t.type == token_tag token_eof then some stats else more

abbrev pub start_stats : ℕ → JsonStats
start_stats n = record {
  total_size = n;
  object_count = 0;
  array_count = 0;
  string_count = 0;
  string_bytes = 0;
  number_count = 0;
  boolean_count = 0;
  null_count = 0;
  element_count = 0;
}

abbrev pub sum_elements : JsonStats → JsonStats
sum_elements stats = record stats {
  element_count = stats.string_count + stats.number_count + stats.boolean_count + stats.null_count;
}

unfoldable pub json_get_stats_string : ℕ → Bytes → Option JsonStats
unfolding count_tokens
json_get_stats_string fuel json = elim (count_tokens fuel json (start_stats (length json))) [
  | none ↦ none
  | some stats ↦ some (sum_elements stats)
]

unfoldable pub json_get_type : Bytes → Bytes
json_get_type json = elim (json_parse_token json).0.type [
  | token_object_start ↦ codes "object"
  | token_array_start ↦ codes "array"
  | token_string ↦ codes "string"
  | token_number ↦ codes "number"
  | token_boolean ↦ codes "boolean"
  | token_null ↦ codes "null"
  | _ ↦ codes "unknown"
]

-- the first token of a value
abbrev pub starts_value : TokenType → Bool
starts_value t =
    t_is token_object_start
    || t_is token_array_start
    || t_is token_string
    || t_is token_number
    || t_is token_boolean
    || t_is token_null
  where
    t_is : TokenType → Bool
    t_is k = token_tag t == token_tag k

unfoldable pub validate_json : Bytes → ErrorCode
validate_json json =
    let (first, after_first) = json_parse_token json in
    let (second, after_second) = json_parse_token after_first in
    if token_tag first.type == token_tag token_none
    then error_invalid_input
    else if not (starts_value first.type)
    then error_invalid_input
    else if not (token_tag second.type == token_tag token_eof)
    then error_invalid_input
    else success
