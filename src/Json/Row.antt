-- ===== src/Json/Row.antt =====
-- src/json_io.c: record_to_json and json_to_record, and json_diff_string. The array of fields is
-- granted.
pub mod Laws
pub mod RoundTrip
use luminix_experience_platf.Base.{
  length, minus_one, get_or, str_eq, eqb_ℤ, codes, Bytes, ◌*◌, ◌/◌, ◌%◌, ◌^◌, ◌==◌, ℕ, zero, suc,
  ◌+◌, ◌-◌, ◌≤◌, ◌<◌, ℤ, pos, negsuc, Bool, true, false, not, ◌&&◌, ◌||◌, List, [], ◌∷◌, ◌++◌,
  Option, none, some, ◌≡◌, ◌≢◌, ◌↔◌, refl, arith, if◌then◌else◌, inl, inr,
}
use luminix_experience_platf.Schema.{
  ErrorCode, error_invalid_input, Field, Column, Record, Table, Env, type_unknown, zero_value,
  no_field,
}
use luminix_experience_platf.Json.{
  JsonToken, token_tag, json_parse_token, token_object_start, token_number,
}
use luminix_experience_platf.Json.Numbers.{print_int, atoi}
use luminix_experience_platf.Json.Writer.{
  JsonSerializeState, json_serialize_append, Writer, ◌>>◌, nothing, json_serialize_indent,
  indent_more, indent_less,
}
use luminix_experience_platf.Json.Save.{CLib, json_serialize_field_value}
use luminix_experience_platf.Json.Save.Whole.{json_buffer_size}
use luminix_experience_platf.Json.Load.{Union, value_of, is_token}
use luminix_experience_platf.Json.Load.Loops.{
  failure, Outcome, stopped, parsed, entered, Parsed, read_members,
}
use luminix_experience_platf.Json.Load.Rows.{RecordSoFar, value_key}

-- `if (state.pretty) ...`
abbrev pub when_pretty : Writer → Writer
when_pretty w s = if s.pretty then w s else some s

-- the loop over the columns, from number `i` on
unfoldable pub row_fields : CLib → Record → List Column → ℕ → Writer
row_fields c r [] i = nothing
row_fields c r (column ∷ columns) i =
    (if i == 0 then nothing else json_serialize_append (codes ","))
    >> when_pretty (json_serialize_append (codes "\n"))
    >> json_serialize_indent
    >> json_serialize_append (codes "\"")
    >> json_serialize_append column.name
    >> json_serialize_append (codes "\": ")
    >> json_serialize_field_value c (some (get_or r.fields i no_field))
    >> row_fields c r columns (i + 1)

unfoldable pub serialize_row : CLib → List Column → Record → Writer
unfolding row_fields
serialize_row c columns r =
    json_serialize_append (codes "{")
    >> indent_more
    >> json_serialize_indent
    >> json_serialize_append (codes "\"id\": ")
    >> json_serialize_append (print_int r.id)
    >> json_serialize_append (codes ",")
    >> when_pretty (json_serialize_append (codes "\n"))
    >> json_serialize_indent
    >> json_serialize_append (codes "\"fields\": {")
    >> indent_more
    >> row_fields c r columns 0
    >> when_pretty (json_serialize_append (codes "\n"))
    >> indent_less
    >> json_serialize_indent
    >> json_serialize_append (codes "}")
    >> indent_less
    >> when_pretty (json_serialize_append (codes "\n"))
    >> json_serialize_indent
    >> json_serialize_append (codes "}")

-- `pretty` is that of the options, or false without them
unfoldable pub record_to_json :
    CLib → (ℕ → Bool) → Bool → Option Record → Option Table → Option Bytes
unfolding serialize_row
record_to_json c grants pretty (some r) (some t) =
    if not (grants json_buffer_size)
    then none
    else elim (serialize_row c t.columns r (record {
      buffer = [];
      capacity = json_buffer_size;
      indent_level = 0;
      pretty = pretty;
      grants = grants;
    })) [ none ↦ none | some s ↦ some s.buffer ]
record_to_json c grants pretty _ _ = none

-- the array from `calloc`: all types are 0
unfoldable pub blank_fields : List Column → List Field
blank_fields [] = []
blank_fields (c ∷ cs) =
    record { name = []; type = type_unknown; value = zero_value } ∷ blank_fields cs

-- Of another key only the first token of the value is passed.
unfoldable pub row_key : Union → List Column → RecordSoFar → Bytes → Bytes → Parsed RecordSoFar
unfolding value_key
row_key u columns r k json =
    let (t, rest) = json_parse_token json in
    if str_eq k (codes "id")
    then (if is_token t (token_tag token_number)
        then some (parsed (record r { record_id = atoi (value_of t) }) rest)
        else some (stopped (failure error_invalid_input) r))
    else if str_eq k (codes "fields")
    then (if is_token t (token_tag token_object_start)
        then read_members (value_key u columns) r rest
        else some (stopped (failure error_invalid_input) r))
    else some (parsed r rest)

abbrev pub finish_row : Env → List Column → RecordSoFar → Option Record
finish_row env columns r =
    if eqb_ℤ r.record_id minus_one || not (env.alloc 0)
    then none
    else some (record {
      id = r.record_id;
      fields = r.field_values;
      field_count = length columns;
      timestamp = env.now;
      version = pos 1;
    })

abbrev pub made_row : Env → List Column → Parsed RecordSoFar → Option (Option Record)
made_row env columns none = none
made_row env columns (some (stopped code r)) = some none
made_row env columns (some (parsed r rest)) = some (finish_row env columns r)
made_row env columns (some (entered r rest)) = some (finish_row env columns r)

-- `none` means that the fuel ran out, `some none` is NULL
unfoldable pub json_to_record : Env → Union → Option Bytes → Option Table → Option (Option Record)
unfolding row_key blank_fields
json_to_record env u (some json) (some t) =
    let (first, rest) = json_parse_token json in
    if is_token first (token_tag token_object_start)
    then made_row env t.columns (
        read_members (row_key u t.columns)
          (record { record_id = minus_one; field_values = blank_fields t.columns }) rest)
    else some none
json_to_record env u _ _ = some none

-- whether the texts are the same, the only member of JsonDiff that is set
unfoldable pub json_diff_string : Option Bytes → Option Bytes → Option Bool
unfolding str_eq
json_diff_string (some json1) (some json2) = some (str_eq json1 json2)
json_diff_string _ _ = none
