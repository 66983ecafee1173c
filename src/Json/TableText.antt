-- ===== src/Json/TableText.antt =====
-- src/json_io.c: table_to_json and json_to_table.
pub mod Laws
use luminix_experience_platf.Base.{
  str_eq, codes, Bytes, ◌*◌, ◌/◌, ◌%◌, ◌^◌, ◌==◌, ℕ, zero, suc, ◌+◌, ◌-◌, ◌≤◌, ◌<◌, ℤ, pos, negsuc,
  Bool, true, false, not, ◌&&◌, ◌||◌, List, [], ◌∷◌, ◌++◌, Option, none, some, ◌≡◌, ◌≢◌, ◌↔◌, refl,
  arith, if◌then◌else◌, inl, inr,
}
use luminix_experience_platf.Schema.{ErrorCode, error_invalid_input, Table, Database, State, Env}
use luminix_experience_platf.Json.{
  JsonToken, token_tag, json_parse_token, token_comma, token_string, token_colon,
}
use luminix_experience_platf.Json.Writer.{
  JsonSerializeState, json_serialize_append, Writer, ◌>>◌, nothing, json_serialize_indent,
  indent_more, indent_less,
}
use luminix_experience_platf.Json.Save.{CLib, json_serialize_table_records}
use luminix_experience_platf.Json.Save.Whole.{json_buffer_size, json_serialize_table_schema}
use luminix_experience_platf.Json.Load.{Union, value_of, is_token}
use luminix_experience_platf.Json.Load.Loops.{
  Stop, failure, crash, Answer, ended, crashed, Outcome, stopped, parsed, entered, Parsed,
}
use luminix_experience_platf.Json.Load.Definitions.{json_parse_table_schema}
use luminix_experience_platf.Json.Load.Rows.{Loading, json_parse_table_records}
use luminix_experience_platf.Json.Load.File.{last_table, store_loaded}

unfoldable pub serialize_table : CLib → Bool → Table → Writer
serialize_table c include_data t =
    json_serialize_append (codes "{")
    >> indent_more
    >> json_serialize_table_schema t
    >> (if include_data
        then json_serialize_append (codes ",\n") >> json_serialize_table_records c t
        else nothing)
    >> indent_less
    >> json_serialize_indent
    >> json_serialize_append (codes "}")

-- the members of the options, or true and false without them
unfoldable pub table_to_json : CLib → (ℕ → Bool) → Bool → Bool → Option Table → Option Bytes
unfolding serialize_table
table_to_json c grants pretty include_data none = none
table_to_json c grants pretty include_data (some t) =
    if not (grants json_buffer_size)
    then none
    else elim (serialize_table c include_data t (record {
      buffer = [];
      capacity = json_buffer_size;
      indent_level = 0;
      pretty = pretty;
      grants = grants;
    })) [ none ↦ none | some s ↦ some s.buffer ]

-- whether the table is returned, or NULL, and what has become of the database by then
abbrev pub returned : Parsed State → Option (Answer (Bool × State))
returned none = none
returned (some (stopped (failure code) s)) = some (ended (false, s))
returned (some (stopped crash s)) = some crashed
returned (some (parsed s rest)) = some (ended (true, s))
returned (some (entered s rest)) = some (ended (true, s))

-- what follows the schema; there is a last table
unfoldable pub read_rest : Env → Union → State → Bytes → Parsed State
unfolding last_table
read_rest env u s json =
    let (comma, after_comma) = json_parse_token json in
    let (k, after_key) = json_parse_token after_comma in
    let (colon, after_colon) = json_parse_token after_key in
    if not (is_token comma (token_tag token_comma))
    then some (parsed s after_comma)
    else if not (is_token k (token_tag token_string) && str_eq (value_of k) (codes "records"))
    then some (parsed s after_key)
    else if not (is_token colon (token_tag token_colon))
    then some (stopped (failure error_invalid_input) s)
    else elim (last_table s.db.tables) [
      | none ↦ some (stopped (failure error_invalid_input) s)
      | some t ↦ store_loaded s (
          json_parse_table_records env u (record { table = t; global_counter = s.global_counter })
            after_colon)
    ]

abbrev pub then_rest : Env → Union → State → Parsed Database → Parsed State
then_rest env u s none = none
then_rest env u s (some (stopped code db)) = some (stopped code (record s { db = db }))
then_rest env u s (some (parsed db rest)) = read_rest env u (record s { db = db }) rest
then_rest env u s (some (entered db rest)) = read_rest env u (record s { db = db }) rest

unfoldable pub json_to_table : Env → Union → State → Option Bytes → Option (Answer (Bool × State))
unfolding read_rest
json_to_table env u s none = some (ended (false, s))
json_to_table env u s (some json) =
    returned (then_rest env u s (json_parse_table_schema env s.db json))
