-- ===== src/Tests/Json.antt =====
-- Runs of the JSON reader and writer.
use luminix_experience_platf.Json.Writer.Laws.{string_text}
use luminix_experience_platf.Json.Numbers.{print_int}
use luminix_experience_platf.Table.{table_find_record}
use luminix_experience_platf.Indexes.{update_indexes_for_record}
use luminix_experience_platf.Table.{choose_id, new_record, link_record, table_insert_record}
use luminix_experience_platf.Json.Load.Rows.{
  write_key, insert_read, set_value, column_index, default_fields, value_key, record_key,
  read_record, json_parse_table_records,
}
use luminix_experience_platf.Json.Load.Definitions.{
  copies_null, crashes_on_name, create_table, field_key, field_definition, schema_key,
  json_parse_table_schema, metadata_key, json_parse_database_metadata,
}
use luminix_experience_platf.Json.Load.Loops.{
  ended, Answer, items, skip_ignoring, key_head, members,
}
use luminix_experience_platf.Json.Numbers.Laws.{number_ends}
use luminix_experience_platf.Base.{
  str_eq, length, codes, Bytes, ◌*◌, ◌%◌, ◌^◌, ◌==◌, ℕ, ◌≤◌, ◌<◌, pos, negsuc, true, [], ◌∷◌, ◌++◌,
  Option, none, some, ◌≡◌, ◌↔◌, refl, arith, if◌then◌else◌,
}
use luminix_experience_platf.Schema.{
  success, type_int, type_string, Field, FieldValue, zero_value, State, Database,
}
use luminix_experience_platf.Database.Tables.{append_table, db_create, db_add_table}
use luminix_experience_platf.Database.Invariant.{DatabaseIsValid}
use luminix_experience_platf.Json.{
  token, token_string, mark, token_object_start, json_parse_token, json_skip_whitespace,
}
use luminix_experience_platf.Json.Escape.{
  json_escape_string, json_escape_string_alloc, escape_char, escape_loop,
}
use luminix_experience_platf.Json.Escape.Laws.{
  escape_all, unescape, plain, escape-read, length-json_escape_string-lt,
}
use luminix_experience_platf.Json.Skip.{comma_or_end, json_skip_token_value}
use luminix_experience_platf.Json.Stats.{json_get_stats_string, validate_json}
use luminix_experience_platf.Json.Stats.Laws.{no_tokens, next_token, json_get_stats_string_hangs}
use luminix_experience_platf.Json.Stats.Validate.{validate_json-bracket}
use luminix_experience_platf.Json.Writer.{JsonSerializeState, double_capacity}
use luminix_experience_platf.Json.Writer.Room.{IsReady, double_capacity-ends}
use luminix_experience_platf.Json.Save.{CLib}
use luminix_experience_platf.Json.Save.Texts.{database_text, value_text}
use luminix_experience_platf.Json.Save.Whole.{Disk}
use luminix_experience_platf.Json.Load.{value_for, Union, ReadsBack, json_parse_field_value}
use luminix_experience_platf.Json.Load.Laws.{SameValue}
use luminix_experience_platf.Json.Load.File.{
  skip_checked, set_last, last_table, after_object, siblings, sibling_value, sibling, after_schema,
  table_round, tables_loop, database_key, load_text, db_load_from_file,
}
use luminix_experience_platf.Json.Load.File.Valid.{db_load_from_file-DatabaseIsValid}
use luminix_experience_platf.Json.Load.Loops.{Answer, ended, crashed}
use luminix_experience_platf.Json.Load.Written.{
  IsText, WritesAndReads, json_parse_field_value-json_serialize_field_value, reread_escaped,
}
use luminix_experience_platf.Tests.Data.{database, granted, start}

-- each member by itself
abbrev pub members_apart : Union
members_apart = record {
  write_int = λ n v. record v { int_value = n };
  write_string = λ s v. record v { string_value = s };
  write_float = λ n v. record v { float_value = n };
  write_double = λ n v. record v { double_value = n };
  write_bool = λ b v. record v { bool_value = b };
  float_of = λ s. length s;
  double_of = λ s. length s;
  scan_time = λ s. if length s == 19 then some 0 else none;
}

pub members_apart_read_back : ReadsBack members_apart
members_apart_read_back = record {
  int_back = λ n v. refl;
  string_back = λ s v. refl;
  bool_back = λ b v. refl;
}

abbrev pub a_library : CLib
a_library = record {
  print_float = λ n. codes "0.500000";
  print_double = λ n. codes "0.5000000000";
  local_time = λ t. codes "2024-05-01 12:00:00";
  stack = λ n. [];
}

abbrev quoted : Bytes
quoted = codes "say \"hi\"\n"

escape-read_example :
    (unescape plain (json_escape_string_alloc quoted) ≡ quoted)
    × (json_parse_token (34 ∷ json_escape_string_alloc quoted ++ 34 ∷ codes ", 1")
        ≡ (token token_string (json_escape_string_alloc quoted), codes ", 1"))
escape-read_example = escape-read quoted (codes ", 1")

length-json_escape_string-lt_example : length (json_escape_string quoted 6) < 6
length-json_escape_string-lt_example = length-json_escape_string-lt quoted 6 (omega arith)

json_escape_string_drops : json_escape_string (codes "\"ab") 2 ≡ codes "a"
unfolding json_escape_string escape_loop escape_char
json_escape_string_drops = refl

abbrev bad_text : Bytes
bad_text = codes "{ @"

json_get_stats_string_hangs_example : json_get_stats_string 1000 bad_text ≡ none
unfolding json_parse_token
json_get_stats_string_hangs_example =
    json_get_stats_string_hangs bad_text (mark token_object_start ∷ []) (codes " @") (codes "@")
      (next_token bad_text [] (codes " @") refl (no_tokens (codes " @"))) refl (λ e. cc) 1000

validate_json-bracket_example :
    (validate_json (codes "{\"a\": 1}") ≡ success) ↔ (json_skip_whitespace (codes "\"a\": 1}") ≡ [])
validate_json-bracket_example = validate_json-bracket 123 (codes "\"a\": 1}") refl

double_capacity-ends_example :
    (c : ℕ) × (double_capacity 64 (4096 * 2 % 2 ^ 64) 100000 ≡ some c)
    × (100000 ≤ c)
    × (c ≤ 2 * 100000)
double_capacity-ends_example =
    double_capacity-ends 4096 100000 (omega arith) (omega arith) (omega arith)

abbrev forty_two : FieldValue
forty_two = record zero_value { int_value = negsuc 41 }

abbrev empty_buffer : JsonSerializeState
empty_buffer = record {
  buffer = [];
  capacity = 4096;
  indent_level = 0;
  pretty = true;
  grants = λ n. true;
}

empty_buffer-IsReady : IsReady empty_buffer
empty_buffer-IsReady = record { room = omega arith; bounded = omega arith; granted = λ n. refl }

abbrev of_n : Field
of_n = record { name = codes "n"; type = type_int; value = forty_two }

json_parse_field_value-json_serialize_field_value_example :
    WritesAndReads a_library members_apart empty_buffer of_n type_int
      (codes ",\n")
      (λ r. (r.0.type ≡ type_int) × SameValue type_int forty_two r.0.value × (r.1 ≡ codes ",\n"))
unfolding number_ends value_text print_int
json_parse_field_value-json_serialize_field_value_example =
    json_parse_field_value-json_serialize_field_value a_library members_apart
      members_apart_read_back empty_buffer empty_buffer-IsReady (codes "n") (codes ",\n") type_int
      forty_two (omega arith, omega arith) refl (omega arith)

abbrev says_hi : FieldValue
says_hi = record zero_value { string_value = quoted }

abbrev of_s : Field
of_s = record { name = codes "s"; type = type_string; value = says_hi }

reread_escaped_example :
    WritesAndReads a_library members_apart empty_buffer of_s type_string
      (codes "\n")
      (IsText (json_escape_string_alloc quoted) (codes "\n"))
unfolding value_text string_text escape_all escape_char
reread_escaped_example =
    reread_escaped a_library members_apart members_apart_read_back empty_buffer empty_buffer-IsReady
      (codes "s") (codes "\n") says_hi (omega arith)

escapes_grow : escape_all quoted ≡ codes "say \\\"hi\\\"\\n"
unfolding escape_all escape_char
escapes_grow = refl

abbrev saved : Bytes
saved =
    codes
      "{\"metadata\": {\"name\": \"x\"}, \"tables\": [{\"schema\": {\"name\": \"t\", \"fields\": [{\"name\": \"id\", \"type\": \"INT\"}, {\"name\": \"s\", \"type\": \"STRING\"}]}, \"records\": [{\"id\": 7, \"fields\": {\"id\": 7, \"s\": \"x\"}}]}]}"

abbrev result_of_load : Option (Answer (Option State))
result_of_load = db_load_from_file granted members_apart (pos 1) true (some saved)

abbrev no_state : State
no_state = start

abbrev state_of : Answer (Option State) → State
state_of crashed = no_state
state_of (ended none) = no_state
state_of (ended (some s)) = s

abbrev loaded_state : State
loaded_state = elim result_of_load [ none ↦ no_state | some r ↦ state_of r ]

loads : result_of_load ≡ some (ended (some loaded_state))
unfolding db_load_from_file db_create load_text members key_head comma_or_end database_key
    json_parse_database_metadata metadata_key skip_ignoring tables_loop table_round
    json_parse_table_schema schema_key items field_definition field_key create_table crashes_on_name
    copies_null db_add_table append_table after_schema sibling sibling_value siblings after_object
    last_table set_last json_parse_table_records read_record record_key value_key default_fields
    column_index set_value json_parse_field_value value_for insert_read write_key
    table_insert_record json_parse_token str_eq skip_checked json_skip_token_value link_record
    new_record choose_id update_indexes_for_record table_find_record
loads = refl

db_load_from_file-DatabaseIsValid_example : DatabaseIsValid loaded_state.db
db_load_from_file-DatabaseIsValid_example =
    db_load_from_file-DatabaseIsValid granted members_apart (pos 1) true (some saved) loaded_state
      loads

abbrev empty_database : Database
empty_database = elim (db_create granted) [ none ↦ database | some db ↦ db ]

abbrev a_disk : Disk
a_disk = record { opens = true; written = λ n. n }

abbrev saved_text : Bytes
saved_text = database_text a_library 0 (some quoted) true 0 database

nameless_crashes :
    db_load_from_file granted members_apart (pos 1) true (
      some (
        codes "{\"tables\": [{\"schema\": {\"name\": \"t\", \"fields\": [{\"type\": \"INT\"}]}}]}"))
    ≡ some crashed
unfolding db_load_from_file db_create load_text members key_head comma_or_end database_key
    tables_loop table_round json_parse_table_schema schema_key items field_definition field_key
    create_table crashes_on_name copies_null db_add_table append_table json_parse_token str_eq
nameless_crashes = refl
