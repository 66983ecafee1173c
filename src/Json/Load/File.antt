-- ===== src/Json/Load/File.antt =====
-- src/json_io.c: db_load_from_file. `content` is what the file system gives for the file, and
-- memory for it is granted.
pub mod SiblingsTotal
pub mod Total
pub mod SiblingsValid
pub mod Valid
use luminix_experience_platf.Base.{
  codes, str_eq, length, Bytes, ◌*◌, ◌/◌, ◌%◌, ◌^◌, ◌==◌, ℕ, zero, suc, ◌+◌, ◌-◌, ◌≤◌, ◌<◌, ℤ, pos,
  negsuc, Bool, true, false, not, ◌&&◌, ◌||◌, List, [], ◌∷◌, ◌++◌, Option, none, some, ◌≡◌, ◌≢◌,
  ◌↔◌, refl, arith, if◌then◌else◌, inl, inr,
}
use luminix_experience_platf.Schema.{
  ErrorCode, success, error_invalid_input, is_success, Table, Database, State, Env,
}
use luminix_experience_platf.Database.Tables.{db_create}
use luminix_experience_platf.Json.{
  JsonToken, token_tag, json_parse_token, token_object_start, token_object_end, token_array_start,
  token_array_end, token_string, token_colon, token_comma,
}
use luminix_experience_platf.Json.Skip.{json_skip_token_value}
use luminix_experience_platf.Json.Load.{Union, value_of, is_token}
use luminix_experience_platf.Json.Load.Loops.{
  Stop, failure, crash, Answer, ended, crashed, Outcome, stopped, parsed, entered, Parsed,
  read_members, members, skip_ignoring,
}
use luminix_experience_platf.Json.Load.Definitions.{
  json_parse_database_metadata, json_parse_table_schema,
}
use luminix_experience_platf.Json.Load.Rows.{Loading, json_parse_table_records}

abbrev pub after_skip : State → Option (ErrorCode × Bytes) → Parsed State
after_skip s none = none
after_skip s (some (code, rest)) =
    if is_success code then some (parsed s rest) else some (stopped (failure code) s)

-- `json_skip_token_value` where the code looks at its result
unfoldable pub skip_checked : State → Bytes → Parsed State
skip_checked s json =
    let (t, rest) = json_parse_token json in
    after_skip s (json_skip_token_value (2 * length rest + 2) t.type rest)

-- the table that `out_table` points to, which json_parse_table_schema has added
unfoldable pub last_table : List Table → Option Table
last_table [] = none
last_table (t ∷ []) = some t
last_table (t ∷ t' ∷ ts) = last_table (t' ∷ ts)

unfoldable pub set_last : List Table → Table → List Table
set_last [] u = []
set_last (t ∷ []) u = u ∷ []
set_last (t ∷ t' ∷ ts) u = t ∷ set_last (t' ∷ ts) u

abbrev pub put_loaded : State → Loading → State
put_loaded s l = record {
  db = record s.db { tables = set_last s.db.tables l.table };
  global_counter = l.global_counter;
}

abbrev pub store_loaded : State → Parsed Loading → Parsed State
store_loaded s none = none
store_loaded s (some (stopped code l)) = some (stopped code (put_loaded s l))
store_loaded s (some (parsed l rest)) = some (parsed (put_loaded s l) rest)
store_loaded s (some (entered l rest)) = some (entered (put_loaded s l) rest)

-- a member of the outer object of a table; there is a last table
unfoldable pub sibling_value : Env → Union → State → Bytes → Bytes → Parsed State
unfolding skip_checked last_table set_last
sibling_value env u s k json =
    if str_eq k (codes "records")
    then elim (last_table s.db.tables) [
      | none ↦ some (stopped (failure error_invalid_input) s)
      | some t ↦ store_loaded s (
          json_parse_table_records env u (record { table = t; global_counter = s.global_counter })
            json)
    ]
    else skip_checked s json

-- what follows a key: a colon, and the value
unfoldable pub sibling : Env → Union → State → JsonToken → Bytes → Parsed State
unfolding sibling_value
sibling env u s key_token json =
    let (colon, rest) = json_parse_token json in
    if is_token key_token (token_tag token_string) && is_token colon (token_tag token_colon)
    then sibling_value env u s (value_of key_token) rest
    else some (stopped (failure error_invalid_input) s)

abbrev pub by_sibling : (State → Bytes → Parsed State) → Parsed State → Parsed State
by_sibling loop none = none
by_sibling loop (some (stopped code s)) = some (stopped code s)
by_sibling loop (some (parsed s rest)) = loop s rest
by_sibling loop (some (entered s rest)) = loop s rest

-- the loop over the other members, to the end of the outer object
unfoldable pub siblings : ℕ → Env → Union → State → Bytes → Parsed State
siblings zero env u s json = none
siblings (suc f) env u s json =
    let (t, rest) = json_parse_token json in
    let (key_token, after_key) = json_parse_token rest in
    let following : Parsed State =
      by_sibling (λ s' rest'. siblings f env u s' rest') (sibling env u s key_token after_key) in
    if is_token t (token_tag token_object_end)
    then some (parsed s rest)
    else if is_token t (token_tag token_comma)
    then following
    else some (stopped (failure error_invalid_input) s)

-- What follows a table in the array: another one, after its opening brace or before it, the end of
-- the array, or what is not allowed.
pub data AfterTable : Type 0 where
  next_table : Bool → State → Bytes → AfterTable
  array_ends : State → Bytes → AfterTable
  broken_off : Stop → State → AfterTable

-- the separator of the array
unfoldable pub after_object : State → Bytes → AfterTable
after_object s json =
    let (t, rest) = json_parse_token json in
    if is_token t (token_tag token_comma)
    then next_table false s rest
    else if is_token t (token_tag token_array_end)
    then array_ends s rest
    else broken_off (failure error_invalid_input) s

abbrev pub after_siblings : Parsed State → Option AfterTable
after_siblings none = none
after_siblings (some (stopped code s)) = some (broken_off code s)
after_siblings (some (parsed s rest)) = some (after_object s rest)
after_siblings (some (entered s rest)) = some (after_object s rest)

-- the first sibling, and the others
abbrev pub first_sibling : Env → Union → Parsed State → Option AfterTable
first_sibling env u none = none
first_sibling env u (some (stopped code s)) = some (broken_off code s)
first_sibling env u (some (parsed s rest)) =
    after_siblings (siblings (suc (length rest)) env u s rest)
first_sibling env u (some (entered s rest)) =
    after_siblings (siblings (suc (length rest)) env u s rest)

-- what follows a schema
unfoldable pub after_schema : Env → Union → State → Bytes → Option AfterTable
unfolding after_object siblings sibling
after_schema env u s json =
    let (t, rest) = json_parse_token json in
    let (next_token, after_next) = json_parse_token rest in
    if is_token t (token_tag token_array_end)
    then some (array_ends s rest)
    else if is_token t (token_tag token_object_end)
    then some (after_object s rest)
    else if not (is_token t (token_tag token_comma))
    then some (broken_off (failure error_invalid_input) s)
    else if is_token next_token (token_tag token_object_start)
    then some (next_table true s after_next)
    else if is_token next_token (token_tag token_array_end)
    then some (array_ends s after_next)
    else if is_token next_token (token_tag token_string)
    then first_sibling env u (sibling env u s next_token after_next)
    else some (broken_off (failure error_invalid_input) s)

abbrev pub after_parsed : Env → Union → State → Parsed Database → Option AfterTable
after_parsed env u s none = none
after_parsed env u s (some (stopped code db)) = some (broken_off code (record s { db = db }))
after_parsed env u s (some (parsed db rest)) = after_schema env u (record s { db = db }) rest
after_parsed env u s (some (entered db rest)) = after_schema env u (record s { db = db }) rest

-- one round of the loop over the tables, with `has_table_start`
unfoldable pub table_round : Env → Union → Bool → State → Bytes → Option AfterTable
unfolding after_schema
table_round env u has_table_start s json =
    let (t, rest) = json_parse_token json in
    if has_table_start
    then after_parsed env u s (json_parse_table_schema env s.db json)
    else if is_token t (token_tag token_array_end)
    then some (array_ends s rest)
    else if is_token t (token_tag token_object_start)
    then after_parsed env u s (json_parse_table_schema env s.db rest)
    else some (broken_off (failure error_invalid_input) s)

abbrev pub by_after : (Bool → State → Bytes → Parsed State) → Option AfterTable → Parsed State
by_after loop none = none
by_after loop (some (next_table started s rest)) = loop started s rest
by_after loop (some (array_ends s rest)) = some (parsed s rest)
by_after loop (some (broken_off code s)) = some (stopped code s)

unfoldable pub tables_loop : ℕ → Env → Union → Bool → State → Bytes → Parsed State
tables_loop zero env u has_table_start s json = none
tables_loop (suc f) env u has_table_start s json =
    by_after (λ started s' rest. tables_loop f env u started s' rest)
      (table_round env u has_table_start s json)

abbrev pub with_state : State → Parsed (Unit {0}) → Parsed State
with_state s none = none
with_state s (some (stopped code m)) = some (stopped code s)
with_state s (some (parsed m rest)) = some (parsed s rest)
with_state s (some (entered m rest)) = some (parsed s rest)

-- a member of the whole
unfoldable pub database_key : Env → Union → State → Bytes → Bytes → Parsed State
unfolding tables_loop skip_checked
database_key env u s k json =
    let (t, rest) = json_parse_token json in
    if str_eq k (codes "metadata")
    then with_state s (json_parse_database_metadata json)
    else if str_eq k (codes "tables")
    then (if is_token t (token_tag token_array_start)
        then tables_loop (suc (length rest)) env u false s rest
        else some (stopped (failure error_invalid_input) s))
    else skip_checked s json

-- a database, NULL where the text was refused, or a crash; what follows the object is not read
abbrev pub loaded : Parsed State → Option (Answer (Option State))
loaded none = none
loaded (some (stopped (failure code) s)) = some (ended none)
loaded (some (stopped crash s)) = some crashed
loaded (some (parsed s rest)) = some (ended (some s))
loaded (some (entered s rest)) = some (ended (some s))

unfoldable pub load_text : Env → Union → State → Bytes → Option (Answer (Option State))
unfolding database_key
load_text env u s json =
    let (t, rest) = json_parse_token json in
    if is_token t (token_tag token_object_start)
    then loaded (read_members (database_key env u) s rest)
    else some (ended none)

-- `none` means that the fuel ran out, `ended none` is NULL
unfoldable pub db_load_from_file :
    Env → Union → ℤ → Bool → Option Bytes → Option (Answer (Option State))
unfolding load_text
db_load_from_file env u global_counter has_filename none = some (ended none)
db_load_from_file env u global_counter has_filename (some content) =
    if not has_filename || length content == 0 then some (ended none) else elim (db_create env) [
      | none ↦ some (ended none)
      | some db ↦ load_text env u (record { db = db; global_counter = global_counter }) content
    ]
