-- ===== src/Json/Load/Definitions.antt =====
-- src/json_io.c: json_parse_database_metadata and json_parse_table_schema. The environment answers
-- as in every call of src/database.c, memory for names is granted.
pub mod Total
use luminix_experience_platf.Base.{
  take, codes, str_eq, ltb, length, get_or, Bytes, ◌*◌, ◌/◌, ◌%◌, ◌^◌, ◌==◌, ℕ, zero, suc, ◌+◌, ◌-◌,
  ◌≤◌, ◌<◌, ℤ, pos, negsuc, Bool, true, false, not, ◌&&◌, ◌||◌, List, [], ◌∷◌, ◌++◌, Option, none,
  some, ◌≡◌, ◌≢◌, ◌↔◌, refl, arith, if◌then◌else◌, inl, inr,
}
use luminix_experience_platf.Schema.{
  ErrorCode, success, error_invalid_input, is_success, FieldType, type_string, type_unknown,
  Database, Env, max_table_name_chars,
}
use luminix_experience_platf.TypeNames.{string_to_field_type}
use luminix_experience_platf.Database.Tables.{db_add_table}
use luminix_experience_platf.Json.{
  JsonToken, token_tag, json_parse_token, token_object_start, token_array_start, token_string,
}
use luminix_experience_platf.Json.Load.{value_of, is_token}
use luminix_experience_platf.Json.Load.Loops.{
  crash, failure, Outcome, stopped, parsed, entered, Parsed, read_members, read_items, members,
  items, skip_ignoring,
}

-- the values are skipped
unfoldable pub metadata_key : Unit {0} → Bytes → Bytes → Parsed (Unit {0})
metadata_key s k json =
    let (t, rest) = json_parse_token json in
    if str_eq k (codes "name") && is_token t (token_tag token_string)
    then some (parsed s rest)
    else skip_ignoring s json

unfoldable pub json_parse_database_metadata : Bytes → Parsed (Unit {0})
unfolding metadata_key
json_parse_database_metadata json =
    let (t, rest) = json_parse_token json in
    if is_token t (token_tag token_object_start)
    then read_members metadata_key tt rest
    else some (stopped (failure error_invalid_input) tt)

-- a field that is being read: its name, NULL at first, and its type
pub record FieldDefinition : Type 0 where
  pub field_name : Option Bytes
  pub field_type : FieldType

unfoldable pub field_key : FieldDefinition → Bytes → Bytes → Parsed FieldDefinition
field_key d k json =
    let (t, rest) = json_parse_token json in
    if str_eq k (codes "name")
    then (if is_token t (token_tag token_string)
        then some (parsed (record d { field_name = some (value_of t) }) rest)
        else some (stopped (failure error_invalid_input) d))
    else if str_eq k (codes "type")
    then (if is_token t (token_tag token_string)
        then some (parsed (record d { field_type = string_to_field_type (some (value_of t)) }) rest)
        else some (stopped (failure error_invalid_input) d))
    else skip_ignoring d json

-- what the schema has given so far: the name, and the arrays of names and types
pub record SchemaSoFar : Type 0 where
  pub table_name : Bytes
  pub fields : List FieldDefinition

abbrev pub new_definition : FieldDefinition
new_definition = record { field_name = none; field_type = type_string }

abbrev pub add_definition : SchemaSoFar → Parsed FieldDefinition → Parsed SchemaSoFar
add_definition s none = none
add_definition s (some (stopped code d)) = some (stopped code s)
add_definition s (some (parsed d rest)) =
    some (parsed (record s { fields = s.fields ++ d ∷ [] }) rest)
add_definition s (some (entered d rest)) =
    some (parsed (record s { fields = s.fields ++ d ∷ [] }) rest)

-- one object of the array of fields
unfoldable pub field_definition : SchemaSoFar → Bytes → Parsed SchemaSoFar
unfolding field_key
field_definition s json = add_definition s (read_members field_key new_definition json)

-- `entered`: the key `schema` goes on inside its object, whose end is taken for that of the whole
unfoldable pub schema_key : SchemaSoFar → Bytes → Bytes → Parsed SchemaSoFar
unfolding field_definition
schema_key s k json =
    let (t, rest) = json_parse_token json in
    if str_eq k (codes "name")
    then (if is_token t (token_tag token_string)
        then some (parsed (record s { table_name = take max_table_name_chars (value_of t) }) rest)
        else some (stopped (failure error_invalid_input) s))
    else if str_eq k (codes "fields")
    then (if is_token t (token_tag token_array_start)
        then read_items field_definition s rest
        else some (stopped (failure error_invalid_input) s))
    else if str_eq k (codes "schema")
    then (if is_token t (token_tag token_object_start)
        then some (entered s rest)
        else some (stopped (failure error_invalid_input) s))
    else skip_ignoring s json

-- the name of field i; one that is missing is NULL, which stops the copying of the names
abbrev pub name_at : List FieldDefinition → ℕ → Bytes
name_at ds i = elim (get_or ds i new_definition).field_name [ none ↦ [] | some n ↦ n ]

abbrev pub type_at : List FieldDefinition → ℕ → FieldType
type_at ds i = (get_or ds i new_definition).field_type

-- Whether db_add_table comes to `strdup` of a name that is NULL, which crashes. Allocation `k` is
-- that of the next name.
unfoldable pub copies_null : Env → List FieldDefinition → ℕ → Bool
copies_null env [] k = false
copies_null env (d ∷ ds) k = elim d.field_name [
  | none ↦ true
  | some n ↦ env.alloc k && copies_null env ds (k + 1)
]

-- the environment that grants the names, allocation 6 and on
abbrev pub grants_names : Env → Env
grants_names env = record env { alloc = λ k. if ltb k 6 then env.alloc k else true }

-- whether db_add_table comes to the copying of the names, and then to one that is NULL
unfoldable pub crashes_on_name : Env → Database → SchemaSoFar → Bool
unfolding copies_null
crashes_on_name env db s =
    is_success
      (db_add_table (grants_names env) db (some s.table_name) (some (name_at s.fields))
        (some (type_at s.fields)) (pos (length s.fields))).0
    && copies_null env s.fields 6

-- what follows the loop
unfoldable pub create_table : Env → Database → Parsed SchemaSoFar → Parsed Database
unfolding crashes_on_name
create_table env db none = none
create_table env db (some (stopped code s)) = some (stopped code db)
create_table env db (some (entered s rest)) = some (stopped (failure error_invalid_input) db)
create_table env db (some (parsed s rest)) =
    let (code, db') =
      db_add_table env db (some s.table_name) (some (name_at s.fields)) (some (type_at s.fields))
        (pos (length s.fields)) in
    if ltb 0 (length s.table_name) && ltb 0 (length s.fields)
    then (if crashes_on_name env db s
        then some (stopped crash db)
        else if is_success code
        then some (parsed db' rest)
        else some (stopped (failure code) db'))
    else some (stopped (failure error_invalid_input) db)

abbrev pub empty_schema : SchemaSoFar
empty_schema = record { table_name = []; fields = [] }

-- the opening brace may have been read before
unfoldable pub json_parse_table_schema : Env → Database → Bytes → Parsed Database
unfolding schema_key create_table
json_parse_table_schema env db json =
    let (t, rest) = json_parse_token json in
    create_table env db (
      read_members schema_key empty_schema
        (if is_token t (token_tag token_object_start) then rest else json))
