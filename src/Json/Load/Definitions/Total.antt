-- ===== src/Json/Load/Definitions/Total.antt =====
-- src/json_io.c: the parsers of the metadata and of a schema end on every text.
use luminix_experience_platf.Base.{
  codes, str_eq, if_elim, length, Bytes, ℕ, suc, ◌≤◌, none, some, arith, if◌then◌else◌,
}
use luminix_experience_platf.Schema.{Database, Env}
use luminix_experience_platf.Json.{json_parse_token}
use luminix_experience_platf.Json.Lexer.{json_parse_token-advances}
use luminix_experience_platf.Json.Load.{is_token}
use luminix_experience_platf.Json.Load.Loops.{stopped, parsed, entered, Parsed, members, items}
use luminix_experience_platf.Json.Load.Loops.Total.{
  Leaves, Leaves-mono, members-Leaves, items-Leaves, skip_ignoring-Leaves,
}
use luminix_experience_platf.Json.Load.Definitions.{
  metadata_key, json_parse_database_metadata, FieldDefinition, field_key, SchemaSoFar,
  new_definition, add_definition, field_definition, schema_key, create_table, empty_schema,
  json_parse_table_schema,
}

metadata_key-Leaves : (s : Unit {0}) (k json : Bytes) → Leaves (length json) (metadata_key s k json)
unfolding metadata_key
metadata_key-Leaves s k json =
    ground (arith, json_parse_token-advances json, skip_ignoring-Leaves s json)

pub json_parse_database_metadata-Leaves :
    (json : Bytes) → Leaves (length json) (json_parse_database_metadata json)
unfolding json_parse_database_metadata
json_parse_database_metadata-Leaves json =
    let rest : Bytes = (json_parse_token json).1 in
    if_elim (Leaves (length json)) (is_token (json_parse_token json).0 1)
      (λ _.
        Leaves-mono (length rest) (length json) (members (suc (length rest)) metadata_key tt rest)
          ((json_parse_token-advances json).0)
          (members-Leaves metadata_key metadata_key-Leaves (suc (length rest)) tt rest
            (omega arith)))
      (λ _. tt)

field_key-Leaves :
    (d : FieldDefinition) (k json : Bytes) → Leaves (length json) (field_key d k json)
unfolding field_key
field_key-Leaves d k json =
    ground (arith, json_parse_token-advances json, skip_ignoring-Leaves d json)

add_definition-Leaves :
    (s : SchemaSoFar) (n : ℕ) (o : Parsed FieldDefinition)
    → Leaves n o
    → Leaves n (add_definition s o)
add_definition-Leaves s n none h = h
add_definition-Leaves s n (some (stopped code d)) h = tt
add_definition-Leaves s n (some (parsed d rest)) h = h
add_definition-Leaves s n (some (entered d rest)) h = h

field_definition-Leaves :
    (s : SchemaSoFar) (json : Bytes) → Leaves (length json) (field_definition s json)
unfolding field_definition
field_definition-Leaves s json =
    add_definition-Leaves s (length json)
      (members (suc (length json)) field_key new_definition json)
      (members-Leaves field_key field_key-Leaves (suc (length json)) new_definition json
        (omega arith))

fields-Leaves :
    (s : SchemaSoFar) (json : Bytes)
    → Leaves (length json) (items (suc (length json)) field_definition s json)
fields-Leaves s json =
    items-Leaves field_definition field_definition-Leaves (suc (length json)) s json (omega arith)

schema_key-Leaves : (s : SchemaSoFar) (k json : Bytes) → Leaves (length json) (schema_key s k json)
unfolding schema_key
schema_key-Leaves s k json =
    let rest : Bytes = (json_parse_token json).1 in
    let le = (json_parse_token-advances json).0 in
    let P : Parsed SchemaSoFar → Type 0 = Leaves (length json) in
    if_elim P (str_eq k (codes "name"))
      (λ _. if_elim P (is_token (json_parse_token json).0 5) (λ _. le) (λ _. tt))
      (λ _.
        if_elim P (str_eq k (codes "fields"))
          (λ _.
            if_elim P (is_token (json_parse_token json).0 3)
              (λ _.
                Leaves-mono (length rest) (length json)
                  (items (suc (length rest)) field_definition s rest) le (fields-Leaves s rest))
              (λ _. tt))
          (λ _.
            if_elim P (str_eq k (codes "schema"))
              (λ _. if_elim P (is_token (json_parse_token json).0 1) (λ _. le) (λ _. tt))
              (λ _. skip_ignoring-Leaves s json)))

create_table-Leaves :
    (env : Env) (db : Database) (n : ℕ) (o : Parsed SchemaSoFar)
    → Leaves n o
    → Leaves n (create_table env db o)
unfolding create_table
create_table-Leaves env db n none h = h
create_table-Leaves env db n (some (stopped code s)) h = tt
create_table-Leaves env db n (some (entered s rest)) h = tt
create_table-Leaves env db n (some (parsed s rest)) h = ground arith

pub json_parse_table_schema-Leaves :
    (env : Env) (db : Database) (json : Bytes)
    → Leaves (length json) (json_parse_table_schema env db json)
unfolding json_parse_table_schema
json_parse_table_schema-Leaves env db json =
    let start : Bytes =
      if is_token (json_parse_token json).0 1 then (json_parse_token json).1 else json in
    create_table-Leaves env db (length json)
      (members (suc (length start)) schema_key empty_schema start)
      (Leaves-mono (length start) (length json)
        (members (suc (length start)) schema_key empty_schema start)
        (if_elim (λ j. length {A = ℕ} j ≤ length json) (is_token (json_parse_token json).0 1)
          (λ _. (json_parse_token-advances json).0) (λ _. omega arith))
        (members-Leaves schema_key schema_key-Leaves (suc (length start)) empty_schema start
          (omega arith)))
