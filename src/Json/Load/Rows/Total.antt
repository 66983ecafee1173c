-- ===== src/Json/Load/Rows/Total.antt =====
-- src/json_io.c: json_parse_table_records ends on every text.
use luminix_experience_platf.Base.{
  codes, str_eq, get_or, minus_one, if_elim, Option-cases, length, Bytes, ℕ, suc, ◌≤◌, List, none,
  some, arith, inl, inr,
}
use luminix_experience_platf.Schema.{FieldType, Column, no_column, Env}
use luminix_experience_platf.Json.{json_parse_token}
use luminix_experience_platf.Json.Lexer.{json_parse_token-advances}
use luminix_experience_platf.Json.Load.{Union, is_token, json_parse_field_value}
use luminix_experience_platf.Json.Load.Loops.{stopped, parsed, entered, Parsed, members, items}
use luminix_experience_platf.Json.Load.Loops.Total.{
  Leaves, Leaves-mono, members-Leaves, items-Leaves, skip_ignoring-Leaves,
}
use luminix_experience_platf.Json.Load.Rows.{
  RecordSoFar, column_index, value_key, record_key, Loading, insert_read, then_insert, read_record,
  json_parse_table_records, default_fields,
}

field_value_leaves :
    (u : Union) (type : FieldType) (json : Bytes)
    → length (json_parse_field_value u type json).1 ≤ length json
unfolding json_parse_field_value
field_value_leaves u type json = ground (arith, json_parse_token-advances json)

value_key-Leaves :
    (u : Union) (columns : List Column) (r : RecordSoFar) (k json : Bytes)
    → Leaves (length json) (value_key u columns r k json)
unfolding value_key
value_key-Leaves u columns r k json = elim (Option-cases (column_index columns k)) [
  | inl e ↦ rw (e, value_key) ((json_parse_token-advances json).0)
  | inr found ↦
      rw (found.1, value_key) (field_value_leaves u (get_or columns found.0 no_column).type json)
]

record_key-Leaves :
    (u : Union) (columns : List Column) (r : RecordSoFar) (k json : Bytes)
    → Leaves (length json) (record_key u columns r k json)
unfolding record_key
record_key-Leaves u columns r k json =
    let rest : Bytes = (json_parse_token json).1 in
    let le = (json_parse_token-advances json).0 in
    let P : Parsed RecordSoFar → Type 0 = Leaves (length json) in
    if_elim P (str_eq k (codes "id")) (λ _. le)
      (λ _.
        if_elim P (str_eq k (codes "fields"))
          (λ _.
            if_elim P (is_token (json_parse_token json).0 1)
              (λ _.
                Leaves-mono (length rest) (length json)
                  (members (suc (length rest)) (value_key u columns) r rest) le
                  (members-Leaves (value_key u columns) (value_key-Leaves u columns)
                    (suc (length rest)) r rest (omega arith)))
              (λ _. tt))
          (λ _. skip_ignoring-Leaves r json))

insert_read-Leaves :
    (env : Env) (u : Union) (l : Loading) (r : RecordSoFar) (rest : Bytes)
    → Leaves (length rest) (insert_read env u l r rest)
unfolding insert_read
insert_read-Leaves env u l r rest = ground arith

then_insert-Leaves :
    (env : Env) (u : Union) (l : Loading) (n : ℕ) (o : Parsed RecordSoFar)
    → Leaves n o
    → Leaves n (then_insert env u l o)
then_insert-Leaves env u l n none h = h
then_insert-Leaves env u l n (some (stopped code r)) h = tt
then_insert-Leaves env u l n (some (parsed r rest)) h =
    Leaves-mono (length rest) n (insert_read env u l r rest) h (insert_read-Leaves env u l r rest)
then_insert-Leaves env u l n (some (entered r rest)) h =
    Leaves-mono (length rest) n (insert_read env u l r rest) h (insert_read-Leaves env u l r rest)

read_record-Leaves :
    (env : Env) (u : Union) (l : Loading) (json : Bytes)
    → Leaves (length json) (read_record env u l json)
unfolding read_record
read_record-Leaves env u l json =
    let start : RecordSoFar = record {
      record_id = minus_one;
      field_values = default_fields l.table.columns;
    } in
    then_insert-Leaves env u l (length json)
      (members (suc (length json)) (record_key u l.table.columns) start json)
      (members-Leaves (record_key u l.table.columns) (record_key-Leaves u l.table.columns)
        (suc (length json)) start json (omega arith))

pub json_parse_table_records-Leaves :
    (env : Env) (u : Union) (l : Loading) (json : Bytes)
    → Leaves (length json) (json_parse_table_records env u l json)
unfolding json_parse_table_records
json_parse_table_records-Leaves env u l json =
    let rest : Bytes = (json_parse_token json).1 in
    if_elim (Leaves (length json)) (is_token (json_parse_token json).0 3)
      (λ _.
        Leaves-mono (length rest) (length json)
          (items (suc (length rest)) (read_record env u) l rest) (json_parse_token-advances json).0
          (items-Leaves (read_record env u) (read_record-Leaves env u) (suc (length rest)) l rest
            (omega arith)))
      (λ _. tt)
