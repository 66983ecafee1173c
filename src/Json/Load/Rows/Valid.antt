-- ===== src/Json/Load/Rows/Valid.antt =====
-- src/json_io.c: json_parse_table_records keeps a table well formed, whatever the text is.
use luminix_experience_platf.Base.{
  minus_one, eqb_ℤ, length, if_elim, get_or, Bytes, ℕ, suc, none, some,
}
use luminix_experience_platf.Schema.{ErrorCode, success, error_duplicate_key, Field, Env, no_field}
use luminix_experience_platf.Table.{table_insert_record}
use luminix_experience_platf.Table.Insert.{insert-IsValid}
use luminix_experience_platf.Table.Frame.{insert-SameSchema}
use luminix_experience_platf.Database.Invariant.{TableIsOk}
use luminix_experience_platf.Database.Records.Valid.{TableIsOk-keep}
use luminix_experience_platf.Json.{json_parse_token}
use luminix_experience_platf.Json.Load.{Union, is_token}
use luminix_experience_platf.Json.Load.Loops.{stopped, parsed, entered, Parsed, members}
use luminix_experience_platf.Json.Load.Loops.Keeps.{Holds, items-Holds}
use luminix_experience_platf.Json.Load.Rows.{
  RecordSoFar, Loading, after_insert, insert_read, then_insert, read_record,
  json_parse_table_records, write_key, record_key, default_fields,
}

abbrev pub LoadingIsOk : Loading → Type 0
LoadingIsOk l = TableIsOk l.table

after_insert-Holds :
    (code : ErrorCode) (l : Loading) (rest : Bytes)
    → LoadingIsOk l
    → Holds LoadingIsOk (after_insert code l rest)
after_insert-Holds success l rest ok = ok
after_insert-Holds error_duplicate_key l rest ok = ok
after_insert-Holds code l rest ok = ok

insert_read-Holds :
    (env : Env) (u : Union) (l : Loading) (r : RecordSoFar) (rest : Bytes)
    → LoadingIsOk l
    → Holds LoadingIsOk (insert_read env u l r rest)
unfolding insert_read
insert_read-Holds env u l r rest ok =
    let values : ℕ → Field =
      λ i. get_or (write_key u r.record_id l.table.columns r.field_values) i no_field in
    let inserted = table_insert_record env l.global_counter l.table (some values) in
    if_elim (Holds LoadingIsOk) (eqb_ℤ r.record_id minus_one) (λ _. ok)
      (λ _.
        after_insert-Holds inserted.code
          (record { table = inserted.table; global_counter = inserted.global_counter }) rest
          (TableIsOk-keep ok (insert-IsValid env l.global_counter l.table values ok.valid)
            (insert-SameSchema env l.global_counter l.table (some values))))

then_insert-Holds :
    (env : Env) (u : Union) (l : Loading) (o : Parsed RecordSoFar)
    → LoadingIsOk l
    → Holds LoadingIsOk (then_insert env u l o)
then_insert-Holds env u l none ok = tt
then_insert-Holds env u l (some (stopped code r)) ok = ok
then_insert-Holds env u l (some (parsed r rest)) ok = insert_read-Holds env u l r rest ok
then_insert-Holds env u l (some (entered r rest)) ok = insert_read-Holds env u l r rest ok

read_record-Holds :
    (env : Env) (u : Union) (l : Loading) (json : Bytes)
    → LoadingIsOk l
    → Holds LoadingIsOk (read_record env u l json)
unfolding read_record
read_record-Holds env u l json ok =
    then_insert-Holds env u l
      (members (suc (length json)) (record_key u l.table.columns)
        (record { record_id = minus_one; field_values = default_fields l.table.columns }) json)
      ok

pub json_parse_table_records-Holds :
    (env : Env) (u : Union) (l : Loading) (json : Bytes)
    → LoadingIsOk l
    → Holds LoadingIsOk (json_parse_table_records env u l json)
unfolding json_parse_table_records
json_parse_table_records-Holds env u l json ok =
    let rest : Bytes = (json_parse_token json).1 in
    if_elim (Holds LoadingIsOk) (is_token (json_parse_token json).0 3)
      (λ _.
        items-Holds LoadingIsOk (read_record env u) (read_record-Holds env u) (suc (length rest)) l
          rest ok)
      (λ _. ok)
