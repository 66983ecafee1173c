-- ===== src/Database/Records.antt =====
-- The operations on the records of a named table, in src/database.c.
pub mod Laws
pub mod Changes
pub mod Valid
pub mod Batches
pub mod BatchRows
pub mod BatchLaws
pub mod BatchValid
use luminix_experience_platf.Base.{
  pos_part, ltb, ◌==◌, ltb_ℤ, length, ℕ, zero, suc, ◌+◌, ◌-◌, ◌≤◌, ◌<◌, ℤ, pos, negsuc, Bool, true,
  false, not, ◌&&◌, ◌||◌, List, [], ◌∷◌, ◌++◌, Option, none, some, ◌≡◌, ◌≢◌, ◌↔◌, refl, arith,
  if◌then◌else◌, inl, inr, minus_one, Bytes,
}
use luminix_experience_platf.Schema.{
  batch_insert_size, error_memory_allocation, error_table_full, max_records_per_table,
  error_not_found, is_success, Record, Field, Table, ErrorCode, success, error_invalid_input,
  Database, State, Env,
}
use luminix_experience_platf.Table.{
  table_find_record, table_update_record, Inserted, table_delete_record, table_insert_record,
}
use luminix_experience_platf.Database.Tables.{find_table, db_get_table, put_table}
use luminix_experience_platf.Database.Transactions.{
  db_begin_transaction, db_rollback_transaction, db_commit_transaction, Change, in_transaction,
}

-- what `table_insert_record` on the table `t` of that name does to the state
abbrev pub insert_change : Env → State → Bytes → Table → (ℕ → Field) → Change (Option ℤ)
insert_change env s table_name t values =
    let inserted : Inserted = table_insert_record env s.global_counter t (some values) in
    record {
      code = inserted.code;
      tables = put_table s.db.tables table_name inserted.table;
      global_counter = inserted.global_counter;
      stored = inserted.out_id;
    }

unfoldable pub db_insert_record :
    Env → State → Option Bytes → Option (ℕ → Field) → ErrorCode × State × Option ℤ
db_insert_record env s (some table_name) (some values) =
    elim (db_get_table s.db (some table_name)) [
      | none ↦ (error_not_found, s, none)
      | some t ↦ in_transaction env none (insert_change env s table_name t values) s
    ]
db_insert_record env s _ _ = (error_invalid_input, s, none)

unfoldable pub db_find_record : Database → Option Bytes → ℤ → Option Record
db_find_record db none id = none
db_find_record db (some table_name) id = elim (db_get_table db (some table_name)) [
  | none ↦ none
  | some t ↦ table_find_record t id
]

abbrev pub update_change : Env → State → Bytes → Table → ℤ → (ℕ → Field) → Change (Unit {0})
update_change env s table_name t id new_values =
    let (code, t') = table_update_record env t id (some new_values) in
    record {
      code = code;
      tables = put_table s.db.tables table_name t';
      global_counter = s.global_counter;
      stored = tt;
    }

unfoldable pub db_update_record :
    Env → State → Option Bytes → ℤ → Option (ℕ → Field) → ErrorCode × State
db_update_record env s (some table_name) id (some new_values) =
    elim (db_get_table s.db (some table_name)) [
      | none ↦ (error_not_found, s)
      | some t ↦
          let (code, s', _) =
            in_transaction env tt (update_change env s table_name t id new_values) s in
          (code, s')
    ]
db_update_record env s _ id _ = (error_invalid_input, s)

abbrev pub delete_change : State → Bytes → Table → ℤ → Change (Unit {0})
delete_change s table_name t id =
    let (code, t') = table_delete_record t id in
    record {
      code = code;
      tables = put_table s.db.tables table_name t';
      global_counter = s.global_counter;
      stored = tt;
    }

unfoldable pub db_delete_record : Env → State → Option Bytes → ℤ → ErrorCode × State
db_delete_record env s none id = (error_invalid_input, s)
db_delete_record env s (some table_name) id = elim (db_get_table s.db (some table_name)) [
  | none ↦ (error_not_found, s)
  | some t ↦
      let (code, s', _) = in_transaction env tt (delete_change s table_name t id) s in (code, s')
]

-- What the loop of a batch leaves: the code of the first failure or SUCCESS, the table, the counter
-- and the ids so far.
pub record Batch : Type 0 where
  pub code : ErrorCode
  pub table : Table
  pub global_counter : ℤ
  pub ids : List ℤ

-- `int record_id = -1` before the insertion stores the id
abbrev pub stored_id : Option ℤ → ℤ
stored_id none = minus_one
stored_id (some id) = id

-- `n` rounds from round `i` on; `rounds i` is what the environment answers in round `i`
unfoldable pub batch_rows :
    (ℕ → Env) → (ℕ → Option (ℕ → Field)) → ℕ → ℕ → Table → ℤ → List ℤ → Batch
batch_rows rounds rows zero i t global_counter ids = record {
  code = success;
  table = t;
  global_counter = global_counter;
  ids = ids;
}
batch_rows rounds rows (suc n) i t global_counter ids =
    let inserted : Inserted = table_insert_record (rounds i) global_counter t (rows i) in
    let rest =
      batch_rows rounds rows n (i + 1) inserted.table inserted.global_counter
        (ids ++ stored_id inserted.out_id ∷ []) in
    if is_success inserted.code then rest else record {
      code = inserted.code;
      table = inserted.table;
      global_counter = inserted.global_counter;
      ids = ids;
    }

-- Ends the batch: a commit if every row was inserted, else a rollback.
abbrev pub end_batch : ℕ → Bool → Batch → Bytes → State → ErrorCode × State × Option (List ℤ)
end_batch count wants_ids batch table_name s =
    let db : Database = record s.db { tables = put_table s.db.tables table_name batch.table } in
    if length batch.ids == count
    then (
      batch.code,
      record { db = (db_commit_transaction db).1; global_counter = batch.global_counter },
      if wants_ids then some batch.ids else none,
    )
    else (
      batch.code,
      record { db = (db_rollback_transaction db).1; global_counter = batch.global_counter },
      none,
    )

-- `wants_ids` tells whether `out_ids` is not NULL: only then allocation 0 of `env` is asked, for the
-- array of ids.
unfoldable pub db_batch_insert_records :
    Env
    → (ℕ → Env)
    → State
    → Option Bytes
    → Option (ℕ → Option (ℕ → Field))
    → ℤ
    → Bool
    → ErrorCode × State × Option (List ℤ)
unfolding batch_rows
db_batch_insert_records env rounds s (some table_name) (some rows) count wants_ids =
    if ltb_ℤ count (pos 1) || ltb_ℤ (pos batch_insert_size) count
    then (error_invalid_input, s, none)
    else elim (db_get_table s.db (some table_name)) [
      | none ↦ (error_not_found, s, none)
      | some t ↦
          if ltb max_records_per_table (t.record_count + pos_part count)
          then (error_table_full, s, none)
          else let (code, begun) = db_begin_transaction env s.db in
            if not (is_success code)
            then (code, record s { db = begun }, none)
            else if wants_ids && not (env.alloc 0)
            then (
              error_memory_allocation,
              record s { db = (db_rollback_transaction begun).1 },
              none,
            )
            else end_batch (pos_part count) wants_ids
                (batch_rows rounds rows (pos_part count) 0 t s.global_counter []) table_name
                (record s { db = begun })
    ]
db_batch_insert_records env rounds s _ _ count wants_ids = (error_invalid_input, s, none)
