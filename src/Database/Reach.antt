-- ===== src/Database/Reach.antt =====
-- The calls that a program can make on a database of src/database.c, as a step relation, and what
-- every database has that such calls lead to.
use luminix_experience_platf.Database.Maintenance.{
  db_optimize, db_vacuum, db_reset_statistics, db_execute_query,
}
use luminix_experience_platf.Database.Transactions.{
  db_rollback_transaction, db_commit_transaction, db_begin_transaction,
}
use luminix_experience_platf.Database.Maintenance.Laws.{
  optimize-DatabaseIsValid, vacuum-DatabaseIsValid, reset-DatabaseIsValid,
  execute_query-DatabaseIsValid,
}
use luminix_experience_platf.Database.IndexOps.{db_drop_index, db_create_index}
use luminix_experience_platf.Database.Transactions.Valid.{
  rollback-DatabaseIsValid, commit-DatabaseIsValid, begin-DatabaseIsValid,
}
use luminix_experience_platf.Database.Fields.{db_delete_records_by_field}
use luminix_experience_platf.Database.IndexOps.Valid.{
  drop_index-DatabaseIsValid, create_index-DatabaseIsValid,
}
use luminix_experience_platf.Database.Fields.Valid.{delete_by_field-DatabaseIsValid}
use luminix_experience_platf.Database.Records.{
  db_delete_record, db_update_record, db_batch_insert_records, db_insert_record,
}
use luminix_experience_platf.Database.Records.BatchValid.{batch-DatabaseIsValid}
use luminix_experience_platf.Database.Records.Valid.{
  db_delete-DatabaseIsValid, db_update-DatabaseIsValid, db_insert-DatabaseIsValid,
}
use luminix_experience_platf.Database.Tables.Valid.{
  create-DatabaseIsValid, add_table-DatabaseIsValid,
}
use luminix_experience_platf.Database.Tables.{db_add_table, db_create}
use luminix_experience_platf.Database.Invariant.{DatabaseIsValid}
use luminix_experience_platf.Schema.{IndexType, FieldValue, Field, FieldType, Database, State, Env}
use luminix_experience_platf.Base.{Bytes, ℕ, ℤ, Bool, true, Option, some, ◌≡◌}

-- One call, with any arguments, any answers of the environment, and any result.
pub data Step (s : State) : State → Type 0 where
  add_table :
      (env : Env) (name : Option Bytes) (field_names : Option (ℕ → Bytes))
      (types : Option (ℕ → FieldType)) (field_count : ℤ)
      → Step s (record s { db = (db_add_table env s.db name field_names types field_count).1 })
  insert_record :
      (env : Env) (name : Option Bytes) (values : Option (ℕ → Field))
      → Step s (db_insert_record env s name values).1
  batch_insert_records :
      (env : Env) (rounds : ℕ → Env) (name : Option Bytes) (rows : Option (ℕ → Option (ℕ → Field)))
      (count : ℤ) (wants_ids : Bool)
      → Step s (db_batch_insert_records env rounds s name rows count wants_ids).1
  update_record :
      (env : Env) (name : Option Bytes) (id : ℤ) (values : Option (ℕ → Field))
      → Step s (db_update_record env s name id values).1
  delete_record :
      (env : Env) (name : Option Bytes) (id : ℤ) → Step s (db_delete_record env s name id).1
  delete_records_by_field :
      (env : Env) (name field_name : Option Bytes) (value : Option FieldValue) (wants_count : Bool)
      → Step s (db_delete_records_by_field env s name field_name value wants_count).1
  create_index :
      (env : Env) (name field_name : Option Bytes) (type : IndexType)
      → Step s (record s { db = (db_create_index env s.db name field_name type).1 })
  drop_index :
      (name field_name : Option Bytes)
      → Step s (record s { db = (db_drop_index s.db name field_name).1 })
  begin_transaction : (env : Env) → Step s (record s { db = (db_begin_transaction env s.db).1 })
  commit_transaction : Step s (record s { db = (db_commit_transaction s.db).1 })
  rollback_transaction : Step s (record s { db = (db_rollback_transaction s.db).1 })
  execute_query :
      (env : Env) (query : Option Bytes)
      → Step s (record s { db = (db_execute_query env s.db query).1 })
  reset_statistics : Step s (record s { db = (db_reset_statistics s.db).1 })
  vacuum : Step s (record s { db = (db_vacuum s.db).1 })
  optimize : Step s (record s { db = (db_optimize s.db).1 })

-- the states that calls lead to from a database just created
pub data Reach : State → Type 0 where
  created :
      (env : Env) (db : Database) (g : ℤ)
      → db_create env ≡ some db
      → Reach (record { db = db; global_counter = g })
  called : {s s' : State} → Reach s → Step s s' → Reach s'

-- commit and rollback ask the environment nothing
abbrev no_env : Env
no_env = record { now = 0; alloc = λ k. true }

Step-DatabaseIsValid : {s s' : State} → Step s s' → DatabaseIsValid s.db → DatabaseIsValid s'.db
Step-DatabaseIsValid {s} (add_table env name field_names types field_count) v =
    add_table-DatabaseIsValid env s.db v name field_names types field_count
Step-DatabaseIsValid {s} (insert_record env name values) v =
    db_insert-DatabaseIsValid env s name values v
Step-DatabaseIsValid {s} (batch_insert_records env rounds name rows count wants_ids) v =
    batch-DatabaseIsValid env rounds s v name rows count wants_ids
Step-DatabaseIsValid {s} (update_record env name id values) v =
    db_update-DatabaseIsValid env s name id values v
Step-DatabaseIsValid {s} (delete_record env name id) v = db_delete-DatabaseIsValid env s name id v
Step-DatabaseIsValid {s} (delete_records_by_field env name field_name value wants_count) v =
    delete_by_field-DatabaseIsValid env s name field_name value wants_count v
Step-DatabaseIsValid {s} (create_index env name field_name type) v =
    create_index-DatabaseIsValid s.db v env name field_name type
Step-DatabaseIsValid {s} (drop_index name field_name) v =
    drop_index-DatabaseIsValid s.db v name field_name
Step-DatabaseIsValid {s} (begin_transaction env) v = begin-DatabaseIsValid env s.db v
Step-DatabaseIsValid {s} commit_transaction v = commit-DatabaseIsValid no_env s.db v
Step-DatabaseIsValid {s} rollback_transaction v = rollback-DatabaseIsValid no_env s.db v
Step-DatabaseIsValid {s} (execute_query env query) v =
    execute_query-DatabaseIsValid s.db env query v
Step-DatabaseIsValid {s} reset_statistics v = reset-DatabaseIsValid s.db v
Step-DatabaseIsValid {s} vacuum v = vacuum-DatabaseIsValid s.db v
Step-DatabaseIsValid {s} optimize v = optimize-DatabaseIsValid s.db v

-- Every database that calls lead to, from one just created, is valid: at most 100 tables, which fit
-- the array; a transaction level from 0 to 10 that is 0 exactly if no transaction is open; and in
-- every table distinct ids, as many fields in a record as columns, the number of records counted
-- and at most 10000, at most 10 indexes, which fit their array, a name of at most 63 bytes, and no
-- primary key but the first column.
pub reach-DatabaseIsValid : {s : State} → Reach s → DatabaseIsValid s.db
reach-DatabaseIsValid (created env db g h) = (create-DatabaseIsValid env h).0
reach-DatabaseIsValid (called r step) = Step-DatabaseIsValid step (reach-DatabaseIsValid r)
