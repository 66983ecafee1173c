-- ===== src/Database/Records/Valid.antt =====
-- The operations on records (src/database.c) and the well-formed database.
use luminix_experience_platf.Database.Transactions.Laws.{LevelIsValid}
use luminix_experience_platf.Table.Update.{update-IsValid}
use luminix_experience_platf.Table.Insert.{insert-IsValid}
use luminix_experience_platf.Table.Delete.{delete-IsValid}
use luminix_experience_platf.Table.{table_update_record, table_insert_record, table_delete_record}
use luminix_experience_platf.Database.Records.Laws.{insert_effects}
use luminix_experience_platf.Database.Records.Changes.{update_effects, delete_effects}
use luminix_experience_platf.Database.Tables.Laws.{length-put_table, All-put_table, All-find_table}
use luminix_experience_platf.Database.Records.{db_update_record, db_insert_record, db_delete_record}
use luminix_experience_platf.Table.Frame.{
  update-SameSchema, insert-SameSchema, delete-SameSchema, SameSchema,
}
use luminix_experience_platf.Table.Invariant.{IsValid}
use luminix_experience_platf.Database.Invariant.{DatabaseIsValid, TableIsOk}
use luminix_experience_platf.Schema.{Field, State, Database, Table, Env}
use luminix_experience_platf.Database.Tables.{put_table, db_get_table}
use luminix_experience_platf.Base.{
  length, ap, Option-cases, Bytes, ℕ, ℤ, Option, none, some, ◌≡◌, arith, inl, inr,
}

pub TableIsOk-keep : {t u : Table} → TableIsOk t → IsValid u → SameSchema u t → TableIsOk u
TableIsOk-keep ok valid (name, columns, manager) = record {
  valid = valid;
  first_key = rw columns ok.first_key;
  name_fits = rw name ok.name_fits;
  few_indexes = rw manager ok.few_indexes;
}

pub LevelIsValid-same :
    {db db' : Database}
    → db'.transaction_active ≡ db.transaction_active
    → db'.transaction_level ≡ db.transaction_level
    → LevelIsValid db
    → LevelIsValid db'
LevelIsValid-same {db} {db'} active level v = ground (arith, v.idle, v.open_level)

-- a table of the database replaced by a well-formed one of the same schema
pub put-DatabaseIsValid :
    {db db' : Database} (name : Bytes) (t u : Table)
    → DatabaseIsValid db
    → db_get_table db (some name) ≡ some t
    → IsValid u
    → SameSchema u t
    → db'.tables ≡ put_table db.tables name u
    → LevelIsValid db'
    → db'.table_capacity ≡ db.table_capacity
    → DatabaseIsValid db'
unfolding db_get_table
put-DatabaseIsValid {db} {db'} name t u v found valid same tables level capacity =
    let ok : TableIsOk t = All-find_table TableIsOk db.tables name found v.tables in
    record {
      tables =
          rw tables
            (All-put_table TableIsOk db.tables name u (TableIsOk-keep ok valid same) v.tables);
      fits =
          omega (arith, v.fits, length-put_table db.tables name u, ap (length {A = Table}) tables);
      bounded = omega (arith, v.bounded);
      level = level;
    }

pub table_of :
    (db : Database) (name : Bytes) (t : Table)
    → DatabaseIsValid db
    → db_get_table db (some name) ≡ some t
    → TableIsOk t
unfolding db_get_table
table_of db name t v found = All-find_table TableIsOk db.tables name found v.tables

-- `db_insert_record`, whatever it is given and returns.
pub db_insert-DatabaseIsValid :
    (env : Env) (s : State) (name : Option Bytes) (values : Option (ℕ → Field))
    → DatabaseIsValid s.db
    → DatabaseIsValid (db_insert_record env s name values).1.db
unfolding db_insert_record
db_insert-DatabaseIsValid env s none values v = unfold db_insert_record in v
db_insert-DatabaseIsValid env s (some name) none v = unfold db_insert_record in v
db_insert-DatabaseIsValid env s (some name) (some values) v =
    elim (Option-cases (db_get_table s.db (some name))) [
      | inl missing ↦ rw (missing, db_insert_record) v
      | inr (t, found) ↦
          let effects = insert_effects env s name t v.level found values in
          put-DatabaseIsValid name t
            (table_insert_record env s.global_counter t (some values)).table v found
            (insert-IsValid env s.global_counter t values (table_of s.db name t v found).valid)
            (insert-SameSchema env s.global_counter t (some values)) effects.1
            (LevelIsValid-same effects.4 effects.5 v.level) effects.6
    ]

-- `db_update_record`.
pub db_update-DatabaseIsValid :
    (env : Env) (s : State) (name : Option Bytes) (id : ℤ) (values : Option (ℕ → Field))
    → DatabaseIsValid s.db
    → DatabaseIsValid (db_update_record env s name id values).1.db
unfolding db_update_record
db_update-DatabaseIsValid env s none id values v = unfold db_update_record in v
db_update-DatabaseIsValid env s (some name) id none v = unfold db_update_record in v
db_update-DatabaseIsValid env s (some name) id (some values) v =
    elim (Option-cases (db_get_table s.db (some name))) [
      | inl missing ↦ rw (missing, db_update_record) v
      | inr (t, found) ↦
          let effects = update_effects env s name t v.level found id values in
          put-DatabaseIsValid name t (table_update_record env t id (some values)).1 v found
            (update-IsValid env t id values (table_of s.db name t v found).valid)
            (update-SameSchema env t id (some values)) effects.1
            (LevelIsValid-same effects.2 effects.3 v.level) effects.4
    ]

-- `db_delete_record`.
pub db_delete-DatabaseIsValid :
    (env : Env) (s : State) (name : Option Bytes) (id : ℤ)
    → DatabaseIsValid s.db
    → DatabaseIsValid (db_delete_record env s name id).1.db
unfolding db_delete_record
db_delete-DatabaseIsValid env s none id v = unfold db_delete_record in v
db_delete-DatabaseIsValid env s (some name) id v =
    elim (Option-cases (db_get_table s.db (some name))) [
      | inl missing ↦ rw (missing, db_delete_record) v
      | inr (t, found) ↦
          let effects = delete_effects env s name t v.level found id in
          put-DatabaseIsValid name t (table_delete_record t id).1 v found
            (delete-IsValid t id (table_of s.db name t v found).valid) (delete-SameSchema t id)
            effects.1 (LevelIsValid-same effects.2 effects.3 v.level) effects.4
    ]
