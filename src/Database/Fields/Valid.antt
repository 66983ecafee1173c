-- ===== src/Database/Fields/Valid.antt =====
-- Deletion by field (src/database.c) and the well-formed database.
use luminix_experience_platf.Database.Fields.Delete.{sweep_lem, swept-IsValid}
use luminix_experience_platf.Database.Records.Valid.{table_of, put-DatabaseIsValid}
use luminix_experience_platf.Database.Transactions.Valid.{
  rollback-DatabaseIsValid, commit-DatabaseIsValid, tables-begin, begin-DatabaseIsValid,
}
use luminix_experience_platf.Indexes.{field_position}
use luminix_experience_platf.Database.Transactions.{
  db_rollback_transaction, db_commit_transaction, db_begin_transaction,
}
use luminix_experience_platf.Database.Tables.{put_table, db_get_table}
use luminix_experience_platf.Database.Invariant.{DatabaseIsValid}
use luminix_experience_platf.Schema.{is_success, Database, Table, FieldValue, State, Env}
use luminix_experience_platf.Database.Fields.{
  swept_table, column_type, sweep, Swept, db_delete_records_by_field,
}
use luminix_experience_platf.Base.{
  ltb, Option-cases, Bytes, ℕ, Bool, true, false, not, Option, none, some, ◌≡◌, refl, arith,
  if◌then◌else◌, inl, inr,
}

-- the database with the swept table written back, inside the transaction
swept_database : Env → State → Bytes → Table → Swept → Database
swept_database env s name t swept =
    let begun : Database = (db_begin_transaction env s.db).1 in
    record begun { tables = put_table begun.tables name (swept_table t swept) }

either-valid :
    (b : Bool) {x y : Database}
    → DatabaseIsValid x
    → DatabaseIsValid y
    → DatabaseIsValid (if b then x else y)
either-valid true vx vy = vx
either-valid false vx vy = vy

module _ (env : Env) (s : State) (name : Bytes) (t : Table) (i : ℕ) (value : FieldValue)
    (v : DatabaseIsValid s.db) (found : db_get_table s.db (some name) ≡ some t) where
  swept-DatabaseIsValid :
      DatabaseIsValid
        (swept_database env s name t (sweep (column_type t i) i value t.records t.index_manager))
  unfolding swept_database
  swept-DatabaseIsValid =
      let begun : DatabaseIsValid (db_begin_transaction env s.db).1 =
        begin-DatabaseIsValid env s.db v in
      put-DatabaseIsValid {db = (db_begin_transaction env s.db).1} name t _ begun
        (unfold db_get_table in rw tables-begin (unfold db_get_table in found))
        (swept-IsValid t i value (table_of s.db name t v found).valid)
        (rw sweep_lem (refl, refl, refl)) refl
        (record {
          idle = begun.level.idle;
          open_level = begun.level.open_level;
          bounded = begun.level.bounded;
        })
        refl

  -- where the deletion ends: refused at the begin, committed, or rolled back
  delete_by_field_ends :
      (field_name : Bytes) (wants_count : Bool)
      → field_position t.columns field_name 0 ≡ some i
      → let swept : Swept = sweep (column_type t i) i value t.records t.index_manager in
        (db_delete_records_by_field env s
          (some name)
          (some field_name)
          (some value)
          wants_count).1.db
        ≡ (if not (is_success (db_begin_transaction env s.db).0)
            then (db_begin_transaction env s.db).1
            else if ltb 0 swept.deleted
            then (db_commit_transaction (swept_database env s name t swept)).1
            else (db_rollback_transaction (swept_database env s name t swept)).1)
  unfolding db_delete_records_by_field swept_database
  delete_by_field_ends field_name wants_count column = ground arith

  delete_found-DatabaseIsValid :
      (field_name : Bytes) (wants_count : Bool)
      → field_position t.columns field_name 0 ≡ some i
      → DatabaseIsValid
          (db_delete_records_by_field env s
            (some name)
            (some field_name)
            (some value)
            wants_count).1.db
  delete_found-DatabaseIsValid field_name wants_count column =
      let swept : Swept = sweep (column_type t i) i value t.records t.index_manager in
      rw (delete_by_field_ends field_name wants_count column) (
        either-valid (not (is_success (db_begin_transaction env s.db).0))
          (begin-DatabaseIsValid env s.db v)
          (either-valid (ltb 0 swept.deleted)
            (commit-DatabaseIsValid env (swept_database env s name t swept) swept-DatabaseIsValid)
            (rollback-DatabaseIsValid env (swept_database env s name t swept)
              swept-DatabaseIsValid)))

-- Deletion by field keeps a valid database valid, whatever it is given and returns.
pub delete_by_field-DatabaseIsValid :
    (env : Env) (s : State) (name field_name : Option Bytes) (value : Option FieldValue)
    (wants_count : Bool)
    → DatabaseIsValid s.db
    → DatabaseIsValid (db_delete_records_by_field env s name field_name value wants_count).1.db
unfolding db_delete_records_by_field
delete_by_field-DatabaseIsValid env s none field_name value wants_count v = v
delete_by_field-DatabaseIsValid env s (some name) none value wants_count v = v
delete_by_field-DatabaseIsValid env s (some name) (some field_name) none wants_count v = v
delete_by_field-DatabaseIsValid env s (some name) (some field_name) (some value) wants_count v =
    elim (Option-cases (db_get_table s.db (some name))) [
      | inl missing ↦ rw (missing, db_delete_records_by_field) v
      | inr (t, found) ↦ elim (Option-cases (field_position t.columns field_name 0)) [
        | inl no_column ↦ rw (found, no_column, db_delete_records_by_field) v
        | inr (i, column) ↦
            delete_found-DatabaseIsValid env s name t i value v found field_name wants_count column
      ]
    ]
