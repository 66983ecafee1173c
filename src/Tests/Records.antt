-- ===== src/Tests/Records.antt =====
-- Runs of the operations on the records of a named table, and of transactions.
use luminix_experience_platf.Database.Records.BatchRows.{Added}
use luminix_experience_platf.Table.Clashes.{HasId, Clashes}
use luminix_experience_platf.Database.Records.BatchLaws.{batch_lem}
use luminix_experience_platf.Database.Records.Laws.{db_insert_failure_keeps, db_insert-find}
use luminix_experience_platf.Database.Records.Changes.{db_update-find, db_delete-find}
use luminix_experience_platf.Database.Records.Batches.{AllFound}
use luminix_experience_platf.Table.Writes.{updated}
use luminix_experience_platf.Tests.Data.{
  start, database-DatabaseIsValid, users-IsValid, users_found, database-LevelIsValid, user, users,
  database, row, granted,
}
use luminix_experience_platf.Database.Tables.{find_table, db_get_table}
use luminix_experience_platf.Table.{
  choose_id, table_insert_record, new_record, find_id, table_find_record,
}
use luminix_experience_platf.Schema.{
  error_not_found, error_invalid_input, success, Table, no_field, State, Field, ErrorCode, Env,
}
use luminix_experience_platf.Database.Transactions.Laws.{
  transactions-IsBalanced, commits-begins, begins, commits, IsBalanced,
}
use luminix_experience_platf.Database.Transactions.{
  db_rollback_transaction, db_commit_transaction, in_transaction, db_begin_transaction,
}
use luminix_experience_platf.Database.Records.{
  batch_rows, db_batch_insert_records, db_update_record, db_insert_record, db_find_record,
  db_delete_record,
}
use luminix_experience_platf.Base.{
  inr, inl, length, str_eq, is_some, eqb_ℤ, codes, Bytes, ℕ, ◌+◌, ◌<◌, ℤ, pos, true, false, List,
  [], ◌∷◌, Option, none, some, ◌≡◌, ◌≢◌, refl, arith, if◌then◌else◌,
}

abbrev users_name : Bytes
users_name = codes "users"

db_row_goes_in : (db_insert_record granted start (some users_name) (some row)).0 ≡ success
unfolding db_insert_record in_transaction db_begin_transaction db_get_table find_table str_eq
    table_insert_record find_id choose_id table_find_record
db_row_goes_in = refl

db_insert-find_example :
    (id : ℤ) × ((db_insert_record granted start (some users_name) (some row)).2 ≡ some id)
    × (db_find_record database (some users_name) id ≡ none)
    × ((j : ℤ)
        → db_find_record
            (db_insert_record granted start (some users_name) (some row)).1.db
            (some users_name)
            j
          ≡ (if eqb_ℤ id j
              then some (new_record granted users id row)
              else db_find_record database (some users_name) j))
db_insert-find_example =
    db_insert-find granted start users_name users database-LevelIsValid users_found row
      db_row_goes_in

-- a row of no type
abbrev no_row : ℕ → Field
no_row i = no_field

no_row_fails :
    (db_insert_record granted start (some users_name) (some no_row)).0 ≡ error_invalid_input
unfolding db_insert_record in_transaction db_begin_transaction db_get_table find_table str_eq
    table_insert_record
no_row_fails = refl

db_insert_failure_keeps_example :
    ((db_insert_record granted start (some users_name) (some no_row)).1.db.tables ≡ users ∷ [])
    × ((db_insert_record granted start (some users_name) (some no_row)).2 ≡ none)
db_insert_failure_keeps_example =
    db_insert_failure_keeps granted start users_name users database-LevelIsValid users_found no_row
      (λ e. not_success e no_row_fails)
  where
    not_success : {c : ErrorCode} → c ≡ success → c ≡ error_invalid_input → ⊥
    not_success p q = cc

db_delete-find_example :
    ((db_delete_record granted start (some users_name) (pos 2)).0 ≡ (
      if is_some (db_find_record database (some users_name) (pos 2))
      then success
      else error_not_found))
    × ((j : ℤ)
        → db_find_record
            (db_delete_record granted start (some users_name) (pos 2)).1.db
            (some users_name)
            j
          ≡ (if eqb_ℤ (pos 2) j then none else db_find_record database (some users_name) j))
db_delete-find_example =
    db_delete-find granted start users_name users database-LevelIsValid users_found (pos 2)
      users-IsValid.distinct

db_user_1_found : db_find_record database (some users_name) (pos 1) ≡ some (user 1 40)
unfolding db_find_record db_get_table find_table str_eq table_find_record find_id
db_user_1_found = refl

two_is_not_seven : pos 2 ≢ pos 7
two_is_not_seven e = ground arith

one_is_not_seven : pos 1 ≢ pos 7
one_is_not_seven e = ground arith

is_new : ¬ HasId users.records (pos 7)
is_new (inl e) = two_is_not_seven e
is_new (inr (inl e)) = one_is_not_seven e
is_new (inr (inr none_left)) = none_left

apart : ¬ Clashes users.records (pos 1) row users.columns 0
apart (inl at) = is_new at.3
apart (inr (inl at)) = absurd (cc)
apart (inr (inr none_left)) = none_left

db_update-find_example :
    ((db_update_record granted start (some users_name) (pos 1) (some row)).0 ≡ success)
    × ((j : ℤ)
        → db_find_record
            (db_update_record granted start (some users_name) (pos 1) (some row)).1.db
            (some users_name)
            j
          ≡ (if eqb_ℤ (pos 1) j
              then some (updated granted users (user 1 40) row)
              else db_find_record database (some users_name) j))
db_update-find_example =
    db_update-find granted start users_name users database-LevelIsValid users_found (pos 1) row
      (user 1 40) users-IsValid db_user_1_found apart

-- two rows, of which the second has the first one's id
abbrev same_rows : ℕ → Option (ℕ → Field)
same_rows i = some row

abbrev always : ℕ → Env
always i = granted

begins_here : (db_begin_transaction granted database).0 ≡ success
unfolding db_begin_transaction
begins_here = refl

batch_lem_example :
    let r : ErrorCode × State × Option (List ℤ) =
      db_batch_insert_records granted always start
        (some users_name)
        (some same_rows)
        (pos 2)
        true in
    (u : Table) × (ids : List ℤ) × (r.0 ≡ (batch_rows always same_rows 2 0 users (pos 1) []).code)
    × (db_get_table r.1.db (some users_name) ≡ some u)
    × Added same_rows users.columns 0 ids users.records u.records
    × AllFound u ids
    × (u.record_count ≡ 2 + length ids)
    × (r.0 ≡ success → (length ids ≡ 2) × (r.2 ≡ (if true then some ids else none)))
    × (r.0 ≢ success
        → (length ids < 2)
          × (r.2 ≡ none)
          × ((g : ℤ) × ((table_insert_record granted g u (some row)).code ≡ r.0)))
batch_lem_example =
    batch_lem granted always start users_name users database-DatabaseIsValid users_found same_rows
      (pos 2) true (omega arith, omega arith, omega arith, begins_here, λ wants. refl)

commits-begins_example :
    ((commits 3 (begins 3 granted database)).transaction_active ≡ false)
    × ((commits 3 (begins 3 granted database)).transaction_level ≡ 0)
    × ((commits 3 (begins 3 granted database)).tables ≡ users ∷ [])
commits-begins_example = commits-begins 3 granted database database-LevelIsValid (omega arith)

transactions-IsBalanced_example :
    IsBalanced (db_begin_transaction granted database).1
    × IsBalanced (db_commit_transaction database).1
    × IsBalanced (db_rollback_transaction database).1
transactions-IsBalanced_example =
    transactions-IsBalanced granted database database-LevelIsValid (λ h. omega arith)
