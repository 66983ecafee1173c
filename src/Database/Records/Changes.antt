-- ===== src/Database/Records/Changes.antt =====
-- Update and deletion in a named table.
use luminix_experience_platf.Table.Clashes.{no_clash, Clashes}
use luminix_experience_platf.Table.Frame.{update-SameSchema, delete-SameSchema}
use luminix_experience_platf.Database.Records.Laws.{find_after_put, find_before}
use luminix_experience_platf.Table.Delete.{delete-find, delete_code}
use luminix_experience_platf.Table.Writes.{updated, key_taken}
use luminix_experience_platf.Table.Update.{update-find, update_outcome}
use luminix_experience_platf.Table.Invariant.{IsValid}
use luminix_experience_platf.Table.{table_find_record, table_update_record, table_delete_record}
use luminix_experience_platf.Table.Find.{DistinctIds}
use luminix_experience_platf.Database.Tables.Laws.{name-find_table}
use luminix_experience_platf.Database.Records.{
  update_change, delete_change, db_find_record, db_update_record, db_delete_record,
}
use luminix_experience_platf.Database.Tables.{put_table, db_get_table}
use luminix_experience_platf.Database.Transactions.Laws.{in_transaction_lem, LevelIsValid}
use luminix_experience_platf.Schema.{
  error_not_found, success, Record, ErrorCode, Field, Table, State, Env,
}
use luminix_experience_platf.Base.{
  sym, ap, ◌∙◌, eqb_ℤ, is_some, Bytes, ℕ, ℤ, false, none, some, ◌≡◌, arith, if◌then◌else◌,
}

module _ (env : Env) (s : State) (name : Bytes) (t : Table) (level : LevelIsValid s.db)
    (found : db_get_table s.db (some name) ≡ some t) where
  pub update_effects :
      (id : ℤ) (values : ℕ → Field)
      → let r : ErrorCode × Table = table_update_record env t id (some values) in
        ((db_update_record env s (some name) id (some values)).0 ≡ r.0)
        × ((db_update_record env s (some name) id (some values)).1.db.tables
            ≡ put_table s.db.tables name r.1)
        × ((db_update_record env s (some name) id (some values)).1.db.transaction_active
            ≡ s.db.transaction_active)
        × ((db_update_record env s (some name) id (some values)).1.db.transaction_level
            ≡ s.db.transaction_level)
        × ((db_update_record env s (some name) id (some values)).1.db.table_capacity
            ≡ s.db.table_capacity)
  unfolding db_update_record
  update_effects id values =
      let ran = in_transaction_lem env tt (update_change env s name t id values) s level in
      ground arith

  pub delete_effects :
      (id : ℤ)
      → let r : ErrorCode × Table = table_delete_record t id in
        ((db_delete_record env s (some name) id).0 ≡ r.0)
        × ((db_delete_record env s (some name) id).1.db.tables ≡ put_table s.db.tables name r.1)
        × ((db_delete_record env s (some name) id).1.db.transaction_active
            ≡ s.db.transaction_active)
        × ((db_delete_record env s (some name) id).1.db.transaction_level ≡ s.db.transaction_level)
        × ((db_delete_record env s (some name) id).1.db.table_capacity ≡ s.db.table_capacity)
  unfolding db_delete_record
  delete_effects id =
      let ran = in_transaction_lem env tt (delete_change s name t id) s level in ground arith

  name_of : t.name ≡ name
  unfolding db_get_table
  name_of = name-find_table s.db.tables name found

  -- If the flag and the level of the transaction agree and `t` is the table of that name, with
  -- distinct ids: `db_delete_record` returns SUCCESS if the id was found before and else
  -- ERROR_NOT_FOUND; after it the id is not found, and the search for any other id returns what it
  -- did.
  pub db_delete-find :
      (id : ℤ)
      → DistinctIds t.records
      → ((db_delete_record env s (some name) id).0
          ≡ (if is_some (db_find_record s.db (some name) id) then success else error_not_found))
        × ((j : ℤ)
            → db_find_record (db_delete_record env s (some name) id).1.db (some name) j
              ≡ (if eqb_ℤ id j then none else db_find_record s.db (some name) j))
  db_delete-find id distinct =
      let effects = delete_effects id in
      (
        effects.0
            ∙ (delete_code t id).0
            ∙ ap (λ o. if is_some o then success else error_not_found)
                (sym (find_before s.db name t id found)),
        λ j.
            find_after_put _ s.db.tables name t _ j (unfold db_get_table in found)
              ((delete-SameSchema t id).0 ∙ name_of) effects.1
            ∙ delete-find t id j distinct
            ∙ ap (λ o. if eqb_ℤ id j then none else o) (sym (find_before s.db name t j found)),
      )

  -- If the flag and the level of the transaction agree and `t` is the table of that name and valid:
  -- after a `db_update_record` of a record that is found, where no primary key is given a value
  -- that is not NULL and stands for the id of another record (an `int` stands for itself, every
  -- other value for 0), the code is SUCCESS, the search for the id returns the record with all
  -- fields written, the new time and the version counted up, and the search for any other id
  -- returns what it did.
  pub db_update-find :
      (id : ℤ) (values : ℕ → Field) (old : Record)
      → IsValid t
      → db_find_record s.db (some name) id ≡ some old
      → ¬ Clashes t.records id values t.columns 0
      → ((db_update_record env s (some name) id (some values)).0 ≡ success)
        × ((j : ℤ)
            → db_find_record
                (db_update_record env s (some name) id (some values)).1.db
                (some name)
                j
              ≡ (if eqb_ℤ id j
                  then some (updated env t old values)
                  else db_find_record s.db (some name) j))
  db_update-find id values old valid at apart =
      let free : key_taken t id values t.columns 0 ≡ false =
        no_clash t id values t.columns 0 apart in
      let effects = update_effects id values in
      let at_table : table_find_record t id ≡ some old =
        sym (find_before s.db name t id found) ∙ at in
      (
        effects.0 ∙ ground (arith, update_outcome env t id values valid, at_table, free),
        λ j.
            find_after_put _ s.db.tables name t _ j (unfold db_get_table in found)
              ((update-SameSchema env t id (some values)).0 ∙ name_of) effects.1
            ∙ update-find env t id values valid j at_table free
            ∙ ap (λ o. if eqb_ℤ id j then some (updated env t old values) else o)
                (sym (find_before s.db name t j found)),
      )
