-- ===== src/Database/Records/Laws.antt =====
-- Laws of `db_insert_record` and `db_find_record` of src/database.c.
use luminix_experience_platf.Table.Frame.{insert-SameSchema}
use luminix_experience_platf.Base.{
  ◌∙◌, sym, str_eq_refl, ap, eqb_ℤ, Bytes, ℕ, ℤ, List, none, some, ◌≡◌, ◌≢◌, arith, if◌then◌else◌,
}
use luminix_experience_platf.Schema.{State}
use luminix_experience_platf.Table.{table_insert_record, Inserted, new_record}
use luminix_experience_platf.Table.Insert.{insert_failure_keeps, insert-find}
use luminix_experience_platf.Database.Tables.{put_table, db_get_table, find_table}
use luminix_experience_platf.Database.Tables.Laws.{put_table_self, name-find_table, find_table-put}
use luminix_experience_platf.Database.Transactions.{in_transaction}
use luminix_experience_platf.Database.Transactions.Laws.{in_transaction_lem, LevelIsValid}
use luminix_experience_platf.Database.Records.{
  success, insert_change, table_find_record, Field, Table, Database, Env, db_find_record,
  db_insert_record,
}

-- the search after the table of that name was written back as `u`
pub find_after_put :
    (db : Database) (ts : List Table) (name : Bytes) (t u : Table) (id : ℤ)
    → find_table ts name ≡ some t
    → u.name ≡ name
    → db.tables ≡ put_table ts name u
    → db_find_record db (some name) id ≡ table_find_record u id
unfolding db_find_record db_get_table
find_after_put db ts name t u id found same e =
    ground (arith, e, find_table-put ts name u name same, str_eq_refl name)

pub find_before :
    (db : Database) (name : Bytes) (t : Table) (id : ℤ)
    → db_get_table db (some name) ≡ some t
    → db_find_record db (some name) id ≡ table_find_record t id
unfolding db_find_record
find_before db name t id found = ground arith

module _ (env : Env) (s : State) (name : Bytes) (t : Table) (level : LevelIsValid s.db)
    (found : db_get_table s.db (some name) ≡ some t) where
  insert_runs :
      (values : ℕ → Field)
      → db_insert_record env s (some name) (some values)
        ≡ in_transaction env none (insert_change env s name t values) s
  unfolding db_insert_record
  insert_runs values = ground arith

  -- what an insertion leaves, in terms of the insertion into the table
  pub insert_effects :
      (values : ℕ → Field)
      → let r : Inserted = table_insert_record env s.global_counter t (some values) in
        ((db_insert_record env s (some name) (some values)).0 ≡ r.code)
        × ((db_insert_record env s (some name) (some values)).1.db.tables
            ≡ put_table s.db.tables name r.table)
        × ((db_insert_record env s (some name) (some values)).1.global_counter ≡ r.global_counter)
        × ((db_insert_record env s (some name) (some values)).2 ≡ r.out_id)
        × ((db_insert_record env s (some name) (some values)).1.db.transaction_active
            ≡ s.db.transaction_active)
        × ((db_insert_record env s (some name) (some values)).1.db.transaction_level
            ≡ s.db.transaction_level)
        × ((db_insert_record env s (some name) (some values)).1.db.table_capacity
            ≡ s.db.table_capacity)
  insert_effects values =
      rw insert_runs (in_transaction_lem env none (insert_change env s name t values) s level)

  stored_name : t.name ≡ name
  unfolding db_get_table
  stored_name = name-find_table s.db.tables name found

  -- If the flag and the level of the transaction agree and `t` is the table of that name: after
  -- SUCCESS of `db_insert_record` the id that it stores was not found before, the search for it
  -- returns the new record, and the search for any other id in the table returns what it did.
  pub db_insert-find :
      (values : ℕ → Field)
      → (db_insert_record env s (some name) (some values)).0 ≡ success
      → (id : ℤ) × ((db_insert_record env s (some name) (some values)).2 ≡ some id)
        × (db_find_record s.db (some name) id ≡ none)
        × ((j : ℤ)
            → db_find_record (db_insert_record env s (some name) (some values)).1.db (some name) j
              ≡ (if eqb_ℤ id j
                  then some (new_record env t id values)
                  else db_find_record s.db (some name) j))
  db_insert-find values h =
      let effects = insert_effects values in
      let (id, stored, fresh, after) =
        insert-find env s.global_counter t values (sym effects.0 ∙ h) in
      let same = (insert-SameSchema env s.global_counter t (some values)).0 ∙ stored_name in
      (
        id,
        effects.3 ∙ stored,
        find_before s.db name t id found ∙ fresh,
        λ j.
            find_after_put _ s.db.tables name t _ j (unfold db_get_table in found) same effects.1
            ∙ after j
            ∙ ap (λ o. if eqb_ℤ id j then some (new_record env t id values) else o)
                (sym (find_before s.db name t j found)),
      )

  -- If the flag and the level of the transaction agree and `t` is the table of that name: a
  -- `db_insert_record` that does not return SUCCESS leaves all tables as they were and stores no
  -- id.
  pub db_insert_failure_keeps :
      (values : ℕ → Field)
      → (db_insert_record env s (some name) (some values)).0 ≢ success
      → ((db_insert_record env s (some name) (some values)).1.db.tables ≡ s.db.tables)
        × ((db_insert_record env s (some name) (some values)).2 ≡ none)
  db_insert_failure_keeps values h =
      let effects = insert_effects values in
      let (kept, nothing) =
        insert_failure_keeps env s.global_counter t values (λ e. h (effects.0 ∙ e)) in
      (
        effects.1
            ∙ ap (put_table s.db.tables name) kept
            ∙ put_table_self s.db.tables name (unfold db_get_table in found),
        effects.3 ∙ nothing,
      )
