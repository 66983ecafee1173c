-- ===== src/Database/Records/BatchLaws.antt =====
-- The results of `db_batch_insert_records` of src/database.c, and what a failure leaves.
use luminix_experience_platf.Database.Tables.Laws.{name-find_table, get_after_put}
use luminix_experience_platf.Database.Records.Valid.{table_of}
use luminix_experience_platf.Database.Transactions.{db_begin_transaction}
use mathlib.Core.Path.{subst}
use luminix_experience_platf.Table.{table_insert_record}
use luminix_experience_platf.Database.Records.BatchRows.{Added, Refused, batch_rows-Ran}
use luminix_experience_platf.Database.Records.Batches.{batch_rows-Kept, AllFound, Kept}
use luminix_experience_platf.Database.Transactions.Valid.{
  tables-begin, tables-rollback, tables-commit,
}
use luminix_experience_platf.Database.Tables.{db_get_table, put_table}
use luminix_experience_platf.Database.Invariant.{DatabaseIsValid}
use luminix_experience_platf.Schema.{
  success, max_records_per_table, ErrorCode, Field, Table, State, Env,
}
use luminix_experience_platf.Database.Records.{
  db_batch_insert_records, batch_rows, end_batch, Batch,
}
use luminix_experience_platf.Base.{
  sym, ap, ◌∙◌, length, pos_part, ◌≤ℤ◌, Bytes, ℕ, ◌+◌, ◌≤◌, ◌<◌, ℤ, pos, Bool, true, List, [],
  Option, none, some, ◌≡◌, ◌≢◌, arith, if◌then◌else◌,
}

-- the end of the batch changes the tables as the loop left them, and the transaction
end_tables :
    (env : Env) (count : ℕ) (wants_ids : Bool) (b : Batch) (name : Bytes) (s : State)
    → (end_batch count wants_ids b name s).1.db.tables ≡ put_table s.db.tables name b.table
end_tables env count wants_ids b name s = ground (
  arith,
  tables-commit env (record s.db { tables = put_table s.db.tables name b.table }),
  tables-rollback env (record s.db { tables = put_table s.db.tables name b.table }),
)

from_zero : (n : ℕ) → 0 + n ≡ n
from_zero n = omega arith

module _ (env : Env) (rounds : ℕ → Env) (s : State) (name : Bytes) (t : Table)
    (v : DatabaseIsValid s.db) (found : db_get_table s.db (some name) ≡ some t)
    (rows : ℕ → Option (ℕ → Field)) (count : ℤ) (wants_ids : Bool) where
  abbrev batch : Batch
  batch = batch_rows rounds rows (pos_part count) 0 t s.global_counter []

  batch-Kept : Kept t [] (pos_part count) batch
  batch-Kept =
      batch_rows-Kept rounds rows (pos_part count) 0 t s.global_counter []
        (table_of s.db name t v found).valid tt

  -- the rows of the ids are in, and the next one was refused
  batch-Ran :
      Added rows t.columns 0 batch.ids t.records batch.table.records
      × (batch.code ≢ success → Refused rounds rows (length batch.ids) batch.table batch)
  batch-Ran =
      let (new, e, added, refused) =
        batch_rows-Ran rounds rows (pos_part count) 0 t s.global_counter [] in
      (
        subst (λ ids. Added rows t.columns 0 ids t.records batch.table.records) (sym e) added,
        λ failed.
            subst (λ ids. Refused rounds rows (length {A = ℤ} ids) batch.table batch) (sym e)
              (subst (λ k. Refused rounds rows k batch.table batch) (from_zero (length new))
                (refused failed)),
      )

  -- the steps before the loop are passed
  abbrev Starts : Type 0
  Starts =
      (pos 1 ≤ℤ count)
      × (count ≤ℤ pos 100)
      × (t.record_count + pos_part count ≤ max_records_per_table)
      × ((db_begin_transaction env s.db).0 ≡ success)
      × (wants_ids ≡ true → env.alloc 0 ≡ true)

  abbrev begun : State
  begun = record s { db = (db_begin_transaction env s.db).1 }

  -- the code of the batch is that of its loop
  end_code : (end_batch (pos_part count) wants_ids batch name begun).0 ≡ batch.code
  end_code = ground arith

  batch_run :
      Starts
      → db_batch_insert_records env rounds s (some name) (some rows) count wants_ids
        ≡ end_batch (pos_part count) wants_ids batch name begun
  unfolding db_batch_insert_records
  batch_run (least, most, room, begins, granted) = rw found (ground arith)

  -- In a valid database, if the count is from 1 to 100 and fits into the table `t` of that name, a
  -- transaction can begin and the array of ids is granted if it is wanted: the batch returns the
  -- code of its loop. The records of the table of that name afterwards are the old ones after those
  -- of the first rows, one for each inserted id, with the values of the row and the types of the
  -- columns; the search finds every such id, and they are counted. They are all rows if the code is
  -- SUCCESS, and the ids are then the result, if they are wanted. After a failure they are fewer,
  -- no ids are returned, and the row after them is one that the table as it is then refuses with
  -- that code: the rows before the failure stay, though the transaction is rolled back.
  pub batch_lem :
      Starts
      → let r : ErrorCode × State × Option (List ℤ) =
          db_batch_insert_records env rounds s (some name) (some rows) count wants_ids in
        (u : Table) × (ids : List ℤ) × (r.0 ≡ batch.code)
        × (db_get_table r.1.db (some name) ≡ some u)
        × Added rows t.columns 0 ids t.records u.records
        × AllFound u ids
        × (u.record_count ≡ t.record_count + length ids)
        × (r.0 ≡ success
            → (length ids ≡ pos_part count) × (r.2 ≡ (if wants_ids then some ids else none)))
        × (r.0 ≢ success
            → (length ids < pos_part count)
              × (r.2 ≡ none)
              × ((g : ℤ) × ((table_insert_record (rounds (length ids)) g u (rows (length ids))).code
                    ≡ r.0)))
  unfolding db_get_table
  batch_lem starts =
      let k : Kept t [] (pos_part count) batch = batch-Kept in
      let ran = batch-Ran in
      let ends = end_code in
      let tables : begun.db.tables ≡ s.db.tables = tables-begin env s.db in
      let after : (end_batch (pos_part count) wants_ids batch name begun).1.db.tables
          ≡ put_table s.db.tables name batch.table =
        end_tables env (pos_part count) wants_ids batch name begun
        ∙ ap (λ ts. put_table ts name batch.table) tables in
      rw (batch_run starts) (
        batch.table,
        batch.ids,
        ground arith,
        get_after_put (end_batch (pos_part count) wants_ids batch name begun).1.db s.db name t
            batch.table found (k.same.0 ∙ name-find_table s.db.tables name found) after,
        ran.0,
        k.found,
        omega (arith, k.counted),
        λ h. ground (arith, k.all_in, k.some_out),
        λ h.
            let failed : batch.code ≢ success = λ e. h (ends ∙ e) in
            let (g, refused) = ran.1 failed in
            (
              omega (arith, k.some_out failed),
              ground (arith, k.some_out failed),
              (g, refused ∙ sym ends),
            ),
      )
