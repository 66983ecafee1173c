-- ===== src/Database/Records/BatchValid.antt =====
-- Batches of insertions (src/database.c) and the well-formed database.
use luminix_experience_platf.Database.Records.Valid.{
  table_of, LevelIsValid-same, put-DatabaseIsValid,
}
use luminix_experience_platf.Database.Records.Batches.{batch_rows-Kept, Kept}
use luminix_experience_platf.Database.Transactions.Valid.{
  commit-DatabaseIsValid, rollback-DatabaseIsValid, tables-begin, begin-DatabaseIsValid,
}
use luminix_experience_platf.Database.Transactions.{db_begin_transaction}
use luminix_experience_platf.Database.Tables.{put_table, find_table, db_get_table}
use luminix_experience_platf.Database.Records.{
  batch_rows, end_batch, Batch, db_batch_insert_records,
}
use luminix_experience_platf.Database.Invariant.{DatabaseIsValid}
use luminix_experience_platf.Schema.{
  is_success, max_records_per_table, Database, Field, Table, ErrorCode, State, Env,
}
use luminix_experience_platf.Base.{
  ◌∙◌, ltb, length, pos_part, Option-cases, ltb_ℤ, if_elim, ◌==◌, ap, Bytes, ℕ, ◌+◌, ℤ, pos, Bool,
  not, ◌&&◌, ◌||◌, List, [], Option, none, some, ◌≡◌, refl, inl, inr,
}

end_batch-DatabaseIsValid :
    (env : Env) (s : State) (name : Bytes) (t : Table) (b : Batch) (ids : List ℤ) (n count : ℕ)
    (wants_ids : Bool)
    → DatabaseIsValid s.db
    → db_get_table s.db (some name) ≡ some t
    → Kept t ids n b
    → DatabaseIsValid (end_batch count wants_ids b name s).1.db
end_batch-DatabaseIsValid env s name t b ids n count wants_ids v found k =
    let db : Database = record s.db { tables = put_table s.db.tables name b.table } in
    let valid : DatabaseIsValid db =
      put-DatabaseIsValid {db = s.db} {db' = db} name t b.table v found k.valid k.same refl
        (LevelIsValid-same {db = s.db} {db' = db} refl refl v.level) refl in
    if_elim (λ (r : ErrorCode × State × Option (List ℤ)). DatabaseIsValid r.1.db)
      (length b.ids == count) (λ all_in. commit-DatabaseIsValid env db valid)
      (λ some_out. rollback-DatabaseIsValid env db valid)

module _ (env : Env) (rounds : ℕ → Env) (s : State) (v : DatabaseIsValid s.db) where
  abbrev begun : State
  begun = record s { db = (db_begin_transaction env s.db).1 }

  begun_valid : DatabaseIsValid begun.db
  begun_valid = begin-DatabaseIsValid env s.db v

  get_begun : (name : Bytes) → db_get_table begun.db (some name) ≡ db_get_table s.db (some name)
  unfolding db_get_table
  get_begun name = ap (λ ts. find_table ts name) (tables-begin env s.db)

  abbrev IsGood : ErrorCode × State × Option (List ℤ) → Type 0
  IsGood r = DatabaseIsValid r.1.db

  -- `db_batch_insert_records`, whatever it is given and returns.
  pub batch-DatabaseIsValid :
      (name : Option Bytes) (rows : Option (ℕ → Option (ℕ → Field))) (count : ℤ) (wants_ids : Bool)
      → DatabaseIsValid (db_batch_insert_records env rounds s name rows count wants_ids).1.db
  unfolding db_batch_insert_records
  batch-DatabaseIsValid none rows count wants_ids = unfold db_batch_insert_records in v
  batch-DatabaseIsValid (some name) none count wants_ids = unfold db_batch_insert_records in v
  batch-DatabaseIsValid (some name) (some rows) count wants_ids =
      if_elim IsGood (ltb_ℤ count (pos 1) || ltb_ℤ (pos 100) count) (λ bad. v)
        (λ good. elim (Option-cases (db_get_table s.db (some name))) [
          | inl missing ↦ rw missing v
          | inr (t, found) ↦
              let n : ℕ = pos_part count in
              let k : Kept t [] n (batch_rows rounds rows n 0 t s.global_counter []) =
                batch_rows-Kept rounds rows n 0 t s.global_counter []
                  (table_of s.db name t v found).valid tt in
              rw found (
                if_elim IsGood (ltb max_records_per_table (t.record_count + n)) (λ full. v)
                  (λ room.
                    if_elim IsGood (not (is_success (db_begin_transaction env s.db).0))
                      (λ refused. begun_valid)
                      (λ started.
                        if_elim IsGood (wants_ids && not (env.alloc 0))
                          (λ denied. rollback-DatabaseIsValid env begun.db begun_valid)
                          (λ granted.
                            end_batch-DatabaseIsValid env begun name t
                              (batch_rows rounds rows n 0 t s.global_counter []) [] n n wants_ids
                              begun_valid (get_begun name ∙ found) k))))
        ])
