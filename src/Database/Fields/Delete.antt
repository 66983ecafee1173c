-- ===== src/Database/Fields/Delete.antt =====
-- What the deletion by field deletes.
use luminix_experience_platf.Database.Tables.Laws.{name-find_table, get_after_put}
use luminix_experience_platf.Database.Fields.Search.{find_all_nothing}
use luminix_experience_platf.Database.Transactions.{
  db_rollback_transaction, db_commit_transaction, db_begin_transaction,
}
use luminix_experience_platf.Indexes.{field_position}
use luminix_experience_platf.Database.Tables.{put_table, db_get_table}
use luminix_experience_platf.Table.Invariant.{HasFields, IsValid}
use luminix_experience_platf.Indexes.Laws.{remove_indexes_lem}
use luminix_experience_platf.Table.Find.{DistinctIds}
use luminix_experience_platf.Table.{field_count, find_id}
use luminix_experience_platf.Schema.{
  max_transaction_level, success, State, Table, Env, IndexManager, FieldValue, Record, FieldType,
}
use luminix_experience_platf.Database.Fields.{
  db_find_all_records_by_field, db_delete_records_by_field, column_type, swept_table, field_at,
  value_matches, sweep, all_matching,
}
use luminix_experience_platf.Base.{
  Bytes, Bool-cases, length, All, ℕ, ◌+◌, ◌-◌, ◌<◌, ℤ, true, false, List, [], ◌∷◌, none, some, ◌≡◌,
  refl, arith, if◌then◌else◌, inl, inr,
}

-- the records that do not match
pub unmatched : FieldType → List Record → ℕ → FieldValue → List Record
unmatched type [] i v = []
unmatched type (r ∷ rs) i v =
    if value_matches type (field_at r i).value v
    then unmatched type rs i v
    else r ∷ unmatched type rs i v

-- The loop drops the matching records, counts them, and leaves the others in order.
pub sweep_lem :
    (type : FieldType) (i : ℕ) (v : FieldValue) (rs : List Record) (m : IndexManager)
    → sweep type i v rs m ≡ record {
      kept = unmatched type rs i v;
      deleted = length (all_matching type rs i v);
      manager = m;
    }
unfolding sweep unmatched all_matching
sweep_lem type i v [] m = refl
sweep_lem type i v (r ∷ rs) m = elim (Bool-cases (value_matches type (field_at r i).value v)) [
  | inl yes_match ↦ rw yes_match (rw remove_indexes_lem (ground (arith, sweep_lem type i v rs m)))
  | inr no_match ↦ rw no_match (ground (arith, sweep_lem type i v rs m))
]

length-unmatched :
    (type : FieldType) (rs : List Record) (i : ℕ) (v : FieldValue)
    → length (unmatched type rs i v) + length (all_matching type rs i v) ≡ length rs
unfolding unmatched all_matching
length-unmatched type [] i v = refl
length-unmatched type (r ∷ rs) i v = ground (arith, length-unmatched type rs i v)

all_matching-unmatched :
    (type : FieldType) (rs : List Record) (i : ℕ) (v : FieldValue)
    → all_matching type (unmatched type rs i v) i v ≡ []
unfolding unmatched all_matching
all_matching-unmatched type [] i v = refl
all_matching-unmatched type (r ∷ rs) i v = ground (arith, all_matching-unmatched type rs i v)

unmatched_all :
    (type : FieldType) (rs : List Record) (i : ℕ) (v : FieldValue)
    → all_matching type rs i v ≡ []
    → unmatched type rs i v ≡ rs
unfolding unmatched all_matching
unmatched_all type [] i v h = refl
unmatched_all type (r ∷ rs) i v h = ground (arith, unmatched_all type rs i v)

find_id-unmatched :
    (type : FieldType) (rs : List Record) (i : ℕ) (v : FieldValue) (id : ℤ)
    → find_id rs id ≡ none
    → find_id (unmatched type rs i v) id ≡ none
unfolding unmatched find_id
find_id-unmatched type [] i v id h = refl
find_id-unmatched type (r ∷ rs) i v id h = ground (arith, find_id-unmatched type rs i v id)

DistinctIds-unmatched :
    (type : FieldType) (rs : List Record) (i : ℕ) (v : FieldValue)
    → DistinctIds rs
    → DistinctIds (unmatched type rs i v)
unfolding unmatched
DistinctIds-unmatched type [] i v h = tt
DistinctIds-unmatched type (r ∷ rs) i v h =
    ground (arith, DistinctIds-unmatched type rs i v, find_id-unmatched type rs i v r.id)

module _ (P : Record → Type 0) where
  All-unmatched :
      (type : FieldType) (rs : List Record) (i : ℕ) (v : FieldValue)
      → All P rs
      → All P (unmatched type rs i v)
  unfolding unmatched
  All-unmatched type [] i v h = tt
  All-unmatched type (r ∷ rs) i v h = ground (arith, All-unmatched type rs i v)

-- Where the table is valid, deletion by field keeps it valid.
pub swept-IsValid :
    (t : Table) (i : ℕ) (v : FieldValue)
    → IsValid t
    → IsValid (swept_table t (sweep (column_type t i) i v t.records t.index_manager))
swept-IsValid t i v valid =
    let ty : FieldType = column_type t i in
    rw (sweep_lem ty i v t.records t.index_manager) (record {
      counted = omega (arith, valid.counted, length-unmatched ty t.records i v);
      bounded = omega (arith, valid.bounded);
      distinct = DistinctIds-unmatched ty t.records i v valid.distinct;
      shaped = All-unmatched (HasFields (field_count t)) ty t.records i v valid.shaped;
      indexes_fit = valid.indexes_fit;
    })

module _ (env : Env) (s : State) (name field_name : Bytes) (value : FieldValue) (t : Table) (i : ℕ)
    (found : db_get_table s.db (some name) ≡ some t)
    (column : field_position t.columns field_name 0 ≡ some i) where
  -- For a table and a column that exist, if a transaction can begin: `db_delete_records_by_field`
  -- returns SUCCESS, stores the number of matching records through `out_count`, drops exactly these
  -- from the table, and keeps the others in their order; `record_count` falls by that number and
  -- the statistics of the table stay.
  pub delete_by_field_lem :
      (db_begin_transaction env s.db).0 ≡ success
      → ((db_delete_records_by_field env s (some name) (some field_name) (some value) true).0
          ≡ success)
        × ((db_delete_records_by_field env s (some name) (some field_name) (some value) true).2
            ≡ some (length (all_matching (column_type t i) t.records i value)))
        × ((db_delete_records_by_field env s
              (some name)
              (some field_name)
              (some value)
              true).1.db.tables
            ≡ put_table s.db.tables name (record t {
              records = unmatched (column_type t i) t.records i value;
              record_count =
                  t.record_count - length (all_matching (column_type t i) t.records i value);
            }))
  unfolding db_delete_records_by_field db_begin_transaction db_commit_transaction
      db_rollback_transaction
  delete_by_field_lem begun =
      ground (arith, sweep_lem (column_type t i) i value t.records t.index_manager)

  -- For a table and a column that exist: inside an open transaction below the last level, a
  -- deletion by field that matches no record returns SUCCESS and ends the transaction of the
  -- caller, whatever its level.
  pub delete_by_field_no_match_ends_transaction :
      s.db.transaction_active ≡ true
      → s.db.transaction_level < max_transaction_level
      → all_matching (column_type t i) t.records i value ≡ []
      → ((db_delete_records_by_field env s (some name) (some field_name) (some value) true).0
          ≡ success)
        × ((db_delete_records_by_field env s
              (some name)
              (some field_name)
              (some value)
              true).1.db.transaction_active
            ≡ false)
        × ((db_delete_records_by_field env s
              (some name)
              (some field_name)
              (some value)
              true).1.db.transaction_level
            ≡ 0)
  unfolding db_delete_records_by_field db_begin_transaction db_rollback_transaction
  delete_by_field_no_match_ends_transaction active room none_match =
      ground (arith, sweep_lem (column_type t i) i value t.records t.index_manager)

  -- For a table and a column that exist, if a transaction can begin: after
  -- `db_delete_records_by_field` the search for the same value finds nothing.
  pub find_all-delete_by_field :
      (env' : Env)
      → (db_begin_transaction env s.db).0 ≡ success
      → db_find_all_records_by_field env'
          ((db_delete_records_by_field env s (some name) (some field_name) (some value) true).1.db)
          (some name)
          (some field_name)
          (some value)
          true
        ≡ (none, some 0)
  find_all-delete_by_field env' begun =
      let u : Table = record t {
        records = unmatched (column_type t i) t.records i value;
        record_count = t.record_count - length (all_matching (column_type t i) t.records i value);
      } in
      find_all_nothing _ name field_name value u i
        (get_after_put _ s.db name t u found
          (unfold db_get_table in name-find_table s.db.tables name found)
          (delete_by_field_lem begun).2)
        column env' (all_matching-unmatched (column_type t i) t.records i value)
