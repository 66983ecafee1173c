-- ===== src/Database/IndexOps/Valid.antt =====
-- `db_create_index` and `db_drop_index` of src/database.c and the well-formed database.
use luminix_experience_platf.Database.Tables.Laws.{length-put_table, All-put_table}
use luminix_experience_platf.Table.Invariant.{IsValid}
use luminix_experience_platf.Database.IndexOps.Laws.{
  create_index_success, stored_index, create_index_succeeds_iff,
}
use luminix_experience_platf.Database.Records.Valid.{LevelIsValid-same, table_of}
use luminix_experience_platf.Database.Records.Batches.{code_success}
use luminix_experience_platf.Indexes.Laws.{add_index-fits, length-remove_index}
use luminix_experience_platf.Database.Tables.{put_table, db_get_table}
use luminix_experience_platf.Indexes.{add_index_to_manager, remove_index_from_manager}
use luminix_experience_platf.Database.IndexOps.{db_drop_index, db_create_index}
use luminix_experience_platf.Database.Invariant.{TableIsOk, DatabaseIsValid}
use luminix_experience_platf.Schema.{
  Index, max_indexes_per_table, is_success, success, index_count, IndexType, IndexManager, Table,
  Env, Database,
}
use luminix_experience_platf.Base.{
  length-append, length, ap, Bool-cases, Option-cases, Bytes, ℕ, ◌≤◌, [], ◌∷◌, Option, none, some,
  ◌≡◌, ◌≢◌, arith, inl, inr,
}

-- a table of the database with another index manager, which keeps within the limits
put_indexes-DatabaseIsValid :
    {db db' : Database} (name : Bytes) (t : Table) (m : IndexManager)
    → DatabaseIsValid db
    → db_get_table db (some name) ≡ some t
    → index_count m ≤ m.capacity
    → index_count m ≤ max_indexes_per_table
    → db'.tables ≡ put_table db.tables name (record t { index_manager = m })
    → db'.transaction_active ≡ db.transaction_active
    → db'.transaction_level ≡ db.transaction_level
    → db'.table_capacity ≡ db.table_capacity
    → DatabaseIsValid db'
put_indexes-DatabaseIsValid {db} {db'} name t m v found fits few tables active level capacity =
    let ok : TableIsOk t = table_of db name t v found in
    let u : Table = record t { index_manager = m } in
    let valid : IsValid t = ok.valid in
    record {
      tables = rw tables (
          All-put_table TableIsOk db.tables name u
            (record {
              valid = record {
                counted = valid.counted;
                bounded = valid.bounded;
                distinct = valid.distinct;
                shaped = valid.shaped;
                indexes_fit = fits;
              };
              first_key = ok.first_key;
              name_fits = ok.name_fits;
              few_indexes = few;
            })
            v.tables);
      fits =
          omega (arith, v.fits, length-put_table db.tables name u, ap (length {A = Table}) tables);
      bounded = omega (arith, v.bounded);
      level = LevelIsValid-same active level v.level;
    }

module _ (db : Database) (v : DatabaseIsValid db) where
  create_index_other :
      (env : Env) (name field_name : Bytes) (type : IndexType)
      → (db_create_index env db (some name) (some field_name) type).0 ≢ success
      → (db_create_index env db (some name) (some field_name) type).1 ≡ db
  unfolding db_create_index
  create_index_other env name field_name type h = ground arith

  create_index_level :
      (env : Env) (name field_name : Bytes) (type : IndexType)
      → let db' : Database = (db_create_index env db (some name) (some field_name) type).1 in
        (db'.transaction_active ≡ db.transaction_active)
        × (db'.transaction_level ≡ db.transaction_level)
        × (db'.table_capacity ≡ db.table_capacity)
  unfolding db_create_index
  create_index_level env name field_name type = ground arith

  -- `db_create_index`, whatever it is given and returns.
  pub create_index-DatabaseIsValid :
      (env : Env) (name field_name : Option Bytes) (type : IndexType)
      → DatabaseIsValid (db_create_index env db name field_name type).1
  unfolding db_create_index
  create_index-DatabaseIsValid env none field_name type = unfold db_create_index in v
  create_index-DatabaseIsValid env (some name) none type = unfold db_create_index in v
  create_index-DatabaseIsValid env (some name) (some field_name) type =
      elim (Bool-cases (is_success (db_create_index env db (some name) (some field_name) type).0)) [
        | inr failed ↦ rw (create_index_other env name field_name type (λ e. cc)) v
        | inl done ↦ elim (Option-cases (db_get_table db (some name))) [
          | inl missing ↦ rw (missing, db_create_index) v
          | inr (t, found) ↦
              let h = code_success _ done in
              let room = ((create_index_succeeds_iff env db name field_name type t found).0 h).2 in
              let ok : TableIsOk t = table_of db name t v found in
              let m : IndexManager = t.index_manager in
              let index : Index = stored_index name field_name type in
              let few : index_count (add_index_to_manager (env.alloc 1) m index).1
                  ≤ max_indexes_per_table =
                unfold add_index_to_manager in
                ground (arith, length-append m.indexes (index ∷ [])) in
              let (active, level, capacity) = create_index_level env name field_name type in
              put_indexes-DatabaseIsValid name t (add_index_to_manager (env.alloc 1) m index).1 v
                found (add_index-fits (env.alloc 1) m index ok.valid.indexes_fit) few
                (create_index_success env db name field_name type t found h) active level capacity
        ]
      ]

  drop_fits :
      (m : IndexManager) (name field_name : Bytes) (n : ℕ)
      → index_count m ≤ n
      → index_count (remove_index_from_manager m name field_name).1 ≤ n
  unfolding remove_index_from_manager
  drop_fits m name field_name n h = ground (arith, length-remove_index m.indexes name field_name)

  drop_capacity :
      (m : IndexManager) (name field_name : Bytes)
      → (remove_index_from_manager m name field_name).1.capacity ≡ m.capacity
  unfolding remove_index_from_manager
  drop_capacity m name field_name = ground arith

  -- `db_drop_index`, whatever it is given and returns.
  pub drop_index-DatabaseIsValid :
      (name field_name : Option Bytes) → DatabaseIsValid (db_drop_index db name field_name).1
  unfolding db_drop_index
  drop_index-DatabaseIsValid none field_name = unfold db_drop_index in v
  drop_index-DatabaseIsValid (some name) none = unfold db_drop_index in v
  drop_index-DatabaseIsValid (some name) (some field_name) =
      elim (Option-cases (db_get_table db (some name))) [
        | inl missing ↦ rw (missing, db_drop_index) v
        | inr (t, found) ↦
            let ok : TableIsOk t = table_of db name t v found in
            let m : IndexManager = t.index_manager in
            put_indexes-DatabaseIsValid name t (remove_index_from_manager m name field_name).1 v
              found (rw drop_capacity (drop_fits m name field_name m.capacity ok.valid.indexes_fit))
              (drop_fits m name field_name max_indexes_per_table ok.few_indexes) (ground arith)
              (ground arith) (ground arith) (ground arith)
      ]
