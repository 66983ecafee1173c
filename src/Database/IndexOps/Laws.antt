-- ===== src/Database/IndexOps/Laws.antt =====
-- Laws of `db_create_index` of src/database.c.
use luminix_experience_platf.Indexes.Laws.{find_index-append}
use luminix_experience_platf.Database.Tables.Laws.{name-find_table, get_after_put}
use luminix_experience_platf.Database.Tables.{put_table, db_get_table}
use luminix_experience_platf.Indexes.{
  find_index_in_manager, field_position, add_index_to_manager, create_simple_index,
  index_insert_simple,
}
use luminix_experience_platf.Schema.{
  max_indexes_per_table, index_count, IndexManager, success, max_field_chars, max_table_name_chars,
  Table, Record, Index, IndexType, Database, Env,
}
use luminix_experience_platf.Database.IndexOps.{db_create_index, fill_index}
use luminix_experience_platf.Base.{
  str_eq_refl, take_all, ap, length-append, length, Option-cases, is_some, take, Bytes, ℕ, ◌+◌, ◌≤◌,
  ◌<◌, true, List, [], ◌∷◌, ◌++◌, none, some, ◌≡◌, ◌↔◌, refl, arith, inl, inr,
}

fill_index_lem : (rs : List Record) (i : ℕ) (index : Index) → fill_index rs i index ≡ index
unfolding fill_index index_insert_simple
fill_index_lem [] i index = refl
fill_index_lem (r ∷ rs) i index = ground (arith, fill_index_lem rs i index)

-- the names of an index, as they are stored
abbrev pub stored_index : Bytes → Bytes → IndexType → Index
stored_index name field_name type = record {
  table_name = take max_table_name_chars name;
  field_name = take max_field_chars field_name;
  type = type;
}

module _ (env : Env) (db : Database) (name field_name : Bytes) (type : IndexType) (t : Table)
    (found : db_get_table db (some name) ≡ some t) where
  -- For a table that is found, `db_create_index` returns SUCCESS exactly if the column exists, the
  -- table has no index on it and fewer than 10 indexes, and the index, and the array if it is full,
  -- are granted.
  pub create_index_succeeds_iff :
      ((db_create_index env db (some name) (some field_name) type).0 ≡ success) ↔ (
        (is_some (field_position t.columns field_name 0) ≡ true)
        × (find_index_in_manager t.index_manager name field_name ≡ none)
        × (index_count t.index_manager < max_indexes_per_table)
        × (env.alloc 0 ≡ true)
        × ((t.index_manager.capacity ≤ index_count t.index_manager) → env.alloc 1 ≡ true))
  unfolding db_create_index create_simple_index add_index_to_manager
  create_index_succeeds_iff = (λ h. ground arith, λ h. ground arith)

  abbrev pub grown : IndexManager
  grown = (add_index_to_manager (env.alloc 1) t.index_manager (stored_index name field_name type)).1

  create_index_lem :
      (i : ℕ)
      → field_position t.columns field_name 0 ≡ some i
      → find_index_in_manager t.index_manager name field_name ≡ none
      → index_count t.index_manager < max_indexes_per_table
      → env.alloc 0 ≡ true
      → (add_index_to_manager (env.alloc 1) t.index_manager (stored_index name field_name type)).0
        ≡ success
      → (db_create_index env db (some name) (some field_name) type).1.tables
        ≡ put_table db.tables name (record t { index_manager = grown })
  unfolding db_create_index create_simple_index
  create_index_lem i column absent room granted added =
      rw (found, column, absent, granted, db_create_index)
        (rw fill_index_lem (ground (arith, added)))

  -- After SUCCESS the table of that name is the one before with the index appended to its manager.
  pub create_index_success :
      (db_create_index env db (some name) (some field_name) type).0 ≡ success
      → (db_create_index env db (some name) (some field_name) type).1.tables
        ≡ put_table db.tables name (record t { index_manager = grown })
  create_index_success h =
      let (column, absent, room, granted, resized) = create_index_succeeds_iff.0 h in
      elim (Option-cases (field_position t.columns field_name 0)) [
        | inl missing ↦ absurd (cc)
        | inr (i, at_i) ↦
            create_index_lem i at_i absent room granted
              (unfold add_index_to_manager in ground arith)
      ]

  -- For a table that is found and names that fit their arrays, an index that was created is found
  -- afterwards, in the table found under that name, which has one index more and the records that
  -- it had.
  pub create_index_found :
      length name ≤ max_table_name_chars
      → length field_name ≤ max_field_chars
      → (db_create_index env db (some name) (some field_name) type).0 ≡ success
      → (u : Table) × (db_get_table
            (db_create_index env db (some name) (some field_name) type).1
            (some name)
          ≡ some u)
        × (u.records ≡ t.records)
        × (index_count u.index_manager ≡ index_count t.index_manager + 1)
        × (find_index_in_manager u.index_manager name field_name
            ≡ some (stored_index name field_name type))
  unfolding find_index_in_manager db_get_table
  create_index_found fits fits_field h =
      let (column, absent, room, granted, resized) = create_index_succeeds_iff.0 h in
      let index : Index = stored_index name field_name type in
      let appended : grown.indexes ≡ t.index_manager.indexes ++ index ∷ [] =
        unfold add_index_to_manager in ground arith in
      (
        record t { index_manager = grown },
        get_after_put (db_create_index env db (some name) (some field_name) type).1 db name t _
            found (name-find_table db.tables name found) (create_index_success h),
        refl,
        omega (
          arith,
          length-append t.index_manager.indexes (index ∷ []),
          ap (length {A = Index}) appended,
        ),
        rw appended (
            ground (
              arith,
              find_index-append t.index_manager.indexes index name field_name,
              take_all max_table_name_chars name fits,
              take_all max_field_chars field_name fits_field,
              str_eq_refl name,
              str_eq_refl field_name,
            )),
      )
