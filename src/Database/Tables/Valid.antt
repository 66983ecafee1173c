-- ===== src/Database/Tables/Valid.antt =====
-- `db_create` and `db_add_table` of src/database.c and the well-formed database.
use luminix_experience_platf.Database.Records.Valid.{LevelIsValid-same}
use luminix_experience_platf.Database.Records.Batches.{code_success}
use luminix_experience_platf.Database.Tables.Laws.{add_table_appends, added_table}
use luminix_experience_platf.Table.Writes.{NoKeys, FirstKeyOnly}
use luminix_experience_platf.Database.Invariant.{TableIsOk, DatabaseIsValid}
use luminix_experience_platf.Schema.{
  max_table_name_chars, table_count, is_success, success, max_tables, Table, ErrorCode, FieldType,
  Database, Env,
}
use luminix_experience_platf.Database.Tables.{
  append_table, new_table, db_add_table, make_columns, db_create,
}
use luminix_experience_platf.Base.{
  length-append, All-append, length-take-le, pos_part, Bool-cases, length, ap, Bytes, ℕ, zero, suc,
  ◌+◌, ◌≤◌, ◌<◌, ℤ, [], ◌∷◌, ◌++◌, Option, none, some, ◌≡◌, ◌≢◌, refl, arith, inl, inr,
}

-- A database that `db_create` returns is valid, and it has no table.
pub create-DatabaseIsValid :
    (env : Env) {db : Database} → db_create env ≡ some db → DatabaseIsValid db × (db.tables ≡ [])
unfolding db_create
create-DatabaseIsValid env {db} h =
    let empty : db.tables ≡ [] = ground arith in
    (
      record {
        tables = rw empty tt;
        fits = ground (arith, ap (length {A = Table}) empty);
        bounded = ground arith;
        level = record { idle = ground arith; open_level = ground arith; bounded = ground arith };
      },
      empty,
    )

no_key_after :
    (field_names : ℕ → Bytes) (types : ℕ → FieldType) (n i : ℕ)
    → 1 ≤ i
    → NoKeys (make_columns field_names types n i)
unfolding make_columns
no_key_after field_names types zero i h = ground arith
no_key_after field_names types (suc n) i h =
    ground (arith, no_key_after field_names types n (i + 1))

first_key :
    (field_names : ℕ → Bytes) (types : ℕ → FieldType) (n : ℕ)
    → FirstKeyOnly (make_columns field_names types n 0)
unfolding make_columns
first_key field_names types zero = ground arith
first_key field_names types (suc n) = ground (arith, no_key_after field_names types n 1)

module _ (env : Env) (db : Database) (v : DatabaseIsValid db) where
  new_table-TableIsOk :
      (name : Bytes) (field_names : ℕ → Bytes) (types : ℕ → FieldType) (field_count : ℤ)
      → TableIsOk (added_table env name field_names types field_count)
  unfolding new_table
  new_table-TableIsOk name field_names types field_count = record {
    valid = record {
      counted = refl;
      bounded = omega arith;
      distinct = tt;
      shaped = tt;
      indexes_fit = omega arith;
    };
    first_key = first_key field_names types (pos_part field_count);
    name_fits = length-take-le max_table_name_chars name;
    few_indexes = omega arith;
  }

  add_table_capacity :
      (name : Bytes) (field_names : ℕ → Bytes) (types : ℕ → FieldType) (field_count : ℤ)
      → let r : ErrorCode × Database =
          db_add_table env db (some name) (some field_names) (some types) field_count in
        (db.table_capacity ≤ r.1.table_capacity)
        × (r.1.table_capacity ≤ max_tables)
        × (r.0 ≡ success → table_count db < r.1.table_capacity)
  unfolding db_add_table append_table
  add_table_capacity name field_names types field_count = ground (arith, v.fits, v.bounded)

  add_table_level :
      (name : Bytes) (field_names : ℕ → Bytes) (types : ℕ → FieldType) (field_count : ℤ)
      → let r : ErrorCode × Database =
          db_add_table env db (some name) (some field_names) (some types) field_count in
        (r.1.transaction_active ≡ db.transaction_active)
        × (r.1.transaction_level ≡ db.transaction_level)
        × (r.0 ≢ success → r.1.tables ≡ db.tables)
  unfolding db_add_table append_table
  add_table_level name field_names types field_count = ground arith

  -- `db_add_table`, whatever it is given and returns.
  pub add_table-DatabaseIsValid :
      (name : Option Bytes) (field_names : Option (ℕ → Bytes)) (types : Option (ℕ → FieldType))
      (field_count : ℤ)
      → DatabaseIsValid (db_add_table env db name field_names types field_count).1
  add_table-DatabaseIsValid none field_names types field_count = unfold db_add_table in v
  add_table-DatabaseIsValid (some name) none types field_count = unfold db_add_table in v
  add_table-DatabaseIsValid (some name) (some field_names) none field_count =
      unfold db_add_table in v
  add_table-DatabaseIsValid (some name) (some field_names) (some types) field_count =
      let r : ErrorCode × Database =
        db_add_table env db (some name) (some field_names) (some types) field_count in
      let (least, most, more) = add_table_capacity name field_names types field_count in
      let (active, level, same) = add_table_level name field_names types field_count in
      elim (Bool-cases (is_success r.0)) [
        | inl done ↦
            let h : r.0 ≡ success = code_success _ done in
            let t : Table = added_table env name field_names types field_count in
            let tables : r.1.tables ≡ db.tables ++ t ∷ [] =
              (add_table_appends env db name field_names types field_count h).0 in
            record {
              tables = rw tables (
                  All-append TableIsOk db.tables (t ∷ []) v.tables
                    (new_table-TableIsOk name field_names types field_count, tt));
              fits =
                  omega (
                    arith,
                    more h,
                    length-append db.tables (t ∷ []),
                    ap (length {A = Table}) tables,
                  );
              bounded = most;
              level = LevelIsValid-same active level v.level;
            }
        | inr failed ↦
            let tables : r.1.tables ≡ db.tables = same (λ e. cc) in
            record {
              tables = rw tables v.tables;
              fits = omega (arith, v.fits, least, ap (length {A = Table}) tables);
              bounded = most;
              level = LevelIsValid-same active level v.level;
            }
      ]
