-- ===== src/Database/Maintenance/Laws.antt =====
-- Laws of the queries and the maintenance functions of src/database.c, and the well-formed database.
use luminix_experience_platf.Database.Records.Valid.{LevelIsValid-same}
use luminix_experience_platf.Database.Invariant.{TableIsOk, DatabaseIsValid}
use luminix_experience_platf.Schema.{
  zero_table_statistics, zero_statistics, success, table_count, ErrorCode, Record, Env, Table,
  Database,
}
use luminix_experience_platf.Database.Tables.{db_get_table, names_granted, find_table}
use luminix_experience_platf.Database.Maintenance.{
  QueryResult, execute_simple_query, db_get_statistics, parse_simple_query, run_query,
  db_get_table_count, cache_get_simple, db_vacuum, db_optimize, db_list_tables,
  db_get_table_statistics, db_execute_query, reset_table, db_reset_statistics,
}
use luminix_experience_platf.Base.{
  ◌==◌, Option-cases, is_some, length, length-map, ap, Bytes, map, All, ℕ, zero, suc, ◌+◌, true,
  List, [], ◌∷◌, Option, none, some, ◌≡◌, refl, arith, if◌then◌else◌, inl, inr,
}

abbrev pub result_rows : Option QueryResult → ℕ
result_rows none = 0
result_rows (some result) = result.row_count

-- the records of each table, in order
abbrev pub contents : Database → List (List Record)
contents db = map (λ (t : Table). t.records) db.tables

contents_reset :
    (ts : List Table)
    → map (λ (t : Table). t.records) (map reset_table ts) ≡ map (λ (t : Table). t.records) ts
unfolding reset_table
contents_reset [] = refl
contents_reset (t ∷ ts) = ap (λ rest. t.records ∷ rest) (contents_reset ts)

get_reset :
    (ts : List Table) (name : Bytes)
    → find_table (map reset_table ts) name
      ≡ elim (find_table ts name) [ none ↦ none | some t ↦ some (reset_table t) ]
unfolding find_table reset_table
get_reset [] name = refl
get_reset (t ∷ ts) name = ground (arith, get_reset ts name)

-- `db_reset_statistics` returns SUCCESS, keeps all records, and sets to zero the statistics of the
-- database, if it has any, and those of every table that is found by its name.
pub reset_statistics_lem :
    (db : Database) (name : Bytes)
    → let r : ErrorCode × Database = db_reset_statistics db in
      (r.0 ≡ success)
      × (contents r.1 ≡ contents db)
      × (db_get_statistics r.1
          ≡ (if is_some (db_get_statistics db) then some zero_statistics else none))
      × (db_get_table_statistics r.1 (some name) ≡ (
          if is_some (db_get_table_statistics db (some name))
          then some zero_table_statistics
          else none))
unfolding db_reset_statistics db_get_table_statistics db_get_table reset_table
reset_statistics_lem db name = (
  refl,
  contents_reset db.tables,
  refl,
  elim (Option-cases (find_table db.tables name)) [
    | inl missing ↦ ground (arith, get_reset db.tables name)
    | inr (t, found) ↦ ground (arith, get_reset db.tables name)
  ],
)

reset-TableIsOk : (t : Table) → TableIsOk t → TableIsOk (reset_table t)
unfolding reset_table
reset-TableIsOk t ok = record {
  valid = record {
    counted = ok.valid.counted;
    bounded = ok.valid.bounded;
    distinct = ok.valid.distinct;
    shaped = ok.valid.shaped;
    indexes_fit = ok.valid.indexes_fit;
  };
  first_key = ok.first_key;
  name_fits = ok.name_fits;
  few_indexes = ok.few_indexes;
}

reset-All : (ts : List Table) → All TableIsOk ts → All TableIsOk (map reset_table ts)
reset-All [] h = tt
reset-All (t ∷ ts) h = (reset-TableIsOk t h.0, reset-All ts h.1)

-- a database that differs in the statistics and the cache alone
same_data-DatabaseIsValid :
    {db db' : Database}
    → db'.tables ≡ db.tables
    → db'.table_capacity ≡ db.table_capacity
    → db'.transaction_active ≡ db.transaction_active
    → db'.transaction_level ≡ db.transaction_level
    → DatabaseIsValid db
    → DatabaseIsValid db'
same_data-DatabaseIsValid {db} {db'} tables capacity active level v = record {
  tables = rw tables v.tables;
  fits = omega (arith, v.fits, ap (length {A = Table}) tables);
  bounded = omega (arith, v.bounded);
  level = LevelIsValid-same active level v.level;
}

all_granted :
    (env : Env) → ((k : ℕ) → env.alloc k ≡ true) → (n k : ℕ) → names_granted env n k ≡ true
unfolding names_granted
all_granted env granted zero k = refl
all_granted env granted (suc n) k = ground (arith, granted k, all_granted env granted n (k + 1))

module _ (db : Database) where
  -- `db_execute_query` changes the statistics and the cache alone: the tables, the capacity and the
  -- transaction stay as they are, and a result that it returns is empty.
  pub execute_query_lem :
      (env : Env) (query : Option Bytes)
      → let r : Option QueryResult × Database = db_execute_query env db query in
        (r.1.tables ≡ db.tables)
        × (r.1.table_capacity ≡ db.table_capacity)
        × (r.1.transaction_active ≡ db.transaction_active)
        × (r.1.transaction_level ≡ db.transaction_level)
        × (result_rows r.0 ≡ 0)
  unfolding db_execute_query cache_get_simple run_query parse_simple_query execute_simple_query
  execute_query_lem env none = (refl, refl, refl, refl, refl)
  execute_query_lem env (some query) = ground arith

  pub execute_query-DatabaseIsValid :
      (env : Env) (query : Option Bytes)
      → DatabaseIsValid db
      → DatabaseIsValid (db_execute_query env db query).1
  execute_query-DatabaseIsValid env query v =
      let (tables, capacity, active, level, _) = execute_query_lem env query in
      same_data-DatabaseIsValid tables capacity active level v

  pub vacuum-DatabaseIsValid : DatabaseIsValid db → DatabaseIsValid (db_vacuum db).1
  unfolding db_vacuum
  vacuum-DatabaseIsValid v = same_data-DatabaseIsValid refl refl refl refl v

  pub optimize-DatabaseIsValid : DatabaseIsValid db → DatabaseIsValid (db_optimize db).1
  unfolding db_optimize
  optimize-DatabaseIsValid v = same_data-DatabaseIsValid refl refl refl refl v

  pub reset-DatabaseIsValid : DatabaseIsValid db → DatabaseIsValid (db_reset_statistics db).1
  unfolding db_reset_statistics
  reset-DatabaseIsValid v = record {
    tables = reset-All db.tables v.tables;
    fits = omega (arith, v.fits, length-map reset_table db.tables);
    bounded = v.bounded;
    level = LevelIsValid-same {db = db} refl refl v.level;
  }

  -- If memory is granted and there is somewhere to put the number, `db_list_tables` stores the
  -- number of tables and returns their names in order, or NULL if there are none.
  pub list_tables_lem :
      (env : Env)
      → ((k : ℕ) → env.alloc k ≡ true)
      → (db_list_tables env db true).1 ≡ some (db_get_table_count (some db))
        × ((db_list_tables env db true).0
            ≡ (if table_count db == 0 then none else some (map (λ (t : Table). t.name) db.tables)))
  unfolding db_list_tables
  list_tables_lem env granted =
      ground (arith, granted 0, all_granted env granted (table_count db) 1)
