-- ===== src/Database/Tables.antt =====
-- Creation of a database, and its tables, in src/database.c.
pub mod Laws
pub mod Valid
use luminix_experience_platf.Base.{
  ℕ, zero, suc, ◌+◌, ◌*◌, ℤ, pos, pos_part, Bytes, str_eq, Bool, true, false, not, ◌&&◌, ◌||◌, List,
  [], ◌∷◌, ◌++◌, map, Option, none, some, ◌==◌, leb, ltb, ltb_ℤ, if◌then◌else◌, take, is_some,
}
use luminix_experience_platf.Schema.{
  max_fields_per_table, ErrorCode, success, error_duplicate_key, error_memory_allocation,
  error_table_full, error_invalid_input, FieldType, Column, IndexManager, Table, Cache, Database,
  Env, table_count, max_tables, initial_capacity, max_table_name_chars, stat_tables_created,
  zero_statistics, zero_table_statistics, update_simple_statistics, TableStatistics,
  DatabaseStatistics,
}
use luminix_experience_platf.Indexes.{create_simple_index_manager}

-- CACHE_LRU and QUERY_CACHE_SIZE
create_simple_cache : Bool → ℕ → ℕ → Option Cache
create_simple_cache granted policy size =
    if granted then some (record { policy = policy; size = size }) else none

create_simple_statistics : Bool → Option DatabaseStatistics
create_simple_statistics granted = if granted then some zero_statistics else none

create_simple_table_statistics : Bool → Option TableStatistics
create_simple_table_statistics granted = if granted then some zero_table_statistics else none

-- The parts that are not granted stay NULL: the code tests only the database itself. The start
-- time is 0 at the end.
unfoldable pub db_create : Env → Option Database
unfolding create_simple_cache create_simple_statistics create_simple_index_manager
db_create env =
    if not (env.alloc 0)
    then none
    else some (record {
      tables = [];
      table_capacity = 0;
      index_manager = create_simple_index_manager (env.alloc 1);
      transaction_active = false;
      transaction_level = 0;
      cache = create_simple_cache (env.alloc 2) 0 100;
      statistics = create_simple_statistics (env.alloc 3);
      transaction_start_time = 0;
    })

-- the first table of that name
unfoldable pub find_table : List Table → Bytes → Option Table
find_table [] name = none
find_table (t ∷ ts) name = if str_eq t.name name then some t else find_table ts name

unfoldable pub db_get_table : Database → Option Bytes → Option Table
unfolding find_table
db_get_table db none = none
db_get_table db (some table_name) = find_table db.tables table_name

-- Writes through the pointer that `db_get_table` returned: the first table of that name is now `u`.
unfoldable pub put_table : List Table → Bytes → Table → List Table
put_table [] name u = []
put_table (t ∷ ts) name u = if str_eq t.name name then u ∷ ts else t ∷ put_table ts name u

-- whether each `strdup` of a field name is granted, from allocation `k` on
unfoldable pub names_granted : Env → ℕ → ℕ → Bool
names_granted env zero k = true
names_granted env (suc n) k = env.alloc k && names_granted env n (k + 1)

-- the columns from number `i` on, `n` of them, with the default constraints
unfoldable pub make_columns : (ℕ → Bytes) → (ℕ → FieldType) → ℕ → ℕ → List Column
make_columns field_names types zero i = []
make_columns field_names types (suc n) i =
    record {
      name = field_names i;
      type = types i;
      constraint = record {
        nullable = true;
        unique = false;
        primary_key = i == 0;
        foreign_key = false;
      };
    }
    ∷ make_columns field_names types n (i + 1)

-- doubled, or 4 at first, and cut at MAX_TABLES
abbrev pub grown_capacity : ℕ → ℕ
grown_capacity capacity =
    let doubled : ℕ = if capacity == 0 then 4 else capacity * 2 in
    if ltb max_tables doubled then max_tables else doubled

unfoldable pub new_table : Env → Bytes → List Column → IndexManager → Table
unfolding create_simple_table_statistics
new_table env name columns index_manager = record {
  name = take max_table_name_chars name;
  columns = columns;
  records = [];
  record_count = 0;
  capacity = initial_capacity;
  next_record_id = pos 1;
  index_manager = index_manager;
  statistics = create_simple_table_statistics (env.alloc 1);
}

-- What follows the resize of the table array: allocations 2 to 4 for the arrays of the columns, 5
-- for the index manager, 6 and on for the names.
unfoldable pub append_table :
    Env → Database → Bytes → (ℕ → Bytes) → (ℕ → FieldType) → ℕ → ErrorCode × Database
unfolding names_granted make_columns new_table create_simple_index_manager
append_table env db name field_names types field_count =
    if not (env.alloc 2) || not (env.alloc 3) || not (env.alloc 4)
    then (error_memory_allocation, db)
    else elim (create_simple_index_manager (env.alloc 5)) [
      | none ↦ (error_memory_allocation, db)
      | some manager ↦
          if not (names_granted env field_count 6) then (error_memory_allocation, db) else (
            success,
            record db {
              tables =
                  db.tables
                  ++ new_table env name (make_columns field_names types field_count 0) manager ∷ [];
              statistics = update_simple_statistics db.statistics stat_tables_created 1;
            },
          )
    ]

-- Allocation 0 is the resize of the table array. Its new capacity stays when a later step fails.
unfoldable pub db_add_table :
    Env
    → Database
    → Option Bytes
    → Option (ℕ → Bytes)
    → Option (ℕ → FieldType)
    → ℤ
    → ErrorCode × Database
unfolding append_table find_table
db_add_table env db (some name) (some field_names) (some types) field_count =
    if ltb_ℤ field_count (pos 1) || ltb_ℤ (pos max_fields_per_table) field_count
    then (error_invalid_input, db)
    else if is_some (find_table db.tables name)
    then (error_duplicate_key, db)
    else if leb max_tables (table_count db)
    then (error_table_full, db)
    else if leb db.table_capacity (table_count db)
    then (if not (env.alloc 0)
        then (error_memory_allocation, db)
        else append_table env (record db { table_capacity = grown_capacity db.table_capacity }) name
            field_names types (pos_part field_count))
    else append_table env db name field_names types (pos_part field_count)
db_add_table env db _ _ _ field_count = (error_invalid_input, db)
