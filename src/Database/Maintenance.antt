-- ===== src/Database/Maintenance.antt =====
-- Queries, statistics, maintenance and the utility functions of src/database.c. The cache and the
-- query functions are stubs in the code: the cache always misses and every result is empty.
pub mod Laws
use luminix_experience_platf.Database.Tables.{names_granted, db_get_table}
use luminix_experience_platf.Schema.{
  stat_vacuum_operations, zero_statistics, stat_optimization_operations, stat_cache_misses,
  zero_table_statistics, success, stat_queries_executed, stat_cache_hits, update_simple_statistics,
  table_count, TableStatistics, FieldType, ErrorCode, DatabaseStatistics, Table, Env, Database,
  Cache,
}
use luminix_experience_platf.Base.{
  map, ◌==◌, is_some, Bytes, ℕ, zero, suc, ◌+◌, ◌-◌, ◌≤◌, ◌<◌, ℤ, pos, negsuc, Bool, true, false,
  not, ◌&&◌, ◌||◌, List, [], ◌∷◌, ◌++◌, Option, none, some, ◌≡◌, ◌≢◌, ◌↔◌, refl, arith,
  if◌then◌else◌, inl, inr,
}

-- enum QueryType
pub data QueryType : Type 0 where
  query_select query_insert query_update query_delete query_create_table query_drop_table :
      QueryType
  query_create_index query_drop_index : QueryType

pub record ParsedQuery : Type 0 where
  pub type : QueryType
  pub table_name : Option Bytes
  pub field_name : Option Bytes
  pub condition : Option Bytes
  pub int_value : ℤ
  pub string_value : Option Bytes

-- the rows are NULL or a list of texts
pub record QueryResult : Type 0 where
  pub row_count : ℕ
  pub column_count : ℕ
  pub column_names : Option (List Bytes)
  pub column_types : Option (List FieldType)
  pub rows : Option (List Bytes)

unfoldable pub cache_get_simple : Cache → Bytes → Option QueryResult
cache_get_simple cache query = none

unfoldable pub cache_put_simple : Cache → Bytes → QueryResult → Cache
cache_put_simple cache query result = cache

unfoldable pub cache_clear_simple : Cache → Cache
cache_clear_simple cache = cache

unfoldable pub parse_simple_query : Bool → Bytes → Option ParsedQuery
parse_simple_query granted query =
    if granted
    then some (record {
      type = query_select;
      table_name = none;
      field_name = none;
      condition = none;
      int_value = pos 0;
      string_value = none;
    })
    else none

unfoldable pub execute_simple_query : Bool → Database → ParsedQuery → Option QueryResult
execute_simple_query granted db parsed =
    if granted
    then some (record {
      row_count = 0;
      column_count = 0;
      column_names = none;
      column_types = none;
      rows = none;
    })
    else none

unfoldable pub clone_simple_query_result : Bool → Option QueryResult → Option QueryResult
clone_simple_query_result granted none = none
clone_simple_query_result granted (some result) = if granted then some result else none

abbrev pub is_select : QueryType → Bool
is_select query_select = true
is_select _ = false

-- the copy of a result goes into the cache if there is one and the query is a SELECT
unfoldable pub cache_result :
    Bool → Option Cache → ParsedQuery → Bytes → Option QueryResult → Option Cache
unfolding cache_put_simple clone_simple_query_result
cache_result granted none parsed query result = none
cache_result granted (some cache) parsed query result =
    if is_some result && is_select parsed.type
    then elim (clone_simple_query_result granted result) [
      | none ↦ some cache
      | some copy ↦ some (cache_put_simple cache query copy)
    ]
    else some cache

-- What follows a miss, or no cache. Allocation 0 is the parsed query, 1 the result, 2 its copy.
unfoldable pub run_query : Env → Database → Bytes → Option QueryResult × Database
unfolding parse_simple_query execute_simple_query cache_result
run_query env db query = elim (parse_simple_query (env.alloc 0) query) [
  | none ↦ (none, db)
  | some parsed ↦
      let result : Option QueryResult = execute_simple_query (env.alloc 1) db parsed in
      (
        result,
        record db {
          cache = cache_result (env.alloc 2) db.cache parsed query result;
          statistics = update_simple_statistics db.statistics stat_queries_executed 1;
        },
      )
]

unfoldable pub db_execute_query : Env → Database → Option Bytes → Option QueryResult × Database
unfolding cache_get_simple clone_simple_query_result run_query
db_execute_query env db none = (none, db)
db_execute_query env db (some query) = elim db.cache [
  | none ↦ run_query env db query
  | some cache ↦ elim (cache_get_simple cache query) [
    | some cached ↦ (
      clone_simple_query_result (env.alloc 0) (some cached),
      record db { statistics = update_simple_statistics db.statistics stat_cache_hits 1 },
    )
    | none ↦
        run_query env
          (record db { statistics = update_simple_statistics db.statistics stat_cache_misses 1 })
          query
  ]
]

abbrev pub db_get_statistics : Database → Option DatabaseStatistics
db_get_statistics db = db.statistics

unfoldable pub db_get_table_statistics : Database → Option Bytes → Option TableStatistics
db_get_table_statistics db none = none
db_get_table_statistics db (some table_name) = elim (db_get_table db (some table_name)) [
  | none ↦ none
  | some t ↦ t.statistics
]

unfoldable pub reset_table : Table → Table
reset_table t = record t {
  statistics = if is_some t.statistics then some zero_table_statistics else none;
}

unfoldable pub db_reset_statistics : Database → ErrorCode × Database
unfolding reset_table
db_reset_statistics db = (
  success,
  record db {
    statistics = if is_some db.statistics then some zero_statistics else none;
    tables = map reset_table db.tables;
  },
)

-- its loop over the indexes is empty
unfoldable pub db_vacuum : Database → ErrorCode × Database
unfolding cache_clear_simple
db_vacuum db = (
  success,
  record db {
    cache = elim db.cache [ none ↦ none | some cache ↦ some (cache_clear_simple cache) ];
    statistics = update_simple_statistics db.statistics stat_vacuum_operations 1;
  },
)

unfoldable pub db_optimize : Database → ErrorCode × Database
db_optimize db = (
  success,
  record db { statistics = update_simple_statistics db.statistics stat_optimization_operations 1 },
)

abbrev pub db_get_table_count : Option Database → ℕ
db_get_table_count none = 0
db_get_table_count (some db) = table_count db

unfoldable pub db_get_record_count : Database → Option Bytes → ℕ
db_get_record_count db none = 0
db_get_record_count db (some table_name) = elim (db_get_table db (some table_name)) [
  | none ↦ 0
  | some t ↦ t.record_count
]

-- The names, or none for NULL, and what is stored through `out_count`. Allocation 0 is the array,
-- the names follow.
unfoldable pub db_list_tables : Env → Database → Bool → Option (List Bytes) × Option ℕ
db_list_tables env db false = (none, none)
db_list_tables env db true =
    if table_count db == 0
    then (none, some 0)
    else if env.alloc 0 && names_granted env (table_count db) 1
    then (some (map (λ (t : Table). t.name) db.tables), some (table_count db))
    else (none, some 0)
