-- ===== src/Schema/Stats.antt =====
-- The statistics of src/database.h and their updates in src/database.c. The counters are `long long`
-- and only grow; they are numbers without a bound here.
use luminix_experience_platf.Base.{ℕ, ◌+◌, Option, none, some}

pub data StatType : Type 0 where
  stat_tables_created : StatType
  stat_records_inserted : StatType
  stat_records_updated : StatType
  stat_records_deleted : StatType
  stat_queries_executed : StatType
  stat_cache_hits : StatType
  stat_cache_misses : StatType
  stat_transactions_started : StatType
  stat_transactions_committed : StatType
  stat_transactions_rolled_back : StatType
  stat_indexes_created : StatType
  stat_indexes_dropped : StatType
  stat_vacuum_operations : StatType
  stat_optimization_operations : StatType

pub record TableStatistics : Type 0 where
  pub records_inserted : ℕ
  pub records_updated : ℕ
  pub records_deleted : ℕ
  pub index_scans : ℕ
  pub sequential_scans : ℕ
  pub total_size_bytes : ℕ

pub record DatabaseStatistics : Type 0 where
  pub tables_created : ℕ
  pub records_inserted : ℕ
  pub records_updated : ℕ
  pub records_deleted : ℕ
  pub queries_executed : ℕ
  pub cache_hits : ℕ
  pub cache_misses : ℕ
  pub transactions_started : ℕ
  pub transactions_committed : ℕ
  pub transactions_rolled_back : ℕ
  pub indexes_created : ℕ
  pub indexes_dropped : ℕ
  pub vacuum_operations : ℕ
  pub optimization_operations : ℕ
  pub total_query_time : ℕ
  pub memory_used : ℕ
  pub peak_memory_used : ℕ
  pub cache_memory_used : ℕ
  pub deadlocks_detected : ℕ
  pub backup_operations : ℕ

-- `memset(stats, 0, sizeof(TableStatistics))`
abbrev pub zero_table_statistics : TableStatistics
zero_table_statistics = record {
  records_inserted = 0;
  records_updated = 0;
  records_deleted = 0;
  index_scans = 0;
  sequential_scans = 0;
  total_size_bytes = 0;
}

-- `memset(stats, 0, sizeof(DatabaseStatistics))`
abbrev pub zero_statistics : DatabaseStatistics
zero_statistics = record {
  tables_created = 0;
  records_inserted = 0;
  records_updated = 0;
  records_deleted = 0;
  queries_executed = 0;
  cache_hits = 0;
  cache_misses = 0;
  transactions_started = 0;
  transactions_committed = 0;
  transactions_rolled_back = 0;
  indexes_created = 0;
  indexes_dropped = 0;
  vacuum_operations = 0;
  optimization_operations = 0;
  total_query_time = 0;
  memory_used = 0;
  peak_memory_used = 0;
  cache_memory_used = 0;
  deadlocks_detected = 0;
  backup_operations = 0;
}

add_to : DatabaseStatistics → StatType → ℕ → DatabaseStatistics
add_to s stat_tables_created value = record s { tables_created = s.tables_created + value }
add_to s stat_records_inserted value = record s { records_inserted = s.records_inserted + value }
add_to s stat_records_updated value = record s { records_updated = s.records_updated + value }
add_to s stat_records_deleted value = record s { records_deleted = s.records_deleted + value }
add_to s stat_queries_executed value = record s { queries_executed = s.queries_executed + value }
add_to s stat_cache_hits value = record s { cache_hits = s.cache_hits + value }
add_to s stat_cache_misses value = record s { cache_misses = s.cache_misses + value }
add_to s stat_transactions_started value = record s {
  transactions_started = s.transactions_started + value;
}
add_to s stat_transactions_committed value = record s {
  transactions_committed = s.transactions_committed + value;
}
add_to s stat_transactions_rolled_back value = record s {
  transactions_rolled_back = s.transactions_rolled_back + value;
}
add_to s stat_indexes_created value = record s { indexes_created = s.indexes_created + value }
add_to s stat_indexes_dropped value = record s { indexes_dropped = s.indexes_dropped + value }
add_to s stat_vacuum_operations value = record s { vacuum_operations = s.vacuum_operations + value }
add_to s stat_optimization_operations value = record s {
  optimization_operations = s.optimization_operations + value;
}

unfoldable pub update_simple_statistics :
    Option DatabaseStatistics → StatType → ℕ → Option DatabaseStatistics
unfolding add_to
update_simple_statistics none stat_type value = none
update_simple_statistics (some s) stat_type value = some (add_to s stat_type value)

add_to_table : TableStatistics → StatType → ℕ → TableStatistics
add_to_table s stat_records_inserted value = record s {
  records_inserted = s.records_inserted + value;
}
add_to_table s stat_records_updated value = record s { records_updated = s.records_updated + value }
add_to_table s stat_records_deleted value = record s { records_deleted = s.records_deleted + value }
add_to_table s _ value = s

unfoldable pub update_simple_table_statistics :
    Option TableStatistics → StatType → ℕ → Option TableStatistics
unfolding add_to_table
update_simple_table_statistics none stat_type value = none
update_simple_table_statistics (some s) stat_type value = some (add_to_table s stat_type value)
