-- ===== src/Database/Invariant.antt =====
-- The well-formedness of a database, which every operation keeps.
use luminix_experience_platf.Database.Transactions.Laws.{LevelIsValid}
use luminix_experience_platf.Table.Writes.{FirstKeyOnly}
use luminix_experience_platf.Table.Invariant.{IsValid}
use luminix_experience_platf.Schema.{
  max_indexes_per_table, index_count, max_table_name_chars, max_tables, table_count, Table,
  Database,
}
use luminix_experience_platf.Base.{length, All, ◌≤◌}

-- a table is well formed, its first column alone is its primary key, and it keeps within the limits
pub record TableIsOk (t : Table) : Type 0 where
  pub valid : IsValid t
  pub first_key : FirstKeyOnly t.columns
  pub name_fits : length t.name ≤ max_table_name_chars
  pub few_indexes : index_count t.index_manager ≤ max_indexes_per_table

pub record DatabaseIsValid (db : Database) : Type 0 where
  pub tables : All TableIsOk db.tables
  pub fits : table_count db ≤ db.table_capacity
  pub bounded : db.table_capacity ≤ max_tables
  pub level : LevelIsValid db
