-- ===== src/Database/IndexOps.antt =====
-- Creating and dropping an index, in src/database.c.
pub mod Laws
pub mod Valid
use luminix_experience_platf.Indexes.{
  add_index_to_manager, create_simple_index, index_insert_simple, find_index_in_manager,
  remove_index_from_manager, field_position,
}
use luminix_experience_platf.Database.Tables.{put_table, db_get_table}
use luminix_experience_platf.Schema.{
  stat_indexes_created, success, error_memory_allocation, error_table_full, index_count,
  max_indexes_per_table, error_invalid_input, stat_indexes_dropped, update_simple_statistics,
  error_index_exists, is_success, type_int, field_type_eq, no_field, error_not_found, IndexType,
  Field, ErrorCode, Index, Record, Env, Database,
}
use luminix_experience_platf.Base.{
  leb, eqb_ℤ, is_some, get_or, Bytes, ℕ, zero, suc, ◌+◌, ◌-◌, ◌≤◌, ◌<◌, ℤ, pos, negsuc, Bool, true,
  false, not, ◌&&◌, ◌||◌, List, [], ◌∷◌, ◌++◌, Option, none, some, ◌≡◌, ◌≢◌, ◌↔◌, refl, arith,
  if◌then◌else◌, inl, inr,
}

-- the loop that fills a new index with the records that have an `int` key other than 0
unfoldable pub fill_index : List Record → ℕ → Index → Index
fill_index [] field_idx index = index
fill_index (r ∷ rest) field_idx index =
    let field : Field = get_or r.fields field_idx no_field in
    let keyed : Bool =
      field_type_eq field.type type_int && not (eqb_ℤ field.value.int_value (pos 0)) in
    fill_index rest field_idx
      (if keyed then (index_insert_simple index field.value.int_value r).1 else index)

-- Allocation 0 is the index, 1 the resize of the array.
unfoldable pub db_create_index :
    Env → Database → Option Bytes → Option Bytes → IndexType → ErrorCode × Database
unfolding fill_index
db_create_index env db (some table_name) (some field_name) type =
    elim (db_get_table db (some table_name)) [
      | none ↦ (error_not_found, db)
      | some t ↦ elim (field_position t.columns field_name 0) [
        | none ↦ (error_not_found, db)
        | some field_idx ↦
            if is_some (find_index_in_manager t.index_manager table_name field_name)
            then (error_index_exists, db)
            else if leb max_indexes_per_table (index_count t.index_manager)
            then (error_table_full, db)
            else elim (create_simple_index (env.alloc 0) table_name field_name type) [
              | none ↦ (error_memory_allocation, db)
              | some index ↦
                  let (code, manager) =
                    add_index_to_manager (env.alloc 1) t.index_manager
                      (fill_index t.records field_idx index) in
                  if not (is_success code) then (code, db) else (
                    success,
                    record db {
                      tables =
                          put_table db.tables table_name (record t { index_manager = manager });
                      statistics = update_simple_statistics db.statistics stat_indexes_created 1;
                    },
                  )
            ]
      ]
    ]
db_create_index env db _ _ type = (error_invalid_input, db)

unfoldable pub db_drop_index : Database → Option Bytes → Option Bytes → ErrorCode × Database
db_drop_index db (some table_name) (some field_name) = elim (db_get_table db (some table_name)) [
  | none ↦ (error_not_found, db)
  | some t ↦
      let (code, manager) = remove_index_from_manager t.index_manager table_name field_name in
      let db' : Database = record db {
        tables = put_table db.tables table_name (record t { index_manager = manager });
      } in
      if is_success code
      then (
        code,
        record db' { statistics = update_simple_statistics db.statistics stat_indexes_dropped 1 },
      )
      else (code, db')
]
db_drop_index db _ _ = (error_invalid_input, db)
