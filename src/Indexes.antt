-- ===== src/Indexes.antt =====
-- The index manager of a table, in src/database.c: the array of indexes, and the operations on an
-- index, which keep no data yet. The laws are in the module below.
pub mod Laws
use luminix_experience_platf.Base.{
  ℕ, suc, ◌+◌, ◌*◌, ℤ, pos, Bytes, str_eq, Bool, true, false, not, ◌&&◌, ◌||◌, List, [], ◌∷◌, ◌++◌,
  map, Option, none, some, ◌==◌, leb, if◌then◌else◌, eqb_ℤ, minus_one, length, get_or, take,
}
use luminix_experience_platf.Schema.{
  ErrorCode, success, error_not_found, error_memory_allocation, type_int, field_type_eq, IndexType,
  Field, Column, Record, Index, IndexManager, no_field, index_count, is_success, float_eq,
  type_string, type_float, max_table_name_chars, max_field_chars,
}

-- `granted` is the answer of malloc
unfoldable pub create_simple_index_manager : Bool → Option IndexManager
create_simple_index_manager granted =
    if granted then some (record { indexes = []; capacity = 0 }) else none

-- both names compared, as the scans of the manager do
abbrev pub is_index_of : Bytes → Bytes → Index → Bool
is_index_of table_name field_name idx =
    str_eq idx.table_name table_name && str_eq idx.field_name field_name

unfoldable pub find_index : List Index → Bytes → Bytes → Option Index
find_index [] table_name field_name = none
find_index (idx ∷ rest) table_name field_name =
    if is_index_of table_name field_name idx
    then some idx
    else find_index rest table_name field_name

unfoldable pub find_index_in_manager : IndexManager → Bytes → Bytes → Option Index
unfolding find_index
find_index_in_manager manager = find_index manager.indexes

-- `granted` is the answer of realloc, which is asked only if the array is full
unfoldable pub add_index_to_manager : Bool → IndexManager → Index → ErrorCode × IndexManager
add_index_to_manager granted manager index =
    if leb manager.capacity (index_count manager)
    then (if granted
        then (
          success,
          record {
            indexes = manager.indexes ++ index ∷ [];
            capacity = if manager.capacity == 0 then 4 else manager.capacity * 2;
          },
        )
        else (error_memory_allocation, manager))
    else (success, record manager { indexes = manager.indexes ++ index ∷ [] })

-- drops the first index of that field and shifts the others down
unfoldable pub remove_index : List Index → Bytes → Bytes → List Index
remove_index [] table_name field_name = []
remove_index (idx ∷ rest) table_name field_name =
    if is_index_of table_name field_name idx
    then rest
    else idx ∷ remove_index rest table_name field_name

unfoldable pub remove_index_from_manager : IndexManager → Bytes → Bytes → ErrorCode × IndexManager
unfolding remove_index
remove_index_from_manager manager table_name field_name =
    elim (find_index manager.indexes table_name field_name) [
      | none ↦ (error_not_found, manager)
      | some idx ↦
          (success, record manager { indexes = remove_index manager.indexes table_name field_name })
    ]

-- `strncpy` into the arrays of the struct cuts both names
unfoldable pub create_simple_index : Bool → Bytes → Bytes → IndexType → Option Index
create_simple_index granted table_name field_name type =
    if granted
    then some (record {
      table_name = take max_table_name_chars table_name;
      field_name = take max_field_chars field_name;
      type = type;
    })
    else none

unfoldable pub index_search_simple : Index → ℤ → Option Record
index_search_simple index key = none

unfoldable pub index_insert_simple : Index → ℤ → Record → ErrorCode × Index
index_insert_simple index key r = (success, index)

unfoldable pub index_delete_simple : Index → ℤ → ErrorCode × Index
index_delete_simple index key = (success, index)

unfoldable pub index_update_simple : Index → ℤ → ℤ → Record → ErrorCode × Index
unfolding index_delete_simple index_insert_simple
index_update_simple index old_key new_key r =
    let (err, index') = index_delete_simple index old_key in
    if is_success err then index_insert_simple index' new_key r else (err, index')

-- The scan for a field name that several functions repeat: its number, counted from `i`, or none
-- where the code has -1.
unfoldable pub field_position : List Column → Bytes → ℕ → Option ℕ
field_position [] field_name i = none
field_position (c ∷ cs) field_name i =
    if str_eq c.name field_name then some i else field_position cs field_name (i + 1)

-- one round of `update_indexes_for_record`: only an `int` field gives a key
unfoldable pub update_index : List Column → Record → ℤ → Index → Index
update_index columns r old_id index = elim (field_position columns index.field_name 0) [
  | none ↦ index
  | some field_idx ↦
      let field : Field = get_or r.fields field_idx no_field in
      if field_type_eq field.type type_int
      then (if not (eqb_ℤ old_id minus_one)
          then (index_update_simple index old_id field.value.int_value r).1
          else (index_insert_simple index field.value.int_value r).1)
      else index
]

unfoldable pub update_indexes_for_record : List Column → IndexManager → Record → ℤ → IndexManager
unfolding update_index
update_indexes_for_record columns manager r old_id = record manager {
  indexes = map (update_index columns r old_id) manager.indexes;
}

unfoldable pub remove_indexes_for_record : IndexManager → ℤ → IndexManager
remove_indexes_for_record manager record_id = record manager {
  indexes = map (λ index. (index_delete_simple index record_id).1) manager.indexes;
}

-- whether the indexed field changed, as `table_update_record` decides it
unfoldable pub field_changed : Field → Field → Bool
field_changed old new =
    if field_type_eq old.type type_int
    then not (eqb_ℤ old.value.int_value new.value.int_value)
    else if field_type_eq old.type type_string
    then not (str_eq old.value.string_value new.value.string_value)
    else if field_type_eq old.type type_float
    then not (float_eq old.value.float_value new.value.float_value)
    else true

-- one round of the index loop of `table_update_record`
unfoldable pub reindex : List Column → List Field → Record → Index → Index
unfolding field_changed
reindex columns old_values r index = elim (field_position columns index.field_name 0) [
  | none ↦ index
  | some field_idx ↦
      let old_field : Field = get_or old_values field_idx no_field in
      let new_field : Field = get_or r.fields field_idx no_field in
      let keyed : Bool = field_type_eq old_field.type type_int in
      let old_key : ℤ = if keyed then old_field.value.int_value else pos 0 in
      let new_key : ℤ = if keyed then new_field.value.int_value else pos 0 in
      if field_changed old_field new_field
        && (not (eqb_ℤ old_key (pos 0)) || not (eqb_ℤ new_key (pos 0)))
      then (index_update_simple index old_key new_key r).1
      else index
]

unfoldable pub reindex_record : List Column → IndexManager → List Field → Record → IndexManager
unfolding reindex
reindex_record columns manager old_values r = record manager {
  indexes = map (reindex columns old_values r) manager.indexes;
}
