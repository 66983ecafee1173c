-- ===== src/Table.antt =====
-- The operations on one table, in src/database.c. `Env.alloc k` answers the allocation numbered k
-- of the call, in the order of the code. A pointer argument is an Option where the code tests it
-- for NULL; a `Field*` array is a function from its index. The proofs are in the modules below.
pub mod Find
pub mod Invariant
pub mod Insert
pub mod Writes
pub mod Clashes
pub mod Accepts
pub mod Update
pub mod Delete
pub mod Frame
use luminix_experience_platf.Base.{
  ℕ, ◌+◌, ◌-◌, ℤ, pos, codes, str_eq, Bool, true, false, not, ◌&&◌, ◌||◌, List, [], ◌∷◌, Option,
  none, some, leb, ltb, if◌then◌else◌, eqb_ℤ, ltb_ℤ, minus_one, succ_int, length, get_or, take,
  is_some,
}
use luminix_experience_platf.Schema.{
  ErrorCode, success, error_not_found, error_duplicate_key, error_memory_allocation,
  error_table_full, error_constraint_violation, error_invalid_input, type_int, type_null,
  type_unknown, field_type_eq, Field, Column, Record, Index, Table, Env, no_column, index_count,
  max_records_per_table, max_field_chars, stat_records_inserted, stat_records_updated,
  stat_records_deleted, update_simple_table_statistics,
}
use luminix_experience_platf.Indexes.{
  index_search_simple, update_indexes_for_record, remove_indexes_for_record, reindex_record,
}

abbrev pub field_count : Table → ℕ
field_count t = length t.columns

-- the maximum of the ids, from `max_id`
unfoldable pub max_record_id : List Record → ℤ → ℤ
max_record_id [] max_id = max_id
max_record_id (r ∷ rest) max_id = max_record_id rest (if ltb_ℤ max_id r.id then r.id else max_id)

-- the id, and the new value of the static `global_counter`
unfoldable pub generate_record_id : ℤ → Table → ℤ × ℤ
unfolding max_record_id
generate_record_id global_counter t =
    let next = succ_int (max_record_id t.records (pos 0)) in
    if ltb_ℤ global_counter next
    then (next, global_counter)
    else (global_counter, succ_int global_counter)

-- The loop over the indexes of `table_find_record`: it asks the first index on a field "id", or
-- the first of all if column 0 is a primary key, and then stops.
unfoldable pub search_indexes : Bool → List Index → ℤ → Option Record
search_indexes first_is_key [] id = none
search_indexes first_is_key (index ∷ rest) id =
    if str_eq index.field_name (codes "id") || first_is_key
    then index_search_simple index id
    else search_indexes first_is_key rest id

-- the linear search
unfoldable pub find_id : List Record → ℤ → Option Record
find_id [] id = none
find_id (r ∷ rest) id = if eqb_ℤ r.id id then some r else find_id rest id

unfoldable pub table_find_record : Table → ℤ → Option Record
unfolding search_indexes find_id index_search_simple
table_find_record t id =
    let first_is_key = (get_or t.columns 0 no_column).constraint.primary_key in
    elim (search_indexes first_is_key t.index_manager.indexes id) [
      | some r ↦ some r
      | none ↦ find_id t.records id
    ]

-- whether a column that is not nullable gets a value of type NULL
unfoldable pub null_violation : List Column → ℕ → (ℕ → Field) → Bool
null_violation [] i values = false
null_violation (c ∷ cs) i values =
    (not c.constraint.nullable && field_type_eq (values i).type type_null)
    || null_violation cs (i + 1) values

-- the first `int` given for a primary key, or -1
unfoldable pub given_id : List Column → ℕ → (ℕ → Field) → ℤ
given_id [] i values = minus_one
given_id (c ∷ cs) i values =
    if c.constraint.primary_key && field_type_eq (values i).type type_int
    then (values i).value.int_value
    else given_id cs (i + 1) values

-- the given id, or a generated one in place of -1
unfoldable pub choose_id : ℤ → Table → (ℕ → Field) → ℤ × ℤ
unfolding given_id
choose_id global_counter t values =
    let id = given_id t.columns 0 values in
    if eqb_ℤ id minus_one then generate_record_id global_counter t else (id, global_counter)

-- names and types come from the table, values from the caller
unfoldable pub copy_fields : List Column → ℕ → (ℕ → Field) → List Field
copy_fields [] i values = []
copy_fields (c ∷ cs) i values =
    record { name = take max_field_chars c.name; type = c.type; value = (values i).value }
    ∷ copy_fields cs (i + 1) values

unfoldable pub new_record : Env → Table → ℤ → (ℕ → Field) → Record
unfolding copy_fields
new_record env t id values = record {
  id = id;
  fields = copy_fields t.columns 0 values;
  field_count = field_count t;
  timestamp = env.now;
  version = pos 1;
}

-- what an insertion returns and leaves; `out_id` is what it stores through its pointer, if it does
pub record Inserted : Type 0 where
  pub code : ErrorCode
  pub table : Table
  pub global_counter : ℤ
  pub out_id : Option ℤ

abbrev pub not_inserted : ErrorCode → Table → ℤ → Inserted
not_inserted code t global_counter = record {
  code = code;
  table = t;
  global_counter = global_counter;
  out_id = none;
}

-- links the record in at the head, and keeps the counters and the indexes
unfoldable pub link_record : Table → Record → Table
link_record t r = record t {
  records = r ∷ t.records;
  record_count = t.record_count + 1;
  next_record_id = if not (ltb_ℤ r.id t.next_record_id) then succ_int r.id else t.next_record_id;
  index_manager = update_indexes_for_record t.columns t.index_manager r minus_one;
  statistics = update_simple_table_statistics t.statistics stat_records_inserted 1;
}

unfoldable pub table_insert_record : Env → ℤ → Table → Option (ℕ → Field) → Inserted
unfolding null_violation
table_insert_record env global_counter t none = not_inserted error_invalid_input t global_counter
table_insert_record env global_counter t (some values) =
    if leb max_records_per_table t.record_count
    then not_inserted error_table_full t global_counter
    else if field_type_eq (values 0).type type_unknown
    then not_inserted error_invalid_input t global_counter
    else if null_violation t.columns 0 values
    then not_inserted error_constraint_violation t global_counter
    else let (id, counter) = choose_id global_counter t values in
      if is_some (table_find_record t id)
      then not_inserted error_duplicate_key t counter
      else if not (env.alloc 0)
      then not_inserted error_memory_allocation t counter
      else if not (env.alloc 1)
      then not_inserted error_memory_allocation t counter
      else record {
        code = success;
        table = link_record t (new_record env t id values);
        global_counter = counter;
        out_id = some id;
      }

-- whether the new value of a primary key is another record's id; a key that is no `int` counts as 0
unfoldable pub key_conflict : Table → ℤ → Field → Bool
key_conflict t id new =
    let new_id = if field_type_eq new.type type_int then new.value.int_value else pos 0 in
    not (field_type_eq new.type type_null)
    && (not (eqb_ℤ new_id id) && is_some (table_find_record t new_id))

unfoldable pub write_field : Field → Field → Field
write_field old new = record old {
  value = new.value;
  type = if not (field_type_eq new.type type_unknown) then new.type else old.type;
}

-- The loop over the fields. It stops at a conflict, with the fields before it written; the Boolean
-- tells whether it got to the end.
unfoldable pub write_fields :
    Table → ℤ → (ℕ → Field) → List Column → ℕ → List Field → Bool × List Field
write_fields t id new_values [] i fields = (true, fields)
write_fields t id new_values (c ∷ cs) i [] = (true, [])
write_fields t id new_values (c ∷ cs) i (f ∷ fs) =
    let (done, rest) = write_fields t id new_values cs (i + 1) fs in
    if c.constraint.primary_key && key_conflict t id (new_values i)
    then (false, f ∷ fs)
    else (done, write_field f (new_values i) ∷ rest)

-- puts `new` in the place of the first record of that id, which is the one that the search returns
unfoldable pub replace_id : List Record → ℤ → Record → List Record
replace_id [] id new = []
replace_id (r ∷ rest) id new = if eqb_ℤ r.id id then new ∷ rest else r ∷ replace_id rest id new

unfoldable pub table_update_record : Env → Table → ℤ → Option (ℕ → Field) → ErrorCode × Table
unfolding replace_id
table_update_record env t id none = (error_invalid_input, t)
table_update_record env t id (some new_values) = elim (table_find_record t id) [
  | none ↦ (error_not_found, t)
  | some old ↦
      let (done, written) = write_fields t id new_values t.columns 0 old.fields in
      if not done
      then (
        error_duplicate_key,
        record t { records = replace_id t.records id (record old { fields = written }) },
      )
      else let new : Record = record old {
        fields = written;
        timestamp = env.now;
        version = succ_int old.version;
      } in
        (
          success,
          record t {
            records = replace_id t.records id new;
            index_manager =
                if ltb 0 (index_count t.index_manager) && env.alloc 0
                then reindex_record t.columns t.index_manager old.fields new
                else t.index_manager;
            statistics = update_simple_table_statistics t.statistics stat_records_updated 1;
          },
        )
]

-- unlinks the first record of that id
unfoldable pub remove_id : List Record → ℤ → List Record
remove_id [] id = []
remove_id (r ∷ rest) id = if eqb_ℤ r.id id then rest else r ∷ remove_id rest id

unfoldable pub table_delete_record : Table → ℤ → ErrorCode × Table
unfolding remove_id
table_delete_record t id =
    if is_some (find_id t.records id)
    then (
      success,
      record t {
        records = remove_id t.records id;
        index_manager = remove_indexes_for_record t.index_manager id;
        record_count = t.record_count - 1;
        statistics = update_simple_table_statistics t.statistics stat_records_deleted 1;
      },
    )
    else (error_not_found, t)
