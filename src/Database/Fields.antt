-- ===== src/Database/Fields.antt =====
-- Searches and deletions by the value of a field, in src/database.c. What `const void* value` points
-- to is read by the type of the field, so it is a FieldValue here, with one reading for each type.
pub mod Search
pub mod Delete
pub mod Valid
use luminix_experience_platf.Database.Transactions.{
  db_rollback_transaction, db_commit_transaction, db_begin_transaction,
}
use luminix_experience_platf.Indexes.{
  index_search_simple, field_position, remove_indexes_for_record, find_index_in_manager,
}
use luminix_experience_platf.Database.Tables.{put_table, db_get_table}
use luminix_experience_platf.Schema.{
  type_int, type_string, type_float, type_double, type_bool, error_invalid_input, success,
  is_success, double_eq, type_int, float_eq, field_type_eq, error_not_found, no_field, no_column,
  ErrorCode, State, IndexManager, FieldValue, Field, Table, Record, FieldType, Env, Database,
}
use luminix_experience_platf.Base.{
  length, ltb, str_eq, eqb_ℤ, get_or, Bytes, ℕ, zero, suc, ◌+◌, ◌-◌, ◌≤◌, ◌<◌, ℤ, pos, negsuc, Bool,
  true, false, not, ◌&&◌, ◌||◌, List, [], ◌∷◌, ◌++◌, Option, none, some, ◌≡◌, ◌≢◌, ◌↔◌, refl, arith,
  if◌then◌else◌, inl, inr,
}

abbrev pub bool_eq : Bool → Bool → Bool
bool_eq true b = b
bool_eq false b = not b

-- the `switch` on the type; the other types match nothing
unfoldable pub value_matches : FieldType → FieldValue → FieldValue → Bool
value_matches type_int a b = eqb_ℤ a.int_value b.int_value
value_matches type_string a b = str_eq a.string_value b.string_value
value_matches type_float a b = float_eq a.float_value b.float_value
value_matches type_double a b = double_eq a.double_value b.double_value
value_matches type_bool a b = bool_eq a.bool_value b.bool_value
value_matches _ a b = false

abbrev pub field_at : Record → ℕ → Field
field_at r field_idx = get_or r.fields field_idx no_field

-- the linear search of `db_find_record_by_field`, which goes by the type in the record
unfoldable pub find_matching : List Record → ℕ → FieldValue → Option Record
find_matching [] field_idx value = none
find_matching (r ∷ rest) field_idx value =
    if value_matches (field_at r field_idx).type (field_at r field_idx).value value
    then some r
    else find_matching rest field_idx value

-- the index is asked if the column is an `int` and the key is not 0
abbrev pub search_by_index : Table → Bytes → Bytes → ℕ → FieldValue → Option Record
search_by_index t table_name field_name field_idx value =
    elim (find_index_in_manager t.index_manager table_name field_name) [
      | none ↦ none
      | some index ↦
          let key : ℤ =
            if field_type_eq (get_or t.columns field_idx no_column).type type_int
            then value.int_value
            else pos 0 in
          if not (eqb_ℤ key (pos 0)) then index_search_simple index key else none
    ]

unfoldable pub db_find_record_by_field :
    Database → Option Bytes → Option Bytes → Option FieldValue → Option Record
unfolding find_matching
db_find_record_by_field db (some table_name) (some field_name) (some value) =
    elim (db_get_table db (some table_name)) [
      | none ↦ none
      | some t ↦ elim (field_position t.columns field_name 0) [
        | none ↦ none
        | some field_idx ↦ elim (search_by_index t table_name field_name field_idx value) [
          | some r ↦ some r
          | none ↦ find_matching t.records field_idx value
        ]
      ]
    ]
db_find_record_by_field db _ _ _ = none

-- the loop of `db_find_all_records_by_field`, which goes by the type of the column
unfoldable pub all_matching : FieldType → List Record → ℕ → FieldValue → List Record
all_matching type [] field_idx value = []
all_matching type (r ∷ rest) field_idx value =
    let found = all_matching type rest field_idx value in
    if value_matches type (field_at r field_idx).value value then r ∷ found else found

-- The results, or none for NULL, and what is stored through `out_count`. Allocation 0 is the array
-- of results; when the later `realloc` fails the array is kept.
unfoldable pub db_find_all_records_by_field :
    Env
    → Database
    → Option Bytes
    → Option Bytes
    → Option FieldValue
    → Bool
    → Option (List Record) × Option ℕ
unfolding all_matching
db_find_all_records_by_field env db (some table_name) (some field_name) (some value) true =
    elim (db_get_table db (some table_name)) [
      | none ↦ (none, some 0)
      | some t ↦ elim (field_position t.columns field_name 0) [
        | none ↦ (none, some 0)
        | some field_idx ↦
            if not (env.alloc 0)
            then (none, some 0)
            else let found : List Record =
                all_matching (get_or t.columns field_idx no_column).type t.records field_idx
                  value in
              (if ltb 0 (length found) then some found else none, some (length found))
      ]
    ]
db_find_all_records_by_field env db _ _ _ _ = (none, none)

-- what the loop of `db_delete_records_by_field` leaves
pub record Swept : Type 0 where
  pub kept : List Record
  pub deleted : ℕ
  pub manager : IndexManager

unfoldable pub sweep : FieldType → ℕ → FieldValue → List Record → IndexManager → Swept
sweep type field_idx value [] manager = record { kept = []; deleted = 0; manager = manager }
sweep type field_idx value (r ∷ rest) manager =
    let is_match = value_matches type (field_at r field_idx).value value in
    let swept =
      sweep type field_idx value rest
        (if is_match then remove_indexes_for_record manager r.id else manager) in
    if is_match
    then record swept { deleted = swept.deleted + 1 }
    else record swept { kept = r ∷ swept.kept }

-- the table after the loop; its statistics stay as they are
abbrev pub swept_table : Table → Swept → Table
swept_table t swept = record t {
  records = swept.kept;
  record_count = t.record_count - swept.deleted;
  index_manager = swept.manager;
}

abbrev pub column_type : Table → ℕ → FieldType
column_type t field_idx = (get_or t.columns field_idx no_column).type

-- `wants_count` tells whether `out_count` is not NULL; the last part is what it holds at the end.
unfoldable pub db_delete_records_by_field :
    Env
    → State
    → Option Bytes
    → Option Bytes
    → Option FieldValue
    → Bool
    → ErrorCode × State × Option ℕ
unfolding sweep
db_delete_records_by_field env s (some table_name) (some field_name) (some value) wants_count =
    let zero_count : Option ℕ = if wants_count then some 0 else none in
    elim (db_get_table s.db (some table_name)) [
      | none ↦ (error_not_found, s, zero_count)
      | some t ↦ elim (field_position t.columns field_name 0) [
        | none ↦ (error_not_found, s, zero_count)
        | some field_idx ↦
            let (code, begun) = db_begin_transaction env s.db in
            if not (is_success code)
            then (code, record s { db = begun }, zero_count)
            else let swept : Swept =
                sweep (column_type t field_idx) field_idx value t.records t.index_manager in
              let db : Database = record begun {
                tables = put_table begun.tables table_name (swept_table t swept);
              } in
              if ltb 0 swept.deleted
              then (
                success,
                record s { db = (db_commit_transaction db).1 },
                if wants_count then some swept.deleted else none,
              )
              else (success, record s { db = (db_rollback_transaction db).1 }, zero_count)
      ]
    ]
db_delete_records_by_field env s _ _ _ wants_count = (error_invalid_input, s, none)
