-- ===== src/Json/Save/Whole.antt =====
-- src/json_io.c: the serializers of the metadata and of a schema, and db_save_to_file.
pub mod Laws
pub mod File
use luminix_experience_platf.Base.{
  take, length, codes, Bytes, ◌*◌, ◌/◌, ◌%◌, ◌^◌, ◌==◌, ℕ, zero, suc, ◌+◌, ◌-◌, ◌≤◌, ◌<◌, ℤ, pos,
  negsuc, Bool, true, false, not, ◌&&◌, ◌||◌, List, [], ◌∷◌, ◌++◌, Option, none, some, ◌≡◌, ◌≢◌,
  ◌↔◌, refl, arith, if◌then◌else◌, inl, inr,
}
use luminix_experience_platf.Schema.{
  ErrorCode, success, error_invalid_input, error_memory_allocation, error_io_operation, Column,
  Constraint, Table, Database, table_count,
}
use luminix_experience_platf.TypeNames.{field_type_to_string}
use luminix_experience_platf.Json.Numbers.{print_int, print_nat}
use luminix_experience_platf.Json.Writer.{
  JsonSerializeState, json_serialize_append, Writer, ◌>>◌, json_serialize_append_string, nothing,
  json_serialize_indent, indent_more, indent_less,
}
use luminix_experience_platf.Json.Save.{CLib, quoted_time, separator, json_serialize_table_records}

-- the constraints of a column, separated by commas
unfoldable pub serialize_constraints : Constraint → Writer
serialize_constraints k =
    (if k.primary_key then json_serialize_append (codes "\"PRIMARY KEY\"") else nothing)
    >> (if k.unique && k.primary_key then json_serialize_append (codes ", ") else nothing)
    >> (if k.unique then json_serialize_append (codes "\"UNIQUE\"") else nothing)
    >> (if not k.nullable && (k.primary_key || k.unique)
        then json_serialize_append (codes ", ")
        else nothing)
    >> (if not k.nullable then json_serialize_append (codes "\"NOT NULL\"") else nothing)

unfoldable pub serialize_column_constraints : Constraint → Writer
unfolding serialize_constraints
serialize_column_constraints k =
    if k.primary_key || k.unique || not k.nullable
    then json_serialize_append (codes ",\n")
      >> json_serialize_indent
      >> json_serialize_append (codes "\"constraints\": [")
      >> serialize_constraints k
      >> json_serialize_append (codes "]")
    else nothing

-- the loop over the columns
unfoldable pub serialize_columns : List Column → Writer
unfolding serialize_column_constraints
serialize_columns [] = nothing
serialize_columns (column ∷ columns) =
    json_serialize_indent
    >> json_serialize_append (codes "{\n")
    >> indent_more
    >> json_serialize_indent
    >> json_serialize_append (codes "\"name\": ")
    >> json_serialize_append_string (some column.name)
    >> json_serialize_append (codes ",\n")
    >> json_serialize_indent
    >> json_serialize_append (codes "\"type\": ")
    >> json_serialize_append_string (some (field_type_to_string column.type))
    >> serialize_column_constraints column.constraint
    >> indent_less
    >> json_serialize_indent
    >> json_serialize_append (codes "}")
    >> json_serialize_append (separator (length columns))
    >> serialize_columns columns

unfoldable pub json_serialize_table_schema : Table → Writer
unfolding serialize_columns
json_serialize_table_schema t =
    json_serialize_indent
    >> json_serialize_append (codes "\"schema\": {\n")
    >> indent_more
    >> json_serialize_indent
    >> json_serialize_append (codes "\"name\": ")
    >> json_serialize_append_string (some t.name)
    >> json_serialize_append (codes ",\n")
    >> json_serialize_indent
    >> json_serialize_append (codes "\"fields\": [\n")
    >> indent_more
    >> serialize_columns t.columns
    >> indent_less
    >> json_serialize_indent
    >> json_serialize_append (codes "],\n")
    >> json_serialize_indent
    >> json_serialize_append (codes "\"record_count\": ")
    >> json_serialize_append (print_nat t.record_count)
    >> indent_less
    >> json_serialize_indent
    >> json_serialize_append (codes "}")

-- LUMINIX_VERSION_STRING
abbrev pub version_string : Bytes
version_string = codes "1.0.0"

-- `now` is the time of the call, and `name` what get_database_name returns
unfoldable pub json_serialize_database_metadata : CLib → ℕ → Option Bytes → Database → Writer
json_serialize_database_metadata c now name db =
    json_serialize_indent
    >> json_serialize_append (codes "\"metadata\": {\n")
    >> indent_more
    >> json_serialize_indent
    >> json_serialize_append (codes "\"name\": ")
    >> json_serialize_append_string name
    >> json_serialize_append (codes ",\n")
    >> json_serialize_indent
    >> json_serialize_append (codes "\"version\": \"")
    >> json_serialize_append version_string
    >> json_serialize_append (codes "\",\n")
    >> json_serialize_indent
    >> json_serialize_append (codes "\"created_at\": ")
    >> json_serialize_append (quoted_time c now)
    >> json_serialize_append (codes ",\n")
    >> json_serialize_indent
    >> json_serialize_append (codes "\"table_count\": ")
    >> json_serialize_append (print_nat (table_count db))
    >> json_serialize_append (codes "\n")
    >> indent_less
    >> json_serialize_indent
    >> json_serialize_append (codes "}")

-- the loop over the tables, with whether one has come before
unfoldable pub serialize_tables : CLib → Bool → List Table → Writer
serialize_tables c later [] = nothing
serialize_tables c later (t ∷ ts) =
    (if later then json_serialize_append (codes ",") else nothing)
    >> json_serialize_indent
    >> json_serialize_append (codes "{\n")
    >> indent_more
    >> json_serialize_table_schema t
    >> json_serialize_append (codes ",\n")
    >> json_serialize_table_records c t
    >> indent_less
    >> json_serialize_indent
    >> json_serialize_append (codes "}")
    >> serialize_tables c true ts

-- the text of the whole file
unfoldable pub serialize_database : CLib → ℕ → Option Bytes → Database → Writer
unfolding serialize_tables
serialize_database c now name db =
    json_serialize_append (codes "{")
    >> indent_more
    >> json_serialize_database_metadata c now name db
    >> json_serialize_append (codes ",")
    >> json_serialize_indent
    >> json_serialize_append (codes "\"tables\": [")
    >> indent_more
    >> serialize_tables c false db.tables
    >> indent_less
    >> json_serialize_indent
    >> json_serialize_append (codes "]")
    >> indent_less
    >> json_serialize_indent
    >> json_serialize_append (codes "}")

-- what the file system answers: whether the file opens, and how many bytes it takes
pub record Disk : Type 0 where
  pub opens : Bool
  pub written : ℕ → ℕ

abbrev pub json_buffer_size : ℕ
json_buffer_size = 4096

abbrev pub start_state : (ℕ → Bool) → JsonSerializeState
start_state grants = record {
  buffer = [];
  capacity = json_buffer_size;
  indent_level = 0;
  pretty = true;
  grants = grants;
}

-- The result, and what is left in the file if it was opened. Neither branch on `options` differs.
unfoldable pub db_save_to_file :
    CLib → ℕ → Option Bytes → (ℕ → Bool) → Disk → Option Database → Bool → ErrorCode × Option Bytes
unfolding serialize_database
db_save_to_file c now name grants disk none has_filename = (error_invalid_input, none)
db_save_to_file c now name grants disk (some db) has_filename =
    if not has_filename
    then (error_invalid_input, none)
    else if not (grants json_buffer_size)
    then (error_memory_allocation, none)
    else elim (serialize_database c now name db (start_state grants)) [
      | none ↦ (error_memory_allocation, none)
      | some s ↦
          if not disk.opens
          then (error_io_operation, none)
          else if disk.written (length s.buffer) == length s.buffer
          then (success, some s.buffer)
          else (error_io_operation, some (take (disk.written (length s.buffer)) s.buffer))
    ]
