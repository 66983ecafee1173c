-- ===== src/Schema.antt =====
-- The data of src/types.h and src/database.h, with the limits of src/config.h.
-- An `int` is a ℤ between INT_MIN and INT_MAX, a count that the code keeps from 0 up is an ℕ, and
-- a `float` or `double` is its bit pattern.
mod Floats
mod Stats
pub use Floats.*
pub use Stats.*
unfoldable pub use Floats.{float_eq, double_eq}
unfoldable pub use Stats.{update_simple_statistics, update_simple_table_statistics}
use luminix_experience_platf.Base.{ℕ, ℤ, Bytes, Bool, false, List, [], Option, ◌==◌, length, pos}

abbrev pub max_fields_per_table : ℕ
max_fields_per_table = 50

abbrev pub max_tables : ℕ
max_tables = 100

abbrev pub max_records_per_table : ℕ
max_records_per_table = 10000

abbrev pub max_indexes_per_table : ℕ
max_indexes_per_table = 10

abbrev pub batch_insert_size : ℕ
batch_insert_size = 100

abbrev pub max_transaction_level : ℕ
max_transaction_level = 10

abbrev pub initial_capacity : ℕ
initial_capacity = 100

-- the longest names that fit `char name[MAX_TABLE_NAME]` and `char name[MAX_FIELD_LEN]`
abbrev pub max_table_name_chars : ℕ
max_table_name_chars = 63

abbrev pub max_field_chars : ℕ
max_field_chars = 255

pub data ErrorCode : Type 0 where
  success : ErrorCode
  error_not_found : ErrorCode
  error_duplicate_key : ErrorCode
  error_memory_allocation : ErrorCode
  error_invalid_parameter : ErrorCode
  error_table_full : ErrorCode
  error_transaction_conflict : ErrorCode
  error_type_mismatch : ErrorCode
  error_constraint_violation : ErrorCode
  error_index_exists : ErrorCode
  error_not_implemented : ErrorCode
  error_generic : ErrorCode
  error_invalid_input : ErrorCode
  error_io_operation : ErrorCode
  error_permission_denied : ErrorCode
  error_corrupt_data : ErrorCode
  error_index_not_found : ErrorCode
  error_deadlock_detected : ErrorCode
  error_timeout : ErrorCode

-- `code == SUCCESS`
abbrev pub is_success : ErrorCode → Bool
is_success success = Bool.true
is_success _ = false

pub data FieldType : Type 0 where
  type_unknown type_int type_string type_float type_double type_bool type_datetime : FieldType
  type_blob type_null : FieldType

-- the value of the enumerator
abbrev pub field_type_tag : FieldType → ℕ
field_type_tag type_unknown = 0
field_type_tag type_int = 1
field_type_tag type_string = 2
field_type_tag type_float = 3
field_type_tag type_double = 4
field_type_tag type_bool = 5
field_type_tag type_datetime = 6
field_type_tag type_blob = 7
field_type_tag type_null = 8

abbrev pub field_type_eq : FieldType → FieldType → Bool
field_type_eq a b = field_type_tag a == field_type_tag b

pub data IndexType : Type 0 where
  index_none index_hash index_btree index_skiplist index_bitmap index_fulltext : IndexType

-- A union, by what each of its members reads as. The code only copies whole unions and reads
-- members, so the copies carry the five readings along.
pub record FieldValue : Type 0 where
  pub int_value : ℤ
  pub string_value : Bytes
  pub float_value : ℕ
  pub double_value : ℕ
  pub bool_value : Bool

pub record Field : Type 0 where
  pub name : Bytes
  pub type : FieldType
  pub value : FieldValue

pub record Constraint : Type 0 where
  pub nullable : Bool
  pub unique : Bool
  pub primary_key : Bool
  pub foreign_key : Bool

-- entry i of the arrays `field_names`, `field_types` and `constraints`
pub record Column : Type 0 where
  pub name : Bytes
  pub type : FieldType
  pub constraint : Constraint

pub record Record : Type 0 where
  pub id : ℤ
  pub fields : List Field
  pub field_count : ℕ
  pub timestamp : ℕ
  pub version : ℤ

pub record Index : Type 0 where
  pub table_name : Bytes
  pub field_name : Bytes
  pub type : IndexType

-- `index_count` is the length of the list
pub record IndexManager : Type 0 where
  pub indexes : List Index
  pub capacity : ℕ

-- `field_count` is the number of columns; the linked list of records is a list, first node first
pub record Table : Type 0 where
  pub name : Bytes
  pub columns : List Column
  pub records : List Record
  pub record_count : ℕ
  pub capacity : ℕ
  pub next_record_id : ℤ
  pub index_manager : IndexManager
  pub statistics : Option TableStatistics

pub record Cache : Type 0 where
  pub policy : ℕ
  pub size : ℕ

-- `table_count` is the length of the list
pub record Database : Type 0 where
  pub tables : List Table
  pub table_capacity : ℕ
  pub index_manager : Option IndexManager
  pub cache : Option Cache
  pub statistics : Option DatabaseStatistics
  pub transaction_active : Bool
  pub transaction_level : ℕ
  pub transaction_start_time : ℕ

-- A database together with `global_counter`, the static variable of `generate_record_id`.
pub record State : Type 0 where
  pub db : Database
  pub global_counter : ℤ

-- What the environment answers during a call: `time(NULL)`, and whether the allocation numbered k
-- in the order of the code is granted.
pub record Env : Type 0 where
  pub now : ℕ
  pub alloc : ℕ → Bool

abbrev pub zero_value : FieldValue
zero_value = record {
  int_value = pos 0;
  string_value = [];
  float_value = 0;
  double_value = 0;
  bool_value = false;
}

-- stands in for a read past the end of `fields`, which valid tables do not make
abbrev pub no_field : Field
no_field = record { name = []; type = type_unknown; value = zero_value }

abbrev pub no_column : Column
no_column = record {
  name = [];
  type = type_unknown;
  constraint = record {
    nullable = false;
    unique = false;
    primary_key = false;
    foreign_key = false;
  };
}

abbrev pub table_count : Database → ℕ
table_count db = length db.tables

abbrev pub index_count : IndexManager → ℕ
index_count m = length m.indexes
