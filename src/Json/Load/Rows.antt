-- ===== src/Json/Load/Rows.antt =====
-- src/json_io.c: json_parse_table_records, with the table and global_counter, which
-- table_insert_record changes. Memory for the array of fields is granted.
pub mod Total
pub mod Valid
use luminix_experience_platf.Base.{
  eqb_ℤ, codes, str_eq, minus_one, get_or, Bytes, ◌*◌, ◌/◌, ◌%◌, ◌^◌, ◌==◌, ℕ, zero, suc, ◌+◌, ◌-◌,
  ◌≤◌, ◌<◌, ℤ, pos, negsuc, Bool, true, false, not, ◌&&◌, ◌||◌, List, [], ◌∷◌, ◌++◌, Option, none,
  some, ◌≡◌, ◌≢◌, ◌↔◌, refl, arith, if◌then◌else◌, inl, inr,
}
use luminix_experience_platf.Schema.{
  ErrorCode, success, error_invalid_input, error_duplicate_key, is_success, Field, FieldType,
  Column, Table, type_int, type_null, field_type_eq, zero_value, no_field, no_column, Env,
}
use luminix_experience_platf.Table.{table_insert_record}
use luminix_experience_platf.Json.{
  JsonToken, token_tag, json_parse_token, token_object_start, token_array_start, token_string,
  token_number,
}
use luminix_experience_platf.Json.Numbers.{atoi}
use luminix_experience_platf.Json.Load.{Union, value_of, is_token, json_parse_field_value}
use luminix_experience_platf.Json.Load.Loops.{
  failure, Outcome, stopped, parsed, entered, Parsed, read_members, read_items, members, items,
  skip_ignoring,
}

-- a record that is being read
pub record RecordSoFar : Type 0 where
  pub record_id : ℤ
  pub field_values : List Field

-- the types of the columns and empty values
unfoldable pub default_fields : List Column → List Field
default_fields [] = []
default_fields (c ∷ cs) =
    record { name = []; type = c.type; value = zero_value } ∷ default_fields cs

-- the first column of that name
unfoldable pub column_index : List Column → Bytes → Option ℕ
column_index [] name = none
column_index (c ∷ cs) name =
    let later = column_index cs name in
    if str_eq c.name name then some 0 else elim later [ none ↦ none | some i ↦ some (suc i) ]

-- the value of field i, and its type if it is NULL
unfoldable pub set_value : List Field → ℕ → Field → List Field
set_value [] i f = []
set_value (g ∷ gs) zero f =
    record {
      name = g.name;
      type = if field_type_eq f.type type_null then type_null else g.type;
      value = f.value;
    }
    ∷ gs
set_value (g ∷ gs) (suc i) f = g ∷ set_value gs i f

-- a member of `fields`; of an unknown one only the first token is read
unfoldable pub value_key : Union → List Column → RecordSoFar → Bytes → Bytes → Parsed RecordSoFar
unfolding column_index set_value
value_key u columns r k json = elim (column_index columns k) [
  | none ↦ some (parsed r (json_parse_token json).1)
  | some i ↦
      let (f, rest) = json_parse_field_value u (get_or columns i no_column).type json in
      some (parsed (record r { field_values = set_value r.field_values i f }) rest)
]

unfoldable pub record_key : Union → List Column → RecordSoFar → Bytes → Bytes → Parsed RecordSoFar
unfolding value_key
record_key u columns r k json =
    let (t, rest) = json_parse_token json in
    if str_eq k (codes "id")
    then some (
        parsed
          (if is_token t (token_tag token_number)
            then record r { record_id = atoi (value_of t) }
            else r)
          rest)
    else if str_eq k (codes "fields")
    then (if is_token t (token_tag token_object_start)
        then read_members (value_key u columns) r rest
        else some (stopped (failure error_invalid_input) r))
    else skip_ignoring r json

-- the id in the field of the first primary key
unfoldable pub write_key : Union → ℤ → List Column → List Field → List Field
write_key u id (c ∷ cs) (f ∷ fs) =
    if c.constraint.primary_key
    then record { name = f.name; type = type_int; value = u.write_int id f.value } ∷ fs
    else f ∷ write_key u id cs fs
write_key u id _ fs = fs

-- what the loader changes: the table, and the static global_counter
pub record Loading : Type 0 where
  pub table : Table
  pub global_counter : ℤ

-- a duplicate key is passed over
abbrev pub after_insert : ErrorCode → Loading → Bytes → Parsed Loading
after_insert success l rest = some (parsed l rest)
after_insert error_duplicate_key l rest = some (parsed l rest)
after_insert code l rest = some (stopped (failure code) l)

-- A record without an id is dropped.
unfoldable pub insert_read : Env → Union → Loading → RecordSoFar → Bytes → Parsed Loading
unfolding write_key
insert_read env u l r rest =
    let inserted =
      table_insert_record env l.global_counter l.table
        (some (λ i. get_or (write_key u r.record_id l.table.columns r.field_values) i no_field)) in
    let l' : Loading = record {
      table = inserted.table;
      global_counter = inserted.global_counter;
    } in
    if eqb_ℤ r.record_id minus_one then some (parsed l rest) else after_insert inserted.code l' rest

abbrev pub then_insert : Env → Union → Loading → Parsed RecordSoFar → Parsed Loading
then_insert env u l none = none
then_insert env u l (some (stopped code r)) = some (stopped code l)
then_insert env u l (some (parsed r rest)) = insert_read env u l r rest
then_insert env u l (some (entered r rest)) = insert_read env u l r rest

unfoldable pub read_record : Env → Union → Loading → Bytes → Parsed Loading
unfolding record_key default_fields insert_read
read_record env u l json = then_insert env u l (
    read_members (record_key u l.table.columns)
      (record { record_id = minus_one; field_values = default_fields l.table.columns }) json)

unfoldable pub json_parse_table_records : Env → Union → Loading → Bytes → Parsed Loading
unfolding read_record
json_parse_table_records env u l json =
    let (t, rest) = json_parse_token json in
    if is_token t (token_tag token_array_start)
    then read_items (read_record env u) l rest
    else some (stopped (failure error_invalid_input) l)
