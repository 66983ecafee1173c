-- ===== src/Json/Save.antt =====
-- src/json_io.c: the serializers of a value, of the metadata, of a schema and of the records of a
-- table. `CLib` is what the C library prints for a `float`, a `double` and a local time.
pub mod Whole
pub mod Laws
pub mod Texts
use luminix_experience_platf.Base.{
  take, length, ltb, get_or, codes, Bytes, ◌*◌, ◌/◌, ◌%◌, ◌^◌, ◌==◌, ℕ, zero, suc, ◌+◌, ◌-◌, ◌≤◌,
  ◌<◌, ℤ, pos, negsuc, Bool, true, false, not, ◌&&◌, ◌||◌, List, [], ◌∷◌, ◌++◌, Option, none, some,
  ◌≡◌, ◌≢◌, ◌↔◌, refl, arith, if◌then◌else◌, inl, inr,
}
use luminix_experience_platf.Schema.{
  FieldType, type_int, type_string, type_float, type_double, type_bool, type_datetime, type_blob,
  type_null, type_unknown, Field, Column, Record, Table, Constraint, no_field,
}
use luminix_experience_platf.TypeNames.{field_type_to_string}
use luminix_experience_platf.Json.Numbers.{print_int, print_nat}
use luminix_experience_platf.Json.Writer.{
  JsonSerializeState, json_serialize_append, Writer, ◌>>◌, json_serialize_append_string, nothing,
  json_serialize_indent, indent_more, indent_less,
}

pub record CLib : Type 0 where
  -- `%.6f` of a float and `%.10f` of a double, by their bits
  pub print_float : ℕ → Bytes
  pub print_double : ℕ → Bytes
  -- `%Y-%m-%d %H:%M:%S` of the local time, at most 40 bytes
  pub local_time : ℕ → Bytes
  -- the bytes of the stack behind a local buffer
  pub stack : ℕ → Bytes

-- What `snprintf` into a buffer followed by `append(buffer, len)` appends: `len` counts what would
-- have been printed, and the copy runs past the buffer if that did not fit.
abbrev pub printed : CLib → ℕ → Bytes → Bytes
printed c buffer_size text =
    if ltb (length text) buffer_size
    then text
    else take (buffer_size - 1) text ++ 0 ∷ c.stack (length text - buffer_size)

abbrev pub quoted_time : CLib → ℕ → Bytes
quoted_time c t = codes "\"" ++ c.local_time t ++ codes "\""

-- A date is read from the bytes of the union as a `time_t`, which are those of a double.
unfoldable pub json_serialize_field_value : CLib → Option Field → Writer
unfolding print_int
json_serialize_field_value c none = json_serialize_append (codes "null")
json_serialize_field_value c (some field) = elim field.type [
  | type_int ↦ json_serialize_append (print_int field.value.int_value)
  | type_string ↦ json_serialize_append_string (some field.value.string_value)
  | type_float ↦ json_serialize_append (printed c 32 (c.print_float field.value.float_value))
  | type_double ↦ json_serialize_append (printed c 32 (c.print_double field.value.double_value))
  | type_bool ↦
      json_serialize_append (if field.value.bool_value then codes "true" else codes "false")
  | type_datetime ↦ json_serialize_append (quoted_time c field.value.double_value)
  | type_blob ↦ json_serialize_append (codes "\"\"")
  | type_null ↦ json_serialize_append (codes "null")
  | _ ↦ json_serialize_append (codes "\"\"")
]

-- `%u`
abbrev pub print_unsigned : ℤ → Bytes
print_unsigned (pos n) = print_nat n
print_unsigned (negsuc n) = print_nat (2 ^ 32 - n - 1)

abbrev pub separator : ℕ → Bytes
separator n = if n == 0 then codes "\n" else codes ",\n"

-- the loop over the columns, from number `i` on: names as they are, and the fields of the record
unfoldable pub serialize_fields : CLib → Record → List Column → ℕ → Writer
serialize_fields c r [] i = nothing
serialize_fields c r (column ∷ columns) i =
    json_serialize_indent
    >> json_serialize_append (codes "\"")
    >> json_serialize_append column.name
    >> json_serialize_append (codes "\": ")
    >> json_serialize_field_value c (some (get_or r.fields i no_field))
    >> json_serialize_append (separator (length columns))
    >> serialize_fields c r columns (i + 1)

unfoldable pub serialize_record : CLib → List Column → Record → Writer
unfolding serialize_fields
serialize_record c columns r =
    json_serialize_indent
    >> json_serialize_append (codes "{\n")
    >> indent_more
    >> json_serialize_indent
    >> json_serialize_append (codes "\"id\": ")
    >> json_serialize_append (print_int r.id)
    >> json_serialize_append (codes ",\n")
    >> json_serialize_indent
    >> json_serialize_append (codes "\"fields\": {\n")
    >> indent_more
    >> serialize_fields c r columns 0
    >> indent_less
    >> json_serialize_indent
    >> json_serialize_append (codes "}")
    >> json_serialize_append (codes ",\n")
    >> json_serialize_indent
    >> json_serialize_append (codes "\"metadata\": {\n")
    >> indent_more
    >> json_serialize_indent
    >> json_serialize_append (codes "\"timestamp\": ")
    >> json_serialize_append (quoted_time c r.timestamp)
    >> json_serialize_append (codes ",\n")
    >> json_serialize_indent
    >> json_serialize_append (codes "\"version\": ")
    >> json_serialize_append (print_unsigned r.version)
    >> indent_less
    >> json_serialize_indent
    >> json_serialize_append (codes "}")
    >> indent_less
    >> json_serialize_indent
    >> json_serialize_append (codes "}")

-- the loop over the records, with `first_record`
unfoldable pub serialize_records : CLib → List Column → Bool → List Record → Writer
unfolding serialize_record
serialize_records c columns first [] = if first then nothing else json_serialize_append (codes "\n")
serialize_records c columns first (r ∷ rs) =
    (if first then nothing else json_serialize_append (codes ",\n"))
    >> serialize_record c columns r
    >> serialize_records c columns false rs

unfoldable pub json_serialize_table_records : CLib → Table → Writer
unfolding serialize_records
json_serialize_table_records c t =
    json_serialize_indent
    >> json_serialize_append (codes "\"records\": [\n")
    >> indent_more
    >> serialize_records c t.columns true t.records
    >> indent_less
    >> json_serialize_indent
    >> json_serialize_append (codes "]")
