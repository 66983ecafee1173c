-- ===== src/Json/Save/Laws.antt =====
-- src/json_io.c: the serializers of the records write their texts.
use luminix_experience_platf.Base.{
  length, get_or, codes, Bytes, ℕ, ◌+◌, Bool, true, false, List, [], ◌∷◌, Option, none, some,
  if◌then◌else◌,
}
use luminix_experience_platf.Schema.{
  FieldType, type_int, type_string, type_float, type_double, type_bool, type_datetime, type_blob,
  type_null, type_unknown, Field, FieldValue, Column, Record, Table, no_field,
}
use luminix_experience_platf.Json.Numbers.{print_int}
use luminix_experience_platf.Json.Save.{
  CLib, printed, quoted_time, separator, print_unsigned, json_serialize_field_value,
  serialize_fields, serialize_record, serialize_records, json_serialize_table_records,
}
use luminix_experience_platf.Json.Writer.Laws.{
  Prints, ◌⨾◌, then_more, then_less, Prints-append, Prints-append_string, Prints-indent,
  Prints-nothing, Prints-if,
}
use luminix_experience_platf.Json.Save.Texts.{
  value_text, fields_text, record_text, records_rest, records_text,
}

value_by_type :
    (c : CLib) (p : Bool) (l : ℕ) (v : FieldValue) (type : FieldType) (name : Bytes)
    → Prints p
        (json_serialize_field_value c (some (record { name = name; type = type; value = v })))
        l
        l
        (value_text c (some (record { name = name; type = type; value = v })))
unfolding json_serialize_field_value value_text
value_by_type c p l v type_int name = Prints-append p l (print_int v.int_value)
value_by_type c p l v type_string name = Prints-append_string p l (some v.string_value)
value_by_type c p l v type_float name =
    Prints-append p l (printed c 32 (c.print_float v.float_value))
value_by_type c p l v type_double name =
    Prints-append p l (printed c 32 (c.print_double v.double_value))
value_by_type c p l v type_bool name =
    Prints-append p l (if v.bool_value then codes "true" else codes "false")
value_by_type c p l v type_datetime name = Prints-append p l (quoted_time c v.double_value)
value_by_type c p l v type_blob name = Prints-append p l (codes "\"\"")
value_by_type c p l v type_null name = Prints-append p l (codes "null")
value_by_type c p l v type_unknown name = Prints-append p l (codes "\"\"")

pub Prints-field_value :
    (c : CLib) (p : Bool) (l : ℕ) (field : Option Field)
    → Prints p (json_serialize_field_value c field) l l (value_text c field)
unfolding json_serialize_field_value value_text
Prints-field_value c p l none = Prints-append p l (codes "null")
Prints-field_value c p l (some field) = value_by_type c p l field.value field.type field.name

pub Prints-fields :
    (c : CLib) (r : Record) (p : Bool) (l : ℕ) (columns : List Column) (i : ℕ)
    → Prints p (serialize_fields c r columns i) l l (fields_text c r p l columns i)
unfolding serialize_fields fields_text
Prints-fields c r p l [] i = Prints-nothing p l
Prints-fields c r p l (column ∷ columns) i =
    Prints-indent p l
    ⨾ Prints-append p l (codes "\"")
    ⨾ Prints-append p l column.name
    ⨾ Prints-append p l (codes "\": ")
    ⨾ Prints-field_value c p l (some (get_or r.fields i no_field))
    ⨾ Prints-append p l (separator (length columns))
    ⨾ Prints-fields c r p l columns (i + 1)

pub Prints-record :
    (c : CLib) (columns : List Column) (p : Bool) (l : ℕ) (r : Record)
    → Prints p (serialize_record c columns r) l l (record_text c columns p l r)
unfolding serialize_record record_text
Prints-record c columns p l r =
    then_less (
      then_less (
        then_more (
          then_less (
            then_more (
              then_more (Prints-indent p l ⨾ Prints-append p l (codes "{\n"))
              ⨾ Prints-indent p (l + 1)
              ⨾ Prints-append p (l + 1) (codes "\"id\": ")
              ⨾ Prints-append p (l + 1) (print_int r.id)
              ⨾ Prints-append p (l + 1) (codes ",\n")
              ⨾ Prints-indent p (l + 1)
              ⨾ Prints-append p (l + 1) (codes "\"fields\": {\n"))
            ⨾ Prints-fields c r p (l + 1 + 1) columns 0)
          ⨾ Prints-indent p (l + 1)
          ⨾ Prints-append p (l + 1) (codes "}")
          ⨾ Prints-append p (l + 1) (codes ",\n")
          ⨾ Prints-indent p (l + 1)
          ⨾ Prints-append p (l + 1) (codes "\"metadata\": {\n"))
        ⨾ Prints-indent p (l + 1 + 1)
        ⨾ Prints-append p (l + 1 + 1) (codes "\"timestamp\": ")
        ⨾ Prints-append p (l + 1 + 1) (quoted_time c r.timestamp)
        ⨾ Prints-append p (l + 1 + 1) (codes ",\n")
        ⨾ Prints-indent p (l + 1 + 1)
        ⨾ Prints-append p (l + 1 + 1) (codes "\"version\": ")
        ⨾ Prints-append p (l + 1 + 1) (print_unsigned r.version))
      ⨾ Prints-indent p (l + 1)
      ⨾ Prints-append p (l + 1) (codes "}"))
    ⨾ Prints-indent p l
    ⨾ Prints-append p l (codes "}")

pub Prints-records :
    (c : CLib) (columns : List Column) (p : Bool) (l : ℕ) (first : Bool) (rs : List Record)
    → Prints p (serialize_records c columns first rs) l l (records_rest c columns p l first rs)
unfolding serialize_records records_rest
Prints-records c columns p l first [] =
    Prints-if (first) (Prints-nothing p l) (Prints-append p l (codes "\n"))
Prints-records c columns p l first (r ∷ rs) =
    Prints-if (first) (Prints-nothing p l) (Prints-append p l (codes ",\n"))
    ⨾ Prints-record c columns p l r
    ⨾ Prints-records c columns p l false rs

pub Prints-table_records :
    (c : CLib) (p : Bool) (l : ℕ) (t : Table)
    → Prints p (json_serialize_table_records c t) l l (records_text c p l t)
unfolding json_serialize_table_records records_text
Prints-table_records c p l t =
    then_less (
      then_more (Prints-indent p l ⨾ Prints-append p l (codes "\"records\": [\n"))
      ⨾ Prints-records c t.columns p (l + 1) true t.records)
    ⨾ Prints-indent p l
    ⨾ Prints-append p l (codes "]")
