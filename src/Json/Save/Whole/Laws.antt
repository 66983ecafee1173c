-- ===== src/Json/Save/Whole/Laws.antt =====
-- src/json_io.c: the serializers of a schema, of the metadata and of the database write their texts.
use luminix_experience_platf.Base.{
  length, codes, Bytes, ℕ, ◌+◌, Bool, true, false, not, ◌&&◌, ◌||◌, List, [], ◌∷◌, Option, some,
}
use luminix_experience_platf.Schema.{Column, Table, Constraint}
use luminix_experience_platf.Schema.{Database, table_count}
use luminix_experience_platf.TypeNames.{field_type_to_string}
use luminix_experience_platf.Json.Numbers.{print_nat}
use luminix_experience_platf.Json.Save.{CLib, quoted_time, separator}
use luminix_experience_platf.Json.Save.Whole.{
  serialize_constraints, serialize_column_constraints, serialize_columns,
  json_serialize_table_schema, version_string, json_serialize_database_metadata, serialize_tables,
  serialize_database,
}
use luminix_experience_platf.Json.Writer.Laws.{
  Prints, ◌⨾◌, then_more, then_less, Prints-append, Prints-append_string, Prints-indent,
  Prints-nothing, Prints-if,
}
use luminix_experience_platf.Json.Save.Texts.{
  constraints_text, column_constraints_text, columns_text, schema_text, metadata_text, tables_text,
  database_text,
}
use luminix_experience_platf.Json.Save.Laws.{Prints-table_records}

pub Prints-constraints :
    (p : Bool) (l : ℕ) (k : Constraint)
    → Prints p (serialize_constraints k) l l (constraints_text k)
unfolding serialize_constraints constraints_text
Prints-constraints p l k =
    Prints-if (k.primary_key) (Prints-append p l (codes "\"PRIMARY KEY\"")) (Prints-nothing p l)
    ⨾ Prints-if (k.unique && k.primary_key) (Prints-append p l (codes ", ")) (Prints-nothing p l)
    ⨾ Prints-if (k.unique) (Prints-append p l (codes "\"UNIQUE\"")) (Prints-nothing p l)
    ⨾ Prints-if (not k.nullable && (k.primary_key || k.unique)) (Prints-append p l (codes ", "))
        (Prints-nothing p l)
    ⨾ Prints-if (not k.nullable) (Prints-append p l (codes "\"NOT NULL\"")) (Prints-nothing p l)

pub Prints-column_constraints :
    (p : Bool) (l : ℕ) (k : Constraint)
    → Prints p (serialize_column_constraints k) l l (column_constraints_text p l k)
unfolding serialize_column_constraints column_constraints_text
Prints-column_constraints p l k =
    Prints-if (k.primary_key || k.unique || not k.nullable)
      (Prints-append p l (codes ",\n")
        ⨾ Prints-indent p l
        ⨾ Prints-append p l (codes "\"constraints\": [")
        ⨾ Prints-constraints p l k
        ⨾ Prints-append p l (codes "]"))
      (Prints-nothing p l)

pub Prints-columns :
    (p : Bool) (l : ℕ) (columns : List Column)
    → Prints p (serialize_columns columns) l l (columns_text p l columns)
unfolding serialize_columns columns_text
Prints-columns p l [] = Prints-nothing p l
Prints-columns p l (column ∷ columns) =
    then_less (
      then_more (Prints-indent p l ⨾ Prints-append p l (codes "{\n"))
      ⨾ Prints-indent p (l + 1)
      ⨾ Prints-append p (l + 1) (codes "\"name\": ")
      ⨾ Prints-append_string p (l + 1) (some column.name)
      ⨾ Prints-append p (l + 1) (codes ",\n")
      ⨾ Prints-indent p (l + 1)
      ⨾ Prints-append p (l + 1) (codes "\"type\": ")
      ⨾ Prints-append_string p (l + 1) (some (field_type_to_string column.type))
      ⨾ Prints-column_constraints p (l + 1) column.constraint)
    ⨾ Prints-indent p l
    ⨾ Prints-append p l (codes "}")
    ⨾ Prints-append p l (separator (length columns))
    ⨾ Prints-columns p l columns

pub Prints-schema :
    (p : Bool) (l : ℕ) (t : Table)
    → Prints p (json_serialize_table_schema t) l l (schema_text p l t)
unfolding json_serialize_table_schema schema_text
Prints-schema p l t =
    then_less (
      then_less (
        then_more (
          then_more (Prints-indent p l ⨾ Prints-append p l (codes "\"schema\": {\n"))
          ⨾ Prints-indent p (l + 1)
          ⨾ Prints-append p (l + 1) (codes "\"name\": ")
          ⨾ Prints-append_string p (l + 1) (some t.name)
          ⨾ Prints-append p (l + 1) (codes ",\n")
          ⨾ Prints-indent p (l + 1)
          ⨾ Prints-append p (l + 1) (codes "\"fields\": [\n"))
        ⨾ Prints-columns p (l + 1 + 1) t.columns)
      ⨾ Prints-indent p (l + 1)
      ⨾ Prints-append p (l + 1) (codes "],\n")
      ⨾ Prints-indent p (l + 1)
      ⨾ Prints-append p (l + 1) (codes "\"record_count\": ")
      ⨾ Prints-append p (l + 1) (print_nat t.record_count))
    ⨾ Prints-indent p l
    ⨾ Prints-append p l (codes "}")

pub Prints-metadata :
    (c : CLib) (now : ℕ) (name : Option Bytes) (p : Bool) (l : ℕ) (db : Database)
    → Prints p
        (json_serialize_database_metadata c now name db)
        l
        l
        (metadata_text c now name p l db)
unfolding json_serialize_database_metadata metadata_text
Prints-metadata c now name p l db =
    then_less (
      then_more (Prints-indent p l ⨾ Prints-append p l (codes "\"metadata\": {\n"))
      ⨾ Prints-indent p (l + 1)
      ⨾ Prints-append p (l + 1) (codes "\"name\": ")
      ⨾ Prints-append_string p (l + 1) name
      ⨾ Prints-append p (l + 1) (codes ",\n")
      ⨾ Prints-indent p (l + 1)
      ⨾ Prints-append p (l + 1) (codes "\"version\": \"")
      ⨾ Prints-append p (l + 1) version_string
      ⨾ Prints-append p (l + 1) (codes "\",\n")
      ⨾ Prints-indent p (l + 1)
      ⨾ Prints-append p (l + 1) (codes "\"created_at\": ")
      ⨾ Prints-append p (l + 1) (quoted_time c now)
      ⨾ Prints-append p (l + 1) (codes ",\n")
      ⨾ Prints-indent p (l + 1)
      ⨾ Prints-append p (l + 1) (codes "\"table_count\": ")
      ⨾ Prints-append p (l + 1) (print_nat (table_count db))
      ⨾ Prints-append p (l + 1) (codes "\n"))
    ⨾ Prints-indent p l
    ⨾ Prints-append p l (codes "}")

pub Prints-tables :
    (c : CLib) (p : Bool) (l : ℕ) (later : Bool) (ts : List Table)
    → Prints p (serialize_tables c later ts) l l (tables_text c p l later ts)
unfolding serialize_tables tables_text
Prints-tables c p l later [] = Prints-nothing p l
Prints-tables c p l later (t ∷ ts) =
    then_less (
      then_more (
        Prints-if (later) (Prints-append p l (codes ",")) (Prints-nothing p l)
        ⨾ Prints-indent p l
        ⨾ Prints-append p l (codes "{\n"))
      ⨾ Prints-schema p (l + 1) t
      ⨾ Prints-append p (l + 1) (codes ",\n")
      ⨾ Prints-table_records c p (l + 1) t)
    ⨾ Prints-indent p l
    ⨾ Prints-append p l (codes "}")
    ⨾ Prints-tables c p l true ts

pub Prints-database :
    (c : CLib) (now : ℕ) (name : Option Bytes) (p : Bool) (l : ℕ) (db : Database)
    → Prints p (serialize_database c now name db) l l (database_text c now name p l db)
unfolding serialize_database database_text
Prints-database c now name p l db =
    then_less (
      then_less (
        then_more (
          then_more (Prints-append p l (codes "{"))
          ⨾ Prints-metadata c now name p (l + 1) db
          ⨾ Prints-append p (l + 1) (codes ",")
          ⨾ Prints-indent p (l + 1)
          ⨾ Prints-append p (l + 1) (codes "\"tables\": ["))
        ⨾ Prints-tables c p (l + 1 + 1) false db.tables)
      ⨾ Prints-indent p (l + 1)
      ⨾ Prints-append p (l + 1) (codes "]"))
    ⨾ Prints-indent p l
    ⨾ Prints-append p l (codes "}")
