-- ===== src/Json/Save/Texts.antt =====
-- src/json_io.c: the texts that the serializers write, by whether they are pretty and the level.
use luminix_experience_platf.Base.{
  length, get_or, codes, Bytes, ℕ, ◌+◌, Bool, true, false, not, ◌&&◌, ◌||◌, List, [], ◌∷◌, ◌++◌,
  Option, none, some, if◌then◌else◌,
}
use luminix_experience_platf.Schema.{
  type_int, type_string, type_float, type_double, type_bool, type_datetime, type_null, Field,
  Column, Record, Table, Constraint, no_field,
}
use luminix_experience_platf.Schema.{Database, table_count}
use luminix_experience_platf.TypeNames.{field_type_to_string}
use luminix_experience_platf.Json.Numbers.{print_int, print_nat}
use luminix_experience_platf.Json.Save.{CLib, printed, quoted_time, separator, print_unsigned}
use luminix_experience_platf.Json.Save.Whole.{version_string}
use luminix_experience_platf.Json.Writer.Laws.{string_text, indent_text}

-- a value by the type of its field
unfoldable pub value_text : CLib → Option Field → Bytes
unfolding string_text print_int
value_text c none = codes "null"
value_text c (some field) = elim field.type [
  | type_int ↦ print_int field.value.int_value
  | type_string ↦ string_text (some field.value.string_value)
  | type_float ↦ printed c 32 (c.print_float field.value.float_value)
  | type_double ↦ printed c 32 (c.print_double field.value.double_value)
  | type_bool ↦ if field.value.bool_value then codes "true" else codes "false"
  | type_datetime ↦ quoted_time c field.value.double_value
  | type_null ↦ codes "null"
  | _ ↦ codes "\"\""
]

-- the fields of a record, at a level
unfoldable pub fields_text : CLib → Record → Bool → ℕ → List Column → ℕ → Bytes
unfolding value_text indent_text
fields_text c r p l [] i = []
fields_text c r p l (column ∷ columns) i =
    indent_text p l
    ++ codes "\""
    ++ column.name
    ++ codes "\": "
    ++ value_text c (some (get_or r.fields i no_field))
    ++ separator (length columns)
    ++ fields_text c r p l columns (i + 1)

-- a record
unfoldable pub record_text : CLib → List Column → Bool → ℕ → Record → Bytes
unfolding fields_text indent_text
record_text c columns p l r =
    indent_text p l
    ++ codes "{\n"
    ++ indent_text p (l + 1)
    ++ codes "\"id\": "
    ++ print_int r.id
    ++ codes ",\n"
    ++ indent_text p (l + 1)
    ++ codes "\"fields\": {\n"
    ++ fields_text c r p (l + 1 + 1) columns 0
    ++ indent_text p (l + 1)
    ++ codes "}"
    ++ codes ",\n"
    ++ indent_text p (l + 1)
    ++ codes "\"metadata\": {\n"
    ++ indent_text p (l + 1 + 1)
    ++ codes "\"timestamp\": "
    ++ quoted_time c r.timestamp
    ++ codes ",\n"
    ++ indent_text p (l + 1 + 1)
    ++ codes "\"version\": "
    ++ print_unsigned r.version
    ++ indent_text p (l + 1)
    ++ codes "}"
    ++ indent_text p l
    ++ codes "}"

-- the records, with commas before all but the first
unfoldable pub records_rest : CLib → List Column → Bool → ℕ → Bool → List Record → Bytes
unfolding record_text
records_rest c columns p l first [] = (if first then [] else codes "\n")
records_rest c columns p l first (r ∷ rs) =
    (if first then [] else codes ",\n")
    ++ record_text c columns p l r
    ++ records_rest c columns p l false rs

-- the records of a table
unfoldable pub records_text : CLib → Bool → ℕ → Table → Bytes
unfolding records_rest indent_text
records_text c p l t =
    indent_text p l
    ++ codes "\"records\": [\n"
    ++ records_rest c t.columns p (l + 1) true t.records
    ++ indent_text p l
    ++ codes "]"

-- the names of the constraints
unfoldable pub constraints_text : Constraint → Bytes
constraints_text k =
    (if k.primary_key then codes "\"PRIMARY KEY\"" else [])
    ++ (if k.unique && k.primary_key then codes ", " else [])
    ++ (if k.unique then codes "\"UNIQUE\"" else [])
    ++ (if not k.nullable && (k.primary_key || k.unique) then codes ", " else [])
    ++ (if not k.nullable then codes "\"NOT NULL\"" else [])

-- the constraints, if a column has any but the default
unfoldable pub column_constraints_text : Bool → ℕ → Constraint → Bytes
unfolding constraints_text
column_constraints_text p l k =
    if k.primary_key || k.unique || not k.nullable
    then codes ",\n"
      ++ indent_text p l
      ++ codes "\"constraints\": ["
      ++ constraints_text k
      ++ codes "]"
    else []

-- the columns
unfoldable pub columns_text : Bool → ℕ → List Column → Bytes
unfolding column_constraints_text string_text indent_text
columns_text p l [] = []
columns_text p l (column ∷ columns) =
    indent_text p l
    ++ codes "{\n"
    ++ indent_text p (l + 1)
    ++ codes "\"name\": "
    ++ string_text (some column.name)
    ++ codes ",\n"
    ++ indent_text p (l + 1)
    ++ codes "\"type\": "
    ++ string_text (some (field_type_to_string column.type))
    ++ column_constraints_text p (l + 1) column.constraint
    ++ indent_text p l
    ++ codes "}"
    ++ separator (length columns)
    ++ columns_text p l columns

-- the schema of a table
unfoldable pub schema_text : Bool → ℕ → Table → Bytes
unfolding columns_text string_text indent_text
schema_text p l t =
    indent_text p l
    ++ codes "\"schema\": {\n"
    ++ indent_text p (l + 1)
    ++ codes "\"name\": "
    ++ string_text (some t.name)
    ++ codes ",\n"
    ++ indent_text p (l + 1)
    ++ codes "\"fields\": [\n"
    ++ columns_text p (l + 1 + 1) t.columns
    ++ indent_text p (l + 1)
    ++ codes "],\n"
    ++ indent_text p (l + 1)
    ++ codes "\"record_count\": "
    ++ print_nat t.record_count
    ++ indent_text p l
    ++ codes "}"

-- the metadata
unfoldable pub metadata_text : CLib → ℕ → Option Bytes → Bool → ℕ → Database → Bytes
unfolding string_text indent_text
metadata_text c now name p l db =
    indent_text p l
    ++ codes "\"metadata\": {\n"
    ++ indent_text p (l + 1)
    ++ codes "\"name\": "
    ++ string_text name
    ++ codes ",\n"
    ++ indent_text p (l + 1)
    ++ codes "\"version\": \""
    ++ version_string
    ++ codes "\",\n"
    ++ indent_text p (l + 1)
    ++ codes "\"created_at\": "
    ++ quoted_time c now
    ++ codes ",\n"
    ++ indent_text p (l + 1)
    ++ codes "\"table_count\": "
    ++ print_nat (table_count db)
    ++ codes "\n"
    ++ indent_text p l
    ++ codes "}"

-- the tables
unfoldable pub tables_text : CLib → Bool → ℕ → Bool → List Table → Bytes
unfolding schema_text records_text indent_text
tables_text c p l later [] = []
tables_text c p l later (t ∷ ts) =
    (if later then codes "," else [])
    ++ indent_text p l
    ++ codes "{\n"
    ++ schema_text p (l + 1) t
    ++ codes ",\n"
    ++ records_text c p (l + 1) t
    ++ indent_text p l
    ++ codes "}"
    ++ tables_text c p l true ts

-- the whole text
unfoldable pub database_text : CLib → ℕ → Option Bytes → Bool → ℕ → Database → Bytes
unfolding metadata_text tables_text
database_text c now name p l db =
    codes "{"
    ++ metadata_text c now name p (l + 1) db
    ++ codes ","
    ++ indent_text p (l + 1)
    ++ codes "\"tables\": ["
    ++ tables_text c p (l + 1 + 1) false db.tables
    ++ indent_text p (l + 1)
    ++ codes "]"
    ++ indent_text p l
    ++ codes "}"
