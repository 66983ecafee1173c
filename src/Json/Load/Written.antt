-- ===== src/Json/Load/Written.antt =====
-- src/json_io.c: json_parse_field_value on what json_serialize_field_value has written.
use mathlib.Core.Path.{subst}
use luminix_experience_platf.Base.{sym, ◌+◌, ◌≤◌, true, ◌++◌, some, ◌≡◌, refl}
use luminix_experience_platf.Base.{take, length, Bytes}
use luminix_experience_platf.Schema.{FieldType, type_string, Field, FieldValue, max_field_chars}
use luminix_experience_platf.Json.Escape.{json_escape_string_alloc}
use luminix_experience_platf.Json.Escape.Laws.{escape_all, json_escape_string_alloc_lem}
use luminix_experience_platf.Json.Numbers.Laws.{number_ends}
use luminix_experience_platf.Json.Writer.{JsonSerializeState, size}
use luminix_experience_platf.Json.Writer.Room.{IsReady, text_limit}
use luminix_experience_platf.Json.Save.{CLib, json_serialize_field_value}
use luminix_experience_platf.Json.Save.Texts.{value_text}
use luminix_experience_platf.Json.Save.Laws.{Prints-field_value}
use luminix_experience_platf.Json.Load.{Union, ReadsBack, json_parse_field_value}
use luminix_experience_platf.Json.Load.Laws.{
  IsPlain, SameValue, json_parse_field_value-value_text, reread_string,
}

-- The serializer succeeds, and what it adds to the buffer, followed by `rest`, is read as a field
-- of the type with the property.
abbrev pub WritesAndReads :
    CLib
    → Union
    → JsonSerializeState
    → Field
    → FieldType
    → Bytes
    → (Field × Bytes → Type 0)
    → Type 0
WritesAndReads c u s f type rest P =
    (s' : JsonSerializeState) × (text : Bytes) × (json_serialize_field_value c (some f) s ≡ some s')
    × (s'.buffer ≡ s.buffer ++ text)
    × P (json_parse_field_value u type (text ++ rest))

written :
    (c : CLib) (u : Union) (s : JsonSerializeState) (f : Field) (type : FieldType) (rest : Bytes)
    (P : Field × Bytes → Type 0)
    → IsReady s
    → size s + length (value_text c (some f)) ≤ text_limit
    → P (json_parse_field_value u type (value_text c (some f) ++ rest))
    → WritesAndReads c u s f type rest P
written c u s f type rest P ready room h =
    let (s', e, a) = Prints-field_value c s.pretty s.indent_level (some f) s ready refl refl room in
    (s', value_text c (some f), e, a.buffer, h)

-- what is read back: the value as it was, or a text cut to 255 bytes
abbrev pub IsSame : FieldType → FieldValue → Bytes → Field × Bytes → Type 0
IsSame type v rest r = (r.0.type ≡ type) × SameValue type v r.0.value × (r.1 ≡ rest)

abbrev pub IsText : Bytes → Bytes → Field × Bytes → Type 0
IsText text rest r =
    (r.0.type ≡ type_string) × (r.0.value.string_value ≡ take max_field_chars text) × (r.1 ≡ rest)

module _ (c : CLib) (u : Union) (back : ReadsBack u) (s : JsonSerializeState)
    (ready : IsReady s) where
  -- If memory is granted, the buffer does not grow beyond its limit, and a member of the union
  -- reads as what was written to it: `json_serialize_field_value` succeeds, and what it adds to the
  -- buffer for an `int`, a Boolean, a NULL, or a string of at most 255 bytes without a byte to
  -- escape is read by `json_parse_field_value` as that type and value; what follows it is left, if
  -- it does not go on with a number.
  pub json_parse_field_value-json_serialize_field_value :
      (name rest : Bytes) (type : FieldType) (v : FieldValue)
      → IsPlain type v
      → number_ends rest ≡ true
      → let f : Field = record { name = name; type = type; value = v } in
        size s + length (value_text c (some f)) ≤ text_limit
        → WritesAndReads c u s f type rest (IsSame type v rest)
  json_parse_field_value-json_serialize_field_value name rest type v plain e room =
      written c u s (record { name = name; type = type; value = v }) type rest (IsSame type v rest)
        ready room (json_parse_field_value-value_text c u back name rest type v plain e)

  -- If memory is granted, the buffer does not grow beyond its limit, and a member of the union
  -- reads as what was written to it: `json_serialize_field_value` succeeds, and what it adds to the
  -- buffer for a string is read by `json_parse_field_value` as the text that
  -- `json_escape_string_alloc` makes of it, cut to 255 bytes: the escapes stay in.
  pub reread_escaped :
      (name rest : Bytes) (v : FieldValue)
      → let f : Field = record { name = name; type = type_string; value = v } in
        size s + length (value_text c (some f)) ≤ text_limit
        → WritesAndReads c u s f type_string rest
            (IsText (json_escape_string_alloc v.string_value) rest)
  reread_escaped name rest v room =
      let f : Field = record { name = name; type = type_string; value = v } in
      subst (λ t. WritesAndReads c u s f type_string rest (IsText t rest))
        (sym (json_escape_string_alloc_lem v.string_value))
        (written c u s f type_string rest (IsText (escape_all v.string_value) rest) ready room
          (reread_string c u back name rest v))
