-- ===== src/Json/Row/RoundTrip.antt =====
-- src/json_io.c: json_to_record on the texts of record_to_json.
pub mod Fields
pub mod Whole
use mathlib.Core.Path.{subst}
use luminix_experience_platf.Base.{
  Bool, get_or, ap, sym, ◌∙◌, append_assoc, length, codes, Bytes, ◌==◌, ℕ, zero, suc, ◌+◌, ◌≤◌, ◌<◌,
  true, List, [], ◌∷◌, ◌++◌, Option, none, some, ◌≡◌, refl, arith, if◌then◌else◌,
}
use luminix_experience_platf.Schema.{Column, Record, Field, FieldType, no_field, no_column}
use luminix_experience_platf.Json.{token_object_end}
use luminix_experience_platf.Json.Escape.Laws.{escape_all}
use luminix_experience_platf.Json.Numbers.Laws.{number_ends}
use luminix_experience_platf.Json.Skip.{comma_or_end}
use luminix_experience_platf.Json.Save.{CLib}
use luminix_experience_platf.Json.Save.Texts.{value_text}
use luminix_experience_platf.Json.Writer.Laws.{indent_text}
use luminix_experience_platf.Json.Load.{Union, ReadsBack, json_parse_field_value}
use luminix_experience_platf.Json.Load.Laws.{IsPlain, SameValue}
use luminix_experience_platf.Json.Load.Loops.{parsed, members, key_head, key_follows}
use luminix_experience_platf.Json.Load.Rows.{RecordSoFar, column_index, set_value, value_key}
use luminix_experience_platf.Json.Row.Laws.{line_end, item_text, items_text}
use luminix_experience_platf.Json.Row.RoundTrip.Fields.{
  is_blank, blank_line, number_ends-blank, key_head-text, comma_next, brace_next, round_again,
  round_finished, field_read, length-set_value, set_value_same, set_value_other,
}

module _ (columns : List Column) (r : Record) where
  abbrev pub kept : ℕ → Field
  kept i = get_or r.fields i no_field

  -- Column `i` of the table is found under its name, which has no byte to escape, and the value there
  -- is plain.
  abbrev pub IsReadable : Column → ℕ → Type 0
  IsReadable column i =
      (column_index columns column.name ≡ some i)
      × (get_or columns i no_column ≡ column)
      × (escape_all column.name ≡ column.name)
      × ((kept i).type ≡ column.type)
      × IsPlain column.type (kept i).value

  abbrev pub AreReadable : List Column → ℕ → Type 0
  AreReadable [] i = Unit {0}
  AreReadable (column ∷ cs) i = IsReadable column i × AreReadable cs (i + 1)

  -- the values read are those of the record
  abbrev pub AreRead : List Column → ℕ → List Field → Type 0
  AreRead [] i fs = Unit {0}
  AreRead (column ∷ cs) i fs =
      SameValue column.type (kept i).value (get_or fs i no_field).value × AreRead cs (i + 1) fs

module _ (c : CLib) (u : Union) (back : ReadsBack u) (p : Bool) (columns : List Column)
    (r : Record) where
  abbrev pub Unchanged : ℕ → List Field → List Field → Type 0
  Unchanged i fs gs =
      (length gs ≡ length fs) × ((j : ℕ) → j < i → get_or gs j no_field ≡ get_or fs j no_field)

  value_key_lem :
      (s : RecordSoFar) (name json : Bytes) (i : ℕ)
      → column_index columns name ≡ some i
      → let read : Field × Bytes =
          json_parse_field_value u (get_or columns i no_column).type json in
        value_key u columns s name json
        ≡ some (parsed (record s { field_values = set_value s.field_values i read.0 }) read.1)
  unfolding value_key
  value_key_lem s name json i h = rw (h, value_key) refl

  column_read :
      (s : RecordSoFar) (column : Column) (i : ℕ) (rest : Bytes)
      → IsReadable columns r column i
      → i < length s.field_values
      → number_ends rest ≡ true
      → (fs : List Field) × (value_key u columns s column.name
            (32 ∷ value_text c (some (kept columns r i)) ++ rest)
          ≡ some (parsed (record s { field_values = fs }) rest))
        × SameValue column.type (kept columns r i).value (get_or fs i no_field).value
        × Unchanged i s.field_values fs
  column_read s column i rest (found, same, plain_name, type, plain) room n =
      let json : Bytes = 32 ∷ value_text c (some (kept columns r i)) ++ rest in
      let read : Field × Bytes = json_parse_field_value u column.type json in
      let (value, left) = field_read c u back (kept columns r i) column.type rest type plain n in
      let fs : List Field = set_value s.field_values i read.0 in
      (
        fs,
        value_key_lem s column.name json i found
            ∙ ap
                (λ (k : Column).
                  let q : Field × Bytes = json_parse_field_value u k.type json in
                  some (parsed (record s { field_values = set_value s.field_values i q.0 }) q.1))
                same
            ∙ ap (λ b. some (parsed (record s { field_values = fs }) b)) left,
        subst (SameValue column.type (kept columns r i).value)
            (sym (set_value_same s.field_values i read.0 room)) value,
        (
          length-set_value s.field_values i read.0,
          λ j lt. set_value_other s.field_values i j read.0 lt,
        ),
      )

  regroup :
      (b n v t : Bytes)
      → (b ++ (34 ∷ n ++ (34 ∷ 58 ∷ 32 ∷ v))) ++ t ≡ b ++ (34 ∷ n ++ (34 ∷ 58 ∷ (32 ∷ v ++ t)))
  regroup b n v t = simp (append_assoc)

  item_split :
      (column : Column) (i : ℕ) (t : Bytes)
      → item_text c p r column i ++ t
        ≡ (line_end p ++ indent_text p 2)
          ++ (34 ∷ column.name ++ (34 ∷ 58 ∷ (32 ∷ value_text c (some (kept columns r i)) ++ t)))
  unfolding item_text
  item_split column i t =
      regroup (line_end p ++ indent_text p 2) column.name (value_text c (some (kept columns r i))) t

  item_key :
      (column : Column) (i : ℕ) (t : Bytes)
      → escape_all column.name ≡ column.name
      → key_head (item_text c p r column i ++ t)
        ≡ key_follows column.name (32 ∷ value_text c (some (kept columns r i)) ++ t)
  item_key column i t h =
      ap key_head (item_split column i t)
      ∙ key_head-text (line_end p ++ indent_text p 2) column.name
          (32 ∷ value_text c (some (kept columns r i)) ++ t) (blank_line p 2) h

  comma_first : (i : ℕ) → (if i + 1 == 0 then [] else codes ",") ≡ 44 ∷ []
  comma_first i = ground arith

  pub items_next :
      (column : Column) (cs : List Column) (i : ℕ) (t : Bytes)
      → items_text c p r (column ∷ cs) (i + 1) ++ t
        ≡ 44 ∷ (item_text c p r column (i + 1) ++ (items_text c p r cs (i + 1 + 1) ++ t))
  unfolding items_text
  items_next column cs i t =
      let item : Bytes = item_text c p r column (i + 1) in
      let items : Bytes = items_text c p r cs (i + 1 + 1) in
      ap (λ a. (a ++ (item ++ items)) ++ t) (comma_first i)
      ∙ ap (λ a. 44 ∷ a) (append_assoc item items t)

  items_end : (i : ℕ) → items_text c p r [] (i + 1) ≡ []
  unfolding items_text
  items_end i = refl

  comma_no_number : (t : Bytes) → number_ends (44 ∷ t) ≡ true
  unfolding number_ends
  comma_no_number t = refl

  -- the columns from `column`, which is number `i`, to the closing brace
  abbrev pub ReadsFrom : ℕ → RecordSoFar → Column → List Column → ℕ → Bytes → Bytes → Type 0
  ReadsFrom f s column cs i ws rest =
      (fs : List Field) × (members f (value_key u columns) s
          (item_text c p r column i ++ (items_text c p r cs (i + 1) ++ (ws ++ (125 ∷ rest))))
        ≡ some (parsed (record s { field_values = fs }) rest))
      × AreRead columns r (column ∷ cs) i fs
      × Unchanged i s.field_values fs

  pub fields_read :
      (f : ℕ) (s : RecordSoFar) (column : Column) (cs : List Column) (i : ℕ) (ws rest : Bytes)
      → length cs < f
      → AreReadable columns r (column ∷ cs) i
      → i + length cs < length s.field_values
      → is_blank ws ≡ true
      → ReadsFrom f s column cs i ws rest
  fields_read zero s column cs i ws rest lt ok room b = absurd (omega arith)
  fields_read (suc f) s column [] i ws rest lt ok room b =
      let close : Bytes = ws ++ (125 ∷ rest) in
      let (fs, e, same, kept_others) =
        column_read s column i close ok.0 (omega arith) (number_ends-blank ws rest b) in
      (
        fs,
        ap (λ t. members (suc f) (value_key u columns) s (item_text c p r column i ++ (t ++ close)))
              (items_end i)
            ∙ round_finished (value_key u columns) f s (record s { field_values = fs })
                (item_text c p r column i ++ close) column.name
                (32 ∷ value_text c (some (kept columns r i)) ++ close) close rest
                (item_key column i close ok.0.2) e (brace_next ws rest b),
        (same, tt),
        kept_others,
      )
  fields_read (suc f) s column (d ∷ ds) i ws rest lt ok room b =
      let after : Bytes =
        item_text c p r d (i + 1) ++ (items_text c p r ds (i + 1 + 1) ++ (ws ++ (125 ∷ rest))) in
      let (fs, e, same, kept_others) =
        column_read s column i (44 ∷ after) ok.0 (omega arith) (comma_no_number after) in
      let (gs, e', sames, kept_firsts) =
        fields_read f (record s { field_values = fs }) d ds (i + 1) ws rest (omega arith) ok.1
          (omega (arith, kept_others.0)) b in
      (
        gs,
        ap (λ t. members (suc f) (value_key u columns) s (item_text c p r column i ++ t))
              (items_next d ds i (ws ++ (125 ∷ rest)))
            ∙ round_again (value_key u columns) f s (record s { field_values = fs })
                (item_text c p r column i ++ (44 ∷ after)) column.name
                (32 ∷ value_text c (some (kept columns r i)) ++ (44 ∷ after)) (44 ∷ after) after
                (item_key column i (44 ∷ after) ok.0.2) e (comma_next token_object_end after)
            ∙ e',
        (
          subst (λ (g : Field). SameValue column.type (kept columns r i).value g.value)
              (sym (kept_firsts.1 i (omega arith))) same,
          sames,
        ),
        (kept_firsts.0 ∙ kept_others.0, λ j lt. kept_firsts.1 j (omega arith) ∙ kept_others.1 j lt),
      )
