-- ===== src/Json/Row/Laws.antt =====
-- src/json_io.c: what record_to_json writes.
use luminix_experience_platf.Base.{
  ◌∙◌, get_or, append_assoc, ap, length, codes, Bytes, ◌==◌, ℕ, ◌+◌, ◌<◌, Bool, true, false, List,
  [], ◌∷◌, ◌++◌, some, ◌≡◌, refl, arith, if◌then◌else◌,
}
use luminix_experience_platf.Schema.{Column, Record, Table, no_field}
use luminix_experience_platf.Json.Numbers.{print_int}
use luminix_experience_platf.Json.Writer.{JsonSerializeState, Writer}
use luminix_experience_platf.Json.Writer.Room.{IsReady, text_limit}
use luminix_experience_platf.Json.Writer.Laws.{
  Prints, ◌⨾◌, then_more, then_less, Prints-append, Prints-indent, Prints-nothing, Prints-if,
  Prints-eq, indent_text,
}
use luminix_experience_platf.Json.Save.{CLib}
use luminix_experience_platf.Json.Save.Texts.{value_text}
use luminix_experience_platf.Json.Save.Laws.{Prints-field_value}
use luminix_experience_platf.Json.Save.Whole.{json_buffer_size}
use luminix_experience_platf.Json.Row.{when_pretty, row_fields, serialize_row, record_to_json}

-- a new line, if the text is pretty
abbrev pub line_end : Bool → Bytes
line_end p = if p then codes "\n" else []

Prints-when_pretty :
    {m : Writer} {t : Bytes} (p : Bool) (l : ℕ)
    → Prints p m l l t
    → Prints p (when_pretty m) l l (if p then t else [])
Prints-when_pretty {m} {t} true l h s r hp hl n =
    let (s', e, a) = h s r hp hl n in (s', ap (λ b. if b then m s else some s) hp ∙ e, a)
Prints-when_pretty {m} {t} false l h s r hp hl n =
    let (s', e, a) = Prints-nothing false l s r hp hl n in
    (s', ap (λ b. if b then m s else some s) hp ∙ e, a)

-- a column and its value
unfoldable pub item_text : CLib → Bool → Record → Column → ℕ → Bytes
unfolding value_text indent_text
item_text c p r column i =
    (line_end p ++ indent_text p 2)
    ++ (34 ∷ column.name ++ (34 ∷ 58 ∷ 32 ∷ value_text c (some (get_or r.fields i no_field))))

unfoldable pub items_text : CLib → Bool → Record → List Column → ℕ → Bytes
unfolding item_text
items_text c p r [] i = []
items_text c p r (column ∷ columns) i =
    (if i == 0 then [] else codes ",")
    ++ (item_text c p r column i ++ items_text c p r columns (i + 1))

regroup_item :
    (a b e n v f : Bytes)
    → a ++ b ++ e ++ codes "\"" ++ n ++ codes "\": " ++ v ++ f
      ≡ a ++ (((b ++ e) ++ (34 ∷ n ++ (34 ∷ 58 ∷ 32 ∷ v))) ++ f)
regroup_item a b e n v f = simp (append_assoc)

Prints-row_fields :
    (c : CLib) (p : Bool) (r : Record) (columns : List Column) (i : ℕ)
    → Prints p (row_fields c r columns i) 2 2 (items_text c p r columns i)
unfolding row_fields items_text item_text
Prints-row_fields c p r [] i = Prints-nothing p 2
Prints-row_fields c p r (column ∷ columns) i =
    Prints-eq
      (regroup_item (if i == 0 then [] else codes ",") (line_end p) (indent_text p 2) column.name
        (value_text c (some (get_or r.fields i no_field))) (items_text c p r columns (i + 1)))
      (Prints-if (i == 0) (Prints-nothing p 2) (Prints-append p 2 (codes ","))
        ⨾ Prints-when_pretty p 2 (Prints-append p 2 (codes "\n"))
        ⨾ Prints-indent p 2
        ⨾ Prints-append p 2 (codes "\"")
        ⨾ Prints-append p 2 column.name
        ⨾ Prints-append p 2 (codes "\": ")
        ⨾ Prints-field_value c p 2 (some (get_or r.fields i no_field))
        ⨾ Prints-row_fields c p r columns (i + 1))

-- the text of a record, without its opening brace
unfoldable pub row_text : CLib → Bool → List Column → Record → Bytes
unfolding items_text print_int indent_text
row_text c p columns r =
    indent_text p 1
    ++ (codes "\"id\": "
        ++ (print_int r.id
            ++ (codes ","
                ++ ((line_end p ++ indent_text p 1)
                    ++ (codes "\"fields\": {"
                        ++ (items_text c p r columns 0
                            ++ ((line_end p ++ indent_text p 1)
                                ++ (codes "}"
                                    ++ ((line_end p ++ indent_text p 0) ++ codes "}")))))))))

regroup_row :
    (i1 n e f i0 : Bytes)
    → codes "{"
        ++ i1
        ++ codes "\"id\": "
        ++ n
        ++ codes ","
        ++ e
        ++ i1
        ++ codes "\"fields\": {"
        ++ f
        ++ e
        ++ i1
        ++ codes "}"
        ++ e
        ++ i0
        ++ codes "}"
      ≡ 123
        ∷ (i1
            ++ (codes "\"id\": "
                ++ (n
                    ++ (codes ","
                        ++ ((e ++ i1)
                            ++ (codes "\"fields\": {"
                                ++ (f
                                    ++ ((e ++ i1) ++ (codes "}" ++ ((e ++ i0) ++ codes "}"))))))))))
regroup_row i1 n e f i0 = simp (append_assoc)

Prints-row :
    (c : CLib) (p : Bool) (columns : List Column) (r : Record)
    → Prints p (serialize_row c columns r) 0 0 (123 ∷ row_text c p columns r)
unfolding serialize_row row_text
Prints-row c p columns r =
    Prints-eq
      (regroup_row (indent_text p 1) (print_int r.id) (line_end p) (items_text c p r columns 0)
        (indent_text p 0))
      (then_less (
          then_less (
            then_more (
              then_more (Prints-append p 0 (codes "{"))
              ⨾ Prints-indent p 1
              ⨾ Prints-append p 1 (codes "\"id\": ")
              ⨾ Prints-append p 1 (print_int r.id)
              ⨾ Prints-append p 1 (codes ",")
              ⨾ Prints-when_pretty p 1 (Prints-append p 1 (codes "\n"))
              ⨾ Prints-indent p 1
              ⨾ Prints-append p 1 (codes "\"fields\": {"))
            ⨾ Prints-row_fields c p r columns 0
            ⨾ Prints-when_pretty p 2 (Prints-append p 2 (codes "\n")))
          ⨾ Prints-indent p 1
          ⨾ Prints-append p 1 (codes "}"))
        ⨾ Prints-when_pretty p 0 (Prints-append p 0 (codes "\n"))
        ⨾ Prints-indent p 0
        ⨾ Prints-append p 0 (codes "}"))

-- With memory granted, record_to_json returns the text of the record.
pub record_to_json_lem :
    (c : CLib) (grants : ℕ → Bool) (p : Bool) (r : Record) (t : Table)
    → ((n : ℕ) → grants n ≡ true)
    → length (row_text c p t.columns r) < text_limit
    → record_to_json c grants p (some r) (some t) ≡ some (123 ∷ row_text c p t.columns r)
unfolding record_to_json
record_to_json_lem c grants p r t g h =
    let start : JsonSerializeState = record {
      buffer = [];
      capacity = json_buffer_size;
      indent_level = 0;
      pretty = p;
      grants = grants;
    } in
    let ready : IsReady start = record { room = omega arith; bounded = omega arith; granted = g } in
    let (s, e, a) = Prints-row c p t.columns r start ready refl refl (omega arith) in
    rw (g json_buffer_size, e, a.buffer, record_to_json) refl
