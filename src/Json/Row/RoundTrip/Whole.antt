-- ===== src/Json/Row/RoundTrip/Whole.antt =====
-- src/json_io.c: json_to_record on the whole text of a record.
use mathlib.Core.Path.{subst}
use luminix_experience_platf.Json.Escape.{escape_char}
use luminix_experience_platf.Json.Escape.Laws.{escape_all}
use luminix_experience_platf.Base.{
  str_eq, ℕ, zero, suc, ◌+◌, ◌≤◌, ◌<◌, ℤ, pos, Bool, true, false, List, [], ◌∷◌, ◌++◌, some, ◌≡◌,
  refl, arith,
}
use luminix_experience_platf.Base.{
  int_min, int_max, ◌≤ℤ◌, eqb_ℤ, minus_one, append_assoc, ap, sym, ◌∙◌, length, length-append,
  codes, Bytes,
}
use luminix_experience_platf.Schema.{Column, Record, Field, Table, Env}
use luminix_experience_platf.Json.{
  token_object_start, mark, token_object_end, json_parse_token, json_skip_whitespace, token_at,
}
use luminix_experience_platf.Json.Numbers.{print_int}
use luminix_experience_platf.Json.Numbers.Laws.{
  number_ends, json_parse_token-print_int, atoi-print_int,
}
use luminix_experience_platf.Json.Save.{CLib}
use luminix_experience_platf.Json.Writer.Laws.{indent_text}
use luminix_experience_platf.Json.Writer.Room.{text_limit}
use luminix_experience_platf.Json.Load.{Union, ReadsBack}
use luminix_experience_platf.Json.Load.Loops.{parsed, members, key_head, read_members}
use luminix_experience_platf.Json.Load.Rows.{RecordSoFar, value_key}
use luminix_experience_platf.Json.Row.{
  row_key, blank_fields, json_to_record, record_to_json, finish_row, made_row,
}
use luminix_experience_platf.Json.Row.Laws.{
  line_end, item_text, items_text, row_text, record_to_json_lem,
}
use luminix_experience_platf.Json.Row.RoundTrip.Fields.{
  is_blank, blank_line, blank_indent, parse_blank, key_head-text, comma_next, brace_next,
  round_again, round_finished,
}
use luminix_experience_platf.Json.Row.RoundTrip.{AreReadable, AreRead, fields_read, items_next}

length-blank_fields : (cs : List Column) → length (blank_fields cs) ≡ length cs
unfolding blank_fields
length-blank_fields [] = refl
length-blank_fields (c ∷ cs) = ap suc (length-blank_fields cs)

-- the `id` member
id_read :
    (u : Union) (columns : List Column) (s : RecordSoFar) (id : ℤ) (t : Bytes)
    → int_min ≤ℤ id
    → id ≤ℤ int_max
    → row_key u columns s (codes "id") (32 ∷ print_int id ++ (44 ∷ t))
      ≡ some (parsed (record s { record_id = id }) (44 ∷ t))
unfolding row_key str_eq number_ends is_blank
id_read u columns s id t lo hi =
    rw
      (
        parse_blank (32 ∷ []) (print_int id ++ (44 ∷ t)) refl
            ∙ json_parse_token-print_int id (44 ∷ t) refl,
        row_key,
      )
      (rw (atoi-print_int id lo hi) refl)

-- the `fields` member
fields_opened :
    (u : Union) (columns : List Column) (s : RecordSoFar) (t : Bytes)
    → row_key u columns s (codes "fields") (32 ∷ 123 ∷ t) ≡ read_members (value_key u columns) s t
unfolding row_key str_eq json_parse_token json_skip_whitespace token_at
fields_opened u columns s t = refl

plain_id : escape_all (codes "id") ≡ codes "id"
unfolding escape_all escape_char
plain_id = refl

plain_fields : escape_all (codes "fields") ≡ codes "fields"
unfolding escape_all escape_char
plain_fields = refl

module _ (c : CLib) (u : Union) (back : ReadsBack u) (p : Bool) (columns : List Column)
    (r : Record) where
  length-items :
      (cs : List Column) (i : ℕ) (t : Bytes)
      → length cs + length t ≤ length (items_text c p r cs (i + 1) ++ t)
  unfolding items_text
  length-items [] i t = omega arith
  length-items (d ∷ ds) i t =
      let after : Bytes = items_text c p r ds (i + 1 + 1) ++ t in
      rw (items_next c u back p columns r d ds i t)
        (omega (arith, length-append (item_text c p r d (i + 1)) after, length-items ds (i + 1) t))

  items_first :
      (d : Column) (ds : List Column) (t : Bytes)
      → items_text c p r (d ∷ ds) 0 ++ t ≡ item_text c p r d 0 ++ (items_text c p r ds (0 + 1) ++ t)
  unfolding items_text
  items_first d ds t = append_assoc (item_text c p r d 0) (items_text c p r ds (0 + 1)) t

  abbrev ReadsAll : ℕ → RecordSoFar → Column → List Column → Bytes → Bytes → Type 0
  ReadsAll f s d ds ws rest =
      (fs : List Field) × (members f (value_key u columns) s
          (items_text c p r (d ∷ ds) 0 ++ (ws ++ (125 ∷ rest)))
        ≡ some (parsed (record s { field_values = fs }) rest))
      × AreRead columns r (d ∷ ds) 0 fs
      × (length fs ≡ length s.field_values)

  all_read :
      (s : RecordSoFar) (d : Column) (ds : List Column) (ws rest : Bytes)
      → AreReadable columns r (d ∷ ds) 0
      → length ds < length s.field_values
      → is_blank ws ≡ true
      → ReadsAll (suc (length (items_text c p r (d ∷ ds) 0 ++ (ws ++ (125 ∷ rest))))) s d ds ws rest
  all_read s d ds ws rest ok room b =
      let close : Bytes = ws ++ (125 ∷ rest) in
      let body : Bytes = items_text c p r (d ∷ ds) 0 ++ close in
      let enough : length ds < suc (length body) = omega (
        arith,
        ap (length {A = ℕ}) (items_first d ds close),
        length-append (item_text c p r d 0) (items_text c p r ds (0 + 1) ++ close),
        length-items ds 0 close,
      ) in
      let (fs, e, same, unchanged) =
        fields_read c u back p columns r (suc (length body)) s d ds 0 ws rest enough ok
          (omega arith) b in
      (
        fs,
        ap (members (suc (length body)) (value_key u columns) s) (items_first d ds close) ∙ e,
        same,
        unchanged.0,
      )

  abbrev after_id : Bytes
  after_id =
      (line_end p ++ indent_text p 1)
      ++ (codes "\"fields\": {"
          ++ (items_text c p r columns 0
              ++ ((line_end p ++ indent_text p 1)
                  ++ (codes "}" ++ ((line_end p ++ indent_text p 0) ++ codes "}")))))

  starts :
      row_text c p columns r
      ≡ indent_text p 1 ++ (34 ∷ codes "id" ++ (34 ∷ 58 ∷ (32 ∷ print_int r.id ++ (44 ∷ after_id))))
  unfolding row_text
  starts = refl

  id_round :
      (f : ℕ) (s : RecordSoFar)
      → int_min ≤ℤ r.id
      → r.id ≤ℤ int_max
      → members (suc f) (row_key u columns) s (row_text c p columns r)
        ≡ members f (row_key u columns) (record s { record_id = r.id }) after_id
  id_round f s lo hi =
      round_again (row_key u columns) f s (record s { record_id = r.id }) (row_text c p columns r)
        (codes "id") (32 ∷ print_int r.id ++ (44 ∷ after_id)) (44 ∷ after_id) after_id
        (ap key_head starts
          ∙ key_head-text (indent_text p 1) (codes "id") (32 ∷ print_int r.id ++ (44 ∷ after_id))
              (blank_indent p 1) plain_id)
        (id_read u columns s r.id after_id lo hi) (comma_next token_object_end after_id)

  fields_round :
      (f : ℕ) (s : RecordSoFar) (d : Column) (ds : List Column)
      → columns ≡ d ∷ ds
      → AreReadable columns r (d ∷ ds) 0
      → length ds < length s.field_values
      → (fs : List Field) × (members (suc f) (row_key u columns) s after_id
          ≡ some (parsed (record s { field_values = fs }) []))
        × AreRead columns r (d ∷ ds) 0 fs
        × (length fs ≡ length s.field_values)
  fields_round f s d ds e ok room =
      let last : Bytes = (line_end p ++ indent_text p 0) ++ codes "}" in
      let ws : Bytes = line_end p ++ indent_text p 1 in
      let text : Bytes = items_text c p r columns 0 ++ (ws ++ (125 ∷ last)) in
      let (fs, read, same, long) = all_read s d ds ws last ok room (blank_line p 1) in
      (
        fs,
        round_finished (row_key u columns) f s (record s { field_values = fs }) after_id
            (codes "fields") (32 ∷ 123 ∷ text) last []
            (key_head-text ws (codes "fields") (32 ∷ 123 ∷ text) (blank_line p 1) plain_fields)
            (fields_opened u columns s text
              ∙ ap
                  (λ k.
                    members (suc (length (items_text c p r k 0 ++ (ws ++ (125 ∷ last)))))
                      (value_key u columns) s (items_text c p r k 0 ++ (ws ++ (125 ∷ last))))
                  e
              ∙ read)
            (brace_next (line_end p ++ indent_text p 0) [] (blank_line p 0)),
        same,
        long,
      )

  row_members :
      (n : ℕ) (s : RecordSoFar) (d : Column) (ds : List Column)
      → 1 ≤ n
      → columns ≡ d ∷ ds
      → int_min ≤ℤ r.id
      → r.id ≤ℤ int_max
      → AreReadable columns r (d ∷ ds) 0
      → length ds < length s.field_values
      → (fs : List Field) × (members (suc n) (row_key u columns) s (row_text c p columns r)
          ≡ some (parsed (record { record_id = r.id; field_values = fs }) []))
        × AreRead columns r (d ∷ ds) 0 fs
        × (length fs ≡ length s.field_values)
  row_members zero s d ds few e lo hi ok room = absurd (omega arith)
  row_members (suc f) s d ds few e lo hi ok room =
      let (fs, read, same, long) = fields_round f (record s { record_id = r.id }) d ds e ok room in
      (fs, id_round (suc f) s lo hi ∙ read, same, long)

  length-row_text : 1 ≤ length (row_text c p columns r)
  length-row_text = omega (
    arith,
    ap (length {A = ℕ}) starts,
    length-append (indent_text p 1)
        (34 ∷ codes "id" ++ (34 ∷ 58 ∷ (32 ∷ print_int r.id ++ (44 ∷ after_id)))),
  )

head_of : (cs : List Column) → 0 < length cs → (d : Column) × (ds : List Column) × (cs ≡ d ∷ ds)
head_of [] h = absurd (omega arith)
head_of (d ∷ ds) h = (d, ds, refl)

object_token : (rest : Bytes) → json_parse_token (123 ∷ rest) ≡ (mark token_object_start, rest)
unfolding json_parse_token json_skip_whitespace token_at
object_token rest = refl

json_to_record_lem :
    (env : Env) (u : Union) (t : Table) (rest : Bytes)
    → json_to_record env u (some (123 ∷ rest)) (some t)
      ≡ made_row env t.columns (
          read_members
            (row_key u t.columns)
            (record { record_id = minus_one; field_values = blank_fields t.columns })
            rest)
unfolding json_to_record
json_to_record_lem env u t rest = rw (object_token rest, json_to_record) refl

finish_row_lem :
    (env : Env) (columns : List Column) (id : ℤ) (fs : List Field)
    → eqb_ℤ id minus_one ≡ false
    → env.alloc 0 ≡ true
    → finish_row env columns (record { record_id = id; field_values = fs })
      ≡ some (record {
        id = id;
        fields = fs;
        field_count = length columns;
        timestamp = env.now;
        version = pos 1;
      })
finish_row_lem env columns id fs h a = rw (h, a) refl

-- If memory is granted, a member of the union reads as what was written to it, the text is not too
-- long, the id of the record is an `int` other than -1, and the table has columns, each found under
-- its name, which has no byte to escape, with a plain value of its type in the record (an `int`, a
-- Boolean, NULL, or a string of at most 255 bytes without a byte to escape): `record_to_json`,
-- pretty or not, returns a text, from which `json_to_record` makes a record with the same id, a
-- field for each column, and the same values.
pub json_to_record-record_to_json :
    (c : CLib) (u : Union) (env : Env) (grants : ℕ → Bool) (p : Bool) (r : Record) (t : Table)
    → ReadsBack u
    → env.alloc 0 ≡ true
    → ((n : ℕ) → grants n ≡ true)
    → length (row_text c p t.columns r) < text_limit
    → int_min ≤ℤ r.id
    → r.id ≤ℤ int_max
    → eqb_ℤ r.id minus_one ≡ false
    → 0 < length t.columns
    → AreReadable t.columns r t.columns 0
    → (text : Bytes) × (r' : Record) × (record_to_json c grants p (some r) (some t) ≡ some text)
      × (json_to_record env u (some text) (some t) ≡ some (some r'))
      × (r'.id ≡ r.id)
      × (length r'.fields ≡ length t.columns)
      × AreRead t.columns r t.columns 0 r'.fields
json_to_record-record_to_json c u env grants p r t back a g short lo hi some_id p0 ok =
    let (d, ds, e) = head_of t.columns p0 in
    let start : RecordSoFar = record {
      record_id = minus_one;
      field_values = blank_fields t.columns;
    } in
    let (fs, read, same, long) =
      row_members c u back p t.columns r (length (row_text c p t.columns r)) start d ds
        (length-row_text c u back p t.columns r) e lo hi
        (subst (λ k. AreReadable t.columns r k 0) e ok)
        (omega (arith, length-blank_fields t.columns, ap (length {A = Column}) e)) in
    (
      123 ∷ row_text c p t.columns r,
      record {
        id = r.id;
        fields = fs;
        field_count = length t.columns;
        timestamp = env.now;
        version = pos 1;
      },
      record_to_json_lem c grants p r t g short,
      json_to_record_lem env u t (row_text c p t.columns r)
          ∙ ap (made_row env t.columns) read
          ∙ ap some (finish_row_lem env t.columns r.id fs some_id a),
      refl,
      long ∙ length-blank_fields t.columns,
      subst (λ k. AreRead t.columns r k 0 fs) (sym e) same,
    )
