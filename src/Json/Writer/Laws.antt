-- ===== src/Json/Writer/Laws.antt =====
-- src/json_io.c: what the writers add to the buffer.
use mathlib.Core.Path.{subst}
use luminix_experience_platf.Base.{
  append_assoc, codes, ap, append-nil, sym, ◌∙◌, length-append, length, Bytes, ◌*◌, ℕ, zero, suc,
  ◌+◌, ◌-◌, ◌≤◌, Bool, true, false, not, [], ◌∷◌, ◌++◌, Option, none, some, ◌≡◌, refl, arith,
  if◌then◌else◌,
}
use luminix_experience_platf.Json.Escape.{json_escape_string_alloc}
use luminix_experience_platf.Json.Escape.Laws.{escape_all, json_escape_string_alloc_lem}
use luminix_experience_platf.Json.Writer.{
  JsonSerializeState, size, json_serialize_append, Writer, ◌>>◌, allocate,
  json_serialize_append_string, nothing, append_spaces, json_indent_size, json_serialize_indent,
  indent_more, indent_less,
}
use luminix_experience_platf.Json.Writer.Room.{IsReady, text_limit, ensure_capacity_lem}

-- `After s l text s'`: the writer has added the text, set the level to `l`, and kept the rest
pub record After (s : JsonSerializeState) (l : ℕ) (text : Bytes) (s' : JsonSerializeState)
    : Type 0 where
  pub buffer : s'.buffer ≡ s.buffer ++ text
  pub level : s'.indent_level ≡ l
  pub pretty : s'.pretty ≡ s.pretty
  pub ready : IsReady s'

-- From a level and with a setting of `pretty`, the writer succeeds and adds the text, unless the
-- whole grows beyond the limit.
abbrev pub Prints : Bool → Writer → ℕ → ℕ → Bytes → Type 0
Prints p m l l' text =
    (s : JsonSerializeState)
    → IsReady s
    → s.pretty ≡ p
    → s.indent_level ≡ l
    → size s + length text ≤ text_limit
    → (s' : JsonSerializeState) × (m s ≡ some s') × After s l' text s'

pub Prints-append : (p : Bool) (l : ℕ) (str : Bytes) → Prints p (json_serialize_append str) l l str
unfolding json_serialize_append
Prints-append p l str s r hp hl h =
    let (c, e, enough, most) = ensure_capacity_lem (length str) s r h in
    (
      record s { capacity = c; buffer = s.buffer ++ str },
      rw (e, json_serialize_append) refl,
      record {
        buffer = refl;
        level = hl;
        pretty = refl;
        ready = record {
          room = omega (arith, length-append s.buffer str);
          bounded = omega (arith, length-append s.buffer str);
          granted = r.granted;
        };
      },
    )

seq_step :
    (m n : Writer) (s s1 s2 : JsonSerializeState)
    → m s ≡ some s1
    → n s1 ≡ some s2
    → (m >> n) s ≡ some s2
seq_step m n s s1 s2 e1 e2 = rw (e1, ◌>>◌) e2

pub Prints-seq :
    {p : Bool} {m n : Writer} {l k j : ℕ} {t u : Bytes}
    → Prints p m l k t
    → Prints p n k j u
    → Prints p (m >> n) l j (t ++ u)
Prints-seq {m = m} {n = n} {t = t} {u = u} hm hn s r hp hl h =
    let (s1, e1, a1) = hm s r hp hl (omega (arith, length-append t u)) in
    let (s2, e2, a2) =
      hn s1 a1.ready (a1.pretty ∙ hp) a1.level
        (ground (arith, length-append t u, length-append s.buffer t, a1.buffer)) in
    (
      s2,
      seq_step m n s s1 s2 e1 e2,
      record {
        buffer = a2.buffer ∙ ap (λ b. b ++ u) a1.buffer ∙ append_assoc s.buffer t u;
        level = a2.level;
        pretty = a2.pretty ∙ a1.pretty;
        ready = a2.ready;
      },
    )

pub Prints-allocate : (p : Bool) (l n : ℕ) → Prints p (allocate n) l l []
Prints-allocate p l n s r hp hl h = (
  s,
  rw (r.granted n) refl,
  record { buffer = sym (append-nil s.buffer); level = hl; pretty = refl; ready = r },
)

pub Prints-more : (p : Bool) (l : ℕ) → Prints p indent_more l (l + 1) []
Prints-more p l s r hp hl h = (
  record s { indent_level = s.indent_level + 1 },
  refl,
  record {
    buffer = sym (append-nil s.buffer);
    level = omega arith;
    pretty = refl;
    ready = record { room = r.room; bounded = r.bounded; granted = r.granted };
  },
)

pub Prints-less : (p : Bool) (l : ℕ) → Prints p indent_less (l + 1) l []
Prints-less p l s r hp hl h = (
  record s { indent_level = s.indent_level - 1 },
  refl,
  record {
    buffer = sym (append-nil s.buffer);
    level = omega arith;
    pretty = refl;
    ready = record { room = r.room; bounded = r.bounded; granted = r.granted };
  },
)

infixl 5 ◌⨾◌
pub ◌⨾◌ :
    {p : Bool} {m n : Writer} {l k j : ℕ} {t u : Bytes}
    → Prints p m l k t
    → Prints p n k j u
    → Prints p (m >> n) l j (t ++ u)
◌⨾◌ hm hn = Prints-seq hm hn

pub Prints-eq :
    {p : Bool} {m : Writer} {l k : ℕ} {t u : Bytes} → t ≡ u → Prints p m l k t → Prints p m l k u
Prints-eq {p} {m} {l} {k} e h = subst (Prints p m l k) e h

-- a change of the level adds no text
pub then_more :
    {p : Bool} {m : Writer} {l k : ℕ} {t : Bytes}
    → Prints p m l k t
    → Prints p (m >> indent_more) l (k + 1) t
then_more {p} {k = k} {t = t} h = Prints-eq (append-nil t) (h ⨾ Prints-more p k)

pub then_less :
    {p : Bool} {m : Writer} {l k : ℕ} {t : Bytes}
    → Prints p m l (k + 1) t
    → Prints p (m >> indent_less) l k t
then_less {p} {k = k} {t = t} h = Prints-eq (append-nil t) (h ⨾ Prints-less p k)

pub Prints-nothing : (p : Bool) (l : ℕ) → Prints p nothing l l []
Prints-nothing p l s r hp hl h =
    (s, refl, record { buffer = sym (append-nil s.buffer); level = hl; pretty = refl; ready = r })

-- a string of the text, in quotes, or `null`
unfoldable pub string_text : Option Bytes → Bytes
unfolding escape_all
string_text none = codes "null"
string_text (some str) = codes "\"" ++ escape_all str ++ codes "\""

pub Prints-append_string :
    (p : Bool) (l : ℕ) (str : Option Bytes)
    → Prints p (json_serialize_append_string str) l l (string_text str)
unfolding json_serialize_append_string string_text
Prints-append_string p l none = Prints-append p l (codes "null")
Prints-append_string p l (some str) =
    Prints-eq (ap (λ e. codes "\"" ++ e ++ codes "\"") (json_escape_string_alloc_lem str)) (
      Prints-allocate p l (length str * 6 + 1)
      ⨾ Prints-append p l (codes "\"")
      ⨾ Prints-append p l (json_escape_string_alloc str)
      ⨾ Prints-append p l (codes "\""))

unfoldable pub spaces : ℕ → Bytes
spaces zero = []
spaces (suc n) = 32 ∷ spaces n

Prints-spaces : (p : Bool) (l n : ℕ) → Prints p (append_spaces n) l l (spaces n)
unfolding append_spaces spaces
Prints-spaces p l zero = Prints-nothing p l
Prints-spaces p l (suc n) = Prints-append p l (codes " ") ⨾ Prints-spaces p l n

-- a new line with the indentation of a level, if the text is pretty
unfoldable pub indent_text : Bool → ℕ → Bytes
unfolding spaces
indent_text p l = if p then 10 ∷ spaces (l * json_indent_size) else []

indent_open :
    (s : JsonSerializeState) (p : Bool) (l : ℕ)
    → s.pretty ≡ p
    → s.indent_level ≡ l
    → json_serialize_indent s ≡ (
        if not p
        then some s
        else (json_serialize_append (codes "\n") >> append_spaces (l * json_indent_size)) s)
unfolding json_serialize_indent
indent_open s p l hp hl =
    ap
      (λ b.
        if not b
        then some s
        else (json_serialize_append (codes "\n")
              >> append_spaces (s.indent_level * json_indent_size))
            s)
      hp
    ∙ ap
        (λ k.
          if not p
          then some s
          else (json_serialize_append (codes "\n") >> append_spaces (k * json_indent_size)) s)
        hl

pub Prints-indent : (p : Bool) (l : ℕ) → Prints p json_serialize_indent l l (indent_text p l)
unfolding indent_text
Prints-indent false l s r hp hl h = (
  s,
  indent_open s false l hp hl,
  record { buffer = sym (append-nil s.buffer); level = hl; pretty = refl; ready = r },
)
Prints-indent true l s r hp hl h =
    let (s', e, a) =
      (Prints-append true l (codes "\n") ⨾ Prints-spaces true l (l * json_indent_size)) s r hp hl
        h in
    (s', indent_open s true l hp hl ∙ e, a)

pub Prints-if :
    {p : Bool} {m n : Writer} {l k : ℕ} {t u : Bytes} (b : Bool)
    → Prints p m l k t
    → Prints p n l k u
    → Prints p (if b then m else n) l k (if b then t else u)
Prints-if true hm hn = hm
Prints-if false hm hn = hn
