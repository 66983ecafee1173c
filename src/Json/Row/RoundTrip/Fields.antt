-- ===== src/Json/Row/RoundTrip/Fields.antt =====
-- src/json_io.c: the parsers on the texts of keys, separators and values.
use mathlib.Core.Path.{subst}
use luminix_experience_platf.Base.{
  ◌∙◌, is_space, ap, length, get_or, Bytes, ◌*◌, ℕ, zero, suc, ◌<◌, Bool, true, false, ◌&&◌, List,
  [], ◌∷◌, ◌++◌, some, ◌≡◌, refl, arith,
}
use luminix_experience_platf.Schema.{Field, FieldType, no_field}
use luminix_experience_platf.Json.{
  TokenType, token, mark, token_string, token_colon, token_object_end, json_parse_token,
  json_skip_whitespace, token_at,
}
use luminix_experience_platf.Json.Escape.Laws.{escape_all, json_parse_token-string}
use luminix_experience_platf.Json.Numbers.Laws.{number_ends}
use luminix_experience_platf.Json.Skip.{again, finished, comma_or_end}
use luminix_experience_platf.Json.Save.{CLib}
use luminix_experience_platf.Json.Save.Texts.{value_text}
use luminix_experience_platf.Json.Writer.Laws.{indent_text, spaces}
use luminix_experience_platf.Json.Load.{Union, ReadsBack, json_parse_field_value}
use luminix_experience_platf.Json.Load.Laws.{IsPlain, SameValue, json_parse_field_value-value_text}
use luminix_experience_platf.Json.Load.Loops.{key_follows, key_head, parsed, Parsed, members}
use luminix_experience_platf.Json.Load.Loops.Total.{members_lem, by_key, by_outcome, by_next}
use luminix_experience_platf.Json.Load.Rows.{set_value}
use luminix_experience_platf.Json.Row.Laws.{line_end}

unfoldable pub is_blank : Bytes → Bool
is_blank [] = true
is_blank (c ∷ cs) = is_space c && is_blank cs

skip_blank :
    (ws rest : Bytes)
    → is_blank ws ≡ true
    → json_skip_whitespace (ws ++ rest) ≡ json_skip_whitespace rest
unfolding is_blank json_skip_whitespace
skip_blank [] rest h = refl
skip_blank (c ∷ ws) rest h = ground (arith, skip_blank ws rest)

pub parse_blank :
    (ws rest : Bytes) → is_blank ws ≡ true → json_parse_token (ws ++ rest) ≡ json_parse_token rest
unfolding json_parse_token
parse_blank ws rest h = ap token_at (skip_blank ws rest h)

spaces-blank : (n : ℕ) → is_blank (spaces n) ≡ true
unfolding is_blank spaces
spaces-blank zero = refl
spaces-blank (suc n) = spaces-blank n

pub blank_line : (p : Bool) (l : ℕ) → is_blank (line_end p ++ indent_text p l) ≡ true
unfolding is_blank indent_text
blank_line true l = spaces-blank (l * 2)
blank_line false l = refl

pub blank_indent : (p : Bool) (l : ℕ) → is_blank (indent_text p l) ≡ true
unfolding is_blank indent_text
blank_indent true l = spaces-blank (l * 2)
blank_indent false l = refl

pub number_ends-blank :
    (ws rest : Bytes) → is_blank ws ≡ true → number_ends (ws ++ 125 ∷ rest) ≡ true
unfolding is_blank number_ends
number_ends-blank [] rest h = refl
number_ends-blank (c ∷ ws) rest h = ground arith

key_token :
    (ws name rest : Bytes)
    → is_blank ws ≡ true
    → escape_all name ≡ name
    → json_parse_token (ws ++ (34 ∷ name ++ (34 ∷ rest))) ≡ (token token_string name, rest)
key_token ws name rest b h =
    parse_blank ws (34 ∷ name ++ (34 ∷ rest)) b
    ∙ subst (λ e. json_parse_token (34 ∷ (e ++ (34 ∷ rest))) ≡ (token token_string e, rest)) h
        (json_parse_token-string name rest)

colon_token : (rest : Bytes) → json_parse_token (58 ∷ rest) ≡ (mark token_colon, rest)
unfolding json_parse_token json_skip_whitespace token_at
colon_token rest = refl

-- a key after white space, without a byte to escape
pub key_head-text :
    (ws name rest : Bytes)
    → is_blank ws ≡ true
    → escape_all name ≡ name
    → key_head (ws ++ (34 ∷ name ++ (34 ∷ 58 ∷ rest))) ≡ key_follows name rest
unfolding key_head
key_head-text ws name rest b h =
    rw (key_token ws name (58 ∷ rest) b h, key_head) (rw (colon_token rest) refl)

pub comma_next : (t : TokenType) (rest : Bytes) → comma_or_end t (44 ∷ rest) ≡ again rest
unfolding comma_or_end json_parse_token json_skip_whitespace token_at
comma_next t rest = refl

close_token : (rest : Bytes) → json_parse_token (125 ∷ rest) ≡ (mark token_object_end, rest)
unfolding json_parse_token json_skip_whitespace token_at
close_token rest = refl

pub brace_next :
    (ws rest : Bytes)
    → is_blank ws ≡ true
    → comma_or_end token_object_end (ws ++ (125 ∷ rest)) ≡ finished rest
unfolding comma_or_end
brace_next ws rest b = rw (parse_blank ws (125 ∷ rest) b ∙ close_token rest, comma_or_end) refl

module _ {ℓ} {S : Type ℓ} (on_key : S → Bytes → Bytes → Parsed S) (f : ℕ) (s s' : S)
    (json k r1 r2 r3 : Bytes) where
  pub round_again :
      key_head json ≡ key_follows k r1
      → on_key s k r1 ≡ some (parsed s' r2)
      → comma_or_end token_object_end r2 ≡ again r3
      → members (suc f) on_key s json ≡ members f on_key s' r3
  round_again h o n =
      members_lem on_key f s json
      ∙ ap (by_key on_key f s) h
      ∙ ap (by_outcome (members f on_key) token_object_end) o
      ∙ ap (by_next (members f on_key) s') n

  pub round_finished :
      key_head json ≡ key_follows k r1
      → on_key s k r1 ≡ some (parsed s' r2)
      → comma_or_end token_object_end r2 ≡ finished r3
      → members (suc f) on_key s json ≡ some (parsed s' r3)
  round_finished h o n =
      members_lem on_key f s json
      ∙ ap (by_key on_key f s) h
      ∙ ap (by_outcome (members f on_key) token_object_end) o
      ∙ ap (by_next (members f on_key) s') n

after_space :
    (u : Union) (type : FieldType) (json : Bytes)
    → json_parse_field_value u type (32 ∷ json) ≡ json_parse_field_value u type json
unfolding json_parse_field_value json_parse_token json_skip_whitespace
after_space u type json = refl

-- a plain value of the type of its column, after a space
pub field_read :
    (c : CLib) (u : Union)
    → ReadsBack u
    → (f : Field) (type : FieldType) (rest : Bytes) → f.type ≡ type
    → IsPlain type f.value
    → number_ends rest ≡ true
    → let r : Field × Bytes = json_parse_field_value u type (32 ∷ value_text c (some f) ++ rest) in
      SameValue type f.value r.0.value × (r.1 ≡ rest)
field_read c u back f type rest e plain n =
    rw (after_space u type (value_text c (some f) ++ rest)) (
      subst
        (λ t.
          IsPlain t f.value
          → let r : Field × Bytes = json_parse_field_value u t (value_text c (some f) ++ rest) in
            SameValue t f.value r.0.value × (r.1 ≡ rest))
        e
        (λ q.
          let (same_type, same, left) =
            json_parse_field_value-value_text c u back f.name rest f.type f.value q n in
          (same, left))
        plain)

pub length-set_value : (fs : List Field) (i : ℕ) (f : Field) → length (set_value fs i f) ≡ length fs
unfolding set_value
length-set_value [] i f = refl
length-set_value (g ∷ gs) zero f = refl
length-set_value (g ∷ gs) (suc i) f = ap suc (length-set_value gs i f)

pub set_value_same :
    (fs : List Field) (i : ℕ) (f : Field)
    → i < length fs
    → (get_or (set_value fs i f) i no_field).value ≡ f.value
unfolding set_value
set_value_same [] i f h = absurd (omega arith)
set_value_same (g ∷ gs) zero f h = refl
set_value_same (g ∷ gs) (suc i) f h = set_value_same gs i f (omega arith)

pub set_value_other :
    (fs : List Field) (i j : ℕ) (f : Field)
    → j < i
    → get_or (set_value fs i f) j no_field ≡ get_or fs j no_field
unfolding set_value
set_value_other [] i j f h = refl
set_value_other (g ∷ gs) zero j f h = absurd (omega arith)
set_value_other (g ∷ gs) (suc i) zero f h = refl
set_value_other (g ∷ gs) (suc i) (suc j) f h = set_value_other gs i j f (omega arith)
