-- ===== src/Json.antt =====
-- src/json_io.c: tokens. A parsing context is the bytes from its `position` on; memory is granted,
-- and the `position` of a token, which nothing reads, and messages are left out.
pub mod Escape
pub mod Lexer
pub mod Skip
pub mod Stats
pub mod Minify
pub mod Numbers
pub mod Writer
pub mod Save
pub mod Load
pub mod Row
pub mod TableText
use luminix_experience_platf.Base.{
  length, take, is_space, drop, codes, leb, is_prefix, Bytes, ◌*◌, ◌/◌, ◌%◌, ◌^◌, ◌==◌, ℕ, zero,
  suc, ◌+◌, ◌-◌, ◌≤◌, ◌<◌, ℤ, pos, negsuc, Bool, true, false, not, ◌&&◌, ◌||◌, List, [], ◌∷◌, ◌++◌,
  Option, none, some, ◌≡◌, ◌≢◌, ◌↔◌, refl, arith, if◌then◌else◌, inl, inr,
}

pub data TokenType : Type 0 where
  token_none token_object_start token_object_end token_array_start token_array_end : TokenType
  token_string token_number token_boolean token_null token_colon token_comma token_eof : TokenType

-- the value of the enumerator
abbrev pub token_tag : TokenType → ℕ
token_tag token_none = 0
token_tag token_object_start = 1
token_tag token_object_end = 2
token_tag token_array_start = 3
token_tag token_array_end = 4
token_tag token_string = 5
token_tag token_number = 6
token_tag token_boolean = 7
token_tag token_null = 8
token_tag token_colon = 9
token_tag token_comma = 10
token_tag token_eof = 11

-- Its `length` is that of its value where the text has no NUL. It is read in json_get_stats_string
-- alone, whose text is a C string.
pub record JsonToken : Type 0 where
  pub type : TokenType
  pub value : Option Bytes

abbrev pub mark : TokenType → JsonToken
mark t = record { type = t; value = none }

abbrev pub token : TokenType → Bytes → JsonToken
token t v = record { type = t; value = some v }

unfoldable pub json_skip_whitespace : Bytes → Bytes
json_skip_whitespace [] = []
json_skip_whitespace (c ∷ cs) =
    let rest = json_skip_whitespace cs in if is_space c then rest else c ∷ cs

-- what is left after `str`, if the text begins with it
unfoldable pub json_match_string : Bytes → Bytes → Option Bytes
unfolding is_prefix
json_match_string json str = if is_prefix str json then some (drop (length str) json) else none

abbrev pub cons_value : ℕ → Option (Bytes × Bytes) → Option (Bytes × Bytes)
cons_value c none = none
cons_value c (some (value, rest)) = some (c ∷ value, rest)

-- The loop over a string: its bytes as they stand, and what follows the closing quote. `none` if
-- there is none.
unfoldable pub scan_string : Bool → Bytes → Option (Bytes × Bytes)
scan_string escaped [] = none
scan_string escaped (c ∷ cs) =
    let more = scan_string (not escaped && c == 92) cs in
    if not escaped && c == 34 then some ([], cs) else cons_value c more

abbrev pub is_digit : ℕ → Bool
is_digit c = leb 48 c && leb c 57

unfoldable pub skip_digits : Bytes → Bytes
skip_digits [] = []
skip_digits (c ∷ cs) = let rest = skip_digits cs in if is_digit c then rest else c ∷ cs

-- the optional minus sign
unfoldable pub skip_minus : Bytes → Bytes
skip_minus [] = []
skip_minus (c ∷ cs) = if c == 45 then cs else c ∷ cs

-- the decimal part
unfoldable pub skip_fraction : Bytes → Bytes
unfolding skip_digits
skip_fraction [] = []
skip_fraction (c ∷ cs) = if c == 46 then skip_digits cs else c ∷ cs

unfoldable pub skip_sign : Bytes → Bytes
skip_sign [] = []
skip_sign (c ∷ cs) = if c == 43 || c == 45 then cs else c ∷ cs

-- the exponent part
unfoldable pub skip_exponent : Bytes → Bytes
unfolding skip_digits skip_sign
skip_exponent [] = []
skip_exponent (c ∷ cs) = if c == 101 || c == 69 then skip_digits (skip_sign cs) else c ∷ cs

unfoldable pub skip_number : Bytes → Bytes
unfolding skip_minus skip_digits skip_fraction skip_exponent
skip_number json = skip_exponent (skip_fraction (skip_digits (skip_minus json)))

-- the bytes from `json` up to `rest`, which is a part of it at the end
abbrev pub between : Bytes → Bytes → Bytes
between json rest = take (length json - length rest) json

-- `true`, `false` and `null`; another word leaves the position where it is
unfoldable pub literal_token : TokenType → Bytes → Bytes → JsonToken × Bytes
unfolding json_match_string
literal_token t word json = elim (json_match_string json word) [
  | none ↦ (mark token_none, json)
  | some rest ↦ (token t word, rest)
]

-- the copy ends at the first NUL
unfoldable pub json_strndup : Bytes → Bytes
json_strndup [] = []
json_strndup (c ∷ cs) = let rest = json_strndup cs in if c == 0 then [] else c ∷ rest

unfoldable pub string_token : Bytes → JsonToken × Bytes
unfolding scan_string json_strndup
string_token cs = elim (scan_string false cs) [
  | none ↦ (mark token_none, [])
  | some (value, rest) ↦ (token token_string (json_strndup value), rest)
]

unfoldable pub number_token : Bytes → JsonToken × Bytes
unfolding skip_number
number_token json = (token token_number (between json (skip_number json)), skip_number json)

-- the switch on the first byte after white space
unfoldable pub token_at : Bytes → JsonToken × Bytes
unfolding literal_token string_token number_token
token_at [] = (mark token_eof, [])
token_at (c ∷ cs) =
    if c == 123
    then (mark token_object_start, cs)
    else if c == 125
    then (mark token_object_end, cs)
    else if c == 91
    then (mark token_array_start, cs)
    else if c == 93
    then (mark token_array_end, cs)
    else if c == 58
    then (mark token_colon, cs)
    else if c == 44
    then (mark token_comma, cs)
    else if c == 34
    then string_token cs
    else if c == 116
    then literal_token token_boolean (codes "true") (c ∷ cs)
    else if c == 102
    then literal_token token_boolean (codes "false") (c ∷ cs)
    else if c == 110
    then literal_token token_null (codes "null") (c ∷ cs)
    else if c == 45 || is_digit c
    then number_token (c ∷ cs)
    else (mark token_none, c ∷ cs)

-- the token and the text after it
unfoldable pub json_parse_token : Bytes → JsonToken × Bytes
unfolding json_skip_whitespace token_at
json_parse_token json = token_at (json_skip_whitespace json)
