-- ===== src/Json/Lexer.antt =====
-- src/json_io.c: what json_parse_token leaves of the text, and that it moves on unless it meets the
-- end or an error.
use mathlib.Core.Path.{subst}
use luminix_experience_platf.Base.{
  codes, if_elim, drop, Option-cases, length, Bytes, ◌==◌, ℕ, zero, suc, ◌+◌, ◌≤◌, ◌<◌, Bool, true,
  false, not, ◌&&◌, ◌||◌, [], ◌∷◌, Option, none, some, ◌≡◌, arith, inl, inr,
}
use luminix_experience_platf.Json.{
  token_null, token_tag, token_boolean, cons_value, JsonToken, is_digit, json_skip_whitespace,
  scan_string, skip_digits, skip_minus, skip_fraction, skip_sign, skip_exponent, skip_number,
  literal_token, string_token, number_token, token_at, json_parse_token, json_match_string,
  TokenType,
}

-- nothing is left after it, or nothing was read
abbrev pub stops : TokenType → Bool
stops t = token_tag t == 0 || token_tag t == 11

pub length-json_skip_whitespace-le :
    (json : Bytes) → length (json_skip_whitespace json) ≤ length json
unfolding json_skip_whitespace
length-json_skip_whitespace-le [] = omega arith
length-json_skip_whitespace-le (c ∷ cs) = ground (arith, length-json_skip_whitespace-le cs)

-- what the scan of a text of n bytes reads and leaves, with the closing quote
Fits : ℕ → Option (Bytes × Bytes) → Type 0
Fits n none = Unit {0}
Fits n (some (value, rest)) = length value + length rest + 1 ≡ n

Fits-cons_value : (c n : ℕ) (o : Option (Bytes × Bytes)) → Fits n o → Fits (suc n) (cons_value c o)
unfolding Fits
Fits-cons_value c n none h = h
Fits-cons_value c n (some (value, rest)) h = omega arith

scan_string-Fits : (escaped : Bool) (json : Bytes) → Fits (length json) (scan_string escaped json)
unfolding scan_string Fits
scan_string-Fits escaped [] = tt
scan_string-Fits escaped (c ∷ cs) =
    if_elim (Fits (suc (length cs))) (not escaped && c == 34) (λ _. omega arith)
      (λ _.
        Fits-cons_value c (length cs) (scan_string (not escaped && c == 92) cs)
          (scan_string-Fits (not escaped && c == 92) cs))

pub length-scan_string :
    (escaped : Bool) (json value rest : Bytes)
    → scan_string escaped json ≡ some (value, rest)
    → length value + length rest + 1 ≡ length json
unfolding Fits
length-scan_string escaped json value rest h =
    subst (Fits (length json)) h (scan_string-Fits escaped json)

length-skip_digits-le : (json : Bytes) → length (skip_digits json) ≤ length json
unfolding skip_digits
length-skip_digits-le [] = omega arith
length-skip_digits-le (c ∷ cs) = ground (arith, length-skip_digits-le cs)

length-skip_fraction-le : (json : Bytes) → length (skip_fraction json) ≤ length json
unfolding skip_fraction
length-skip_fraction-le [] = omega arith
length-skip_fraction-le (c ∷ cs) = ground (arith, length-skip_digits-le cs)

length-skip_sign-le : (json : Bytes) → length (skip_sign json) ≤ length json
unfolding skip_sign
length-skip_sign-le [] = omega arith
length-skip_sign-le (c ∷ cs) = ground arith

length-skip_exponent-le : (json : Bytes) → length (skip_exponent json) ≤ length json
unfolding skip_exponent
length-skip_exponent-le [] = omega arith
length-skip_exponent-le (c ∷ cs) =
    ground (arith, length-skip_digits-le (skip_sign cs), length-skip_sign-le cs)

length-skip_number-lt :
    (c : ℕ) (cs : Bytes)
    → (c == 45 || is_digit c) ≡ true
    → length (skip_number (c ∷ cs)) ≤ length cs
unfolding skip_number skip_minus skip_digits
length-skip_number-lt c cs h = ground (
  arith,
  length-skip_digits-le cs,
  length-skip_digits-le (c ∷ cs),
  length-skip_fraction-le (skip_digits (skip_minus (c ∷ cs))),
  length-skip_exponent-le (skip_fraction (skip_digits (skip_minus (c ∷ cs)))),
)

length-drop-le : (n : ℕ) (xs : Bytes) → length (drop n xs) ≤ length xs
length-drop-le zero xs = omega arith
length-drop-le (suc n) [] = omega arith
length-drop-le (suc n) (x ∷ xs) = omega (arith, length-drop-le n xs)

-- It leaves a shorter text, or an error or the end.
abbrev pub MovesOn : Bytes → JsonToken × Bytes → Type 0
MovesOn json r = (length r.1 ≤ length json) × (stops r.0.type ≡ false → length r.1 < length json)

literal_token-MovesOn :
    (t : TokenType) (k : ℕ) (word : Bytes) (c : ℕ) (cs : Bytes)
    → MovesOn (c ∷ cs) (literal_token t (k ∷ word) (c ∷ cs))
unfolding literal_token json_match_string
literal_token-MovesOn t k word c cs = ground (arith, length-drop-le (length word) cs)

string_token-MovesOn : (c : ℕ) (cs : Bytes) → MovesOn (c ∷ cs) (string_token cs)
unfolding string_token
string_token-MovesOn c cs = elim (Option-cases (scan_string false cs)) [
  | inl e ↦ rw (e, string_token) (ground arith)
  | inr found ↦
      rw (found.1, string_token) (ground (arith, length-scan_string false cs found.0.0 found.0.1))
]

number_token-MovesOn :
    (c : ℕ) (cs : Bytes) → (c == 45 || is_digit c) ≡ true → MovesOn (c ∷ cs) (number_token (c ∷ cs))
unfolding number_token
number_token-MovesOn c cs h = ground (arith, length-skip_number-lt c cs)

token_at-MovesOn : (json : Bytes) → MovesOn json (token_at json)
unfolding token_at
token_at-MovesOn [] = ground arith
token_at-MovesOn (c ∷ cs) = ground (
  arith,
  string_token-MovesOn c cs,
  number_token-MovesOn c cs,
  literal_token-MovesOn token_boolean 116 (codes "rue") c cs,
  literal_token-MovesOn token_boolean 102 (codes "alse") c cs,
  literal_token-MovesOn token_null 110 (codes "ull") c cs,
)

-- No token leaves more text than there was, and one that is neither an error nor the end leaves less.
pub json_parse_token-advances : (json : Bytes) → MovesOn json (json_parse_token json)
unfolding json_parse_token
json_parse_token-advances json =
    ground
      (arith, token_at-MovesOn (json_skip_whitespace json), length-json_skip_whitespace-le json)
