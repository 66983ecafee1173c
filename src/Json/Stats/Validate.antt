-- ===== src/Json/Stats/Validate.antt =====
-- src/json_io.c: that validate_json takes a text of one token for a whole value.
use luminix_experience_platf.Base.{
  Bool-cases, Bytes, ◌==◌, ℕ, Bool, true, false, not, ◌||◌, [], ◌∷◌, ◌++◌, ◌≡◌, ◌↔◌, refl, arith,
  if◌then◌else◌, inl, inr,
}
use luminix_experience_platf.Schema.{success, error_invalid_input}
use luminix_experience_platf.Json.{
  token_array_start, token_object_start, token_string, mark, token, JsonToken, token_tag, token_at,
  json_skip_whitespace, json_parse_token, literal_token, string_token, number_token,
}
use luminix_experience_platf.Json.Escape.Laws.{escape_all, json_parse_token-string}
use luminix_experience_platf.Json.Stats.{validate_json, starts_value}

end_iff : (json : Bytes) → (token_tag (token_at json).0.type == 11) ≡ true ↔ (json ≡ [])
unfolding token_at literal_token string_token number_token
end_iff [] = ground arith
end_iff (c ∷ cs) = ground arith

parse_end_iff :
    (json : Bytes)
    → (token_tag (json_parse_token json).0.type == 11) ≡ true ↔ (json_skip_whitespace json ≡ [])
unfolding json_parse_token
parse_end_iff json = end_iff (json_skip_whitespace json)

one_token :
    (json rest : Bytes) (t : JsonToken)
    → json_parse_token json ≡ (t, rest)
    → (token_tag t.type == 0) ≡ false
    → starts_value t.type ≡ true
    → (validate_json json ≡ success) ↔ (json_skip_whitespace rest ≡ [])
unfolding validate_json
one_token json rest t e nz v =
    rw e (rw (nz, v) (by_end (token_tag (json_parse_token rest).0.type == 11) (parse_end_iff rest)))
  where
    by_end :
        (b : Bool) {P : Type 0}
        → ((b ≡ true) ↔ P)
        → ((if not b then error_invalid_input else success) ≡ success) ↔ P
    by_end b h = ground arith

bracket_token :
    (c : ℕ) (cs : Bytes)
    → (c == 123 || c == 91) ≡ true
    → (t : JsonToken) × (json_parse_token (c ∷ cs) ≡ (t, cs))
      × ((token_tag t.type == 0) ≡ false)
      × (starts_value t.type ≡ true)
unfolding json_parse_token json_skip_whitespace token_at
bracket_token c cs h = elim (Bool-cases (c == 123)) [
  | inl e ↦ (mark token_object_start, ground arith, refl, refl)
  | inr e ↦ (mark token_array_start, ground arith, refl, refl)
]

-- `validate_json` accepts a text that begins with an opening brace or bracket exactly if nothing
-- but white space follows it, so that no complete object or array is valid.
pub validate_json-bracket :
    (c : ℕ) (cs : Bytes)
    → (c == 123 || c == 91) ≡ true
    → (validate_json (c ∷ cs) ≡ success) ↔ (json_skip_whitespace cs ≡ [])
validate_json-bracket c cs h =
    let (t, e, nz, v) = bracket_token c cs h in one_token (c ∷ cs) cs t e nz v

-- A string that the code writes is a valid text, if nothing but white space follows.
pub validate_json-string :
    (str rest : Bytes)
    → (validate_json (34 ∷ escape_all str ++ 34 ∷ rest) ≡ success)
      ↔ (json_skip_whitespace rest ≡ [])
validate_json-string str rest =
    one_token (34 ∷ escape_all str ++ 34 ∷ rest) rest (token token_string (escape_all str))
      (json_parse_token-string str rest) refl refl
