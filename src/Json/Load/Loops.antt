-- ===== src/Json/Load/Loops.antt =====
-- src/json_io.c: the loops over the members of an object and over the objects of an array, which
-- json_parse_database_metadata, json_parse_table_schema and json_parse_table_records have in common.
pub mod Total
pub mod Keeps
use luminix_experience_platf.Base.{
  length, Bytes, ◌*◌, ◌/◌, ◌%◌, ◌^◌, ◌==◌, ℕ, zero, suc, ◌+◌, ◌-◌, ◌≤◌, ◌<◌, ℤ, pos, negsuc, Bool,
  true, false, not, ◌&&◌, ◌||◌, List, [], ◌∷◌, ◌++◌, Option, none, some, ◌≡◌, ◌≢◌, ◌↔◌, refl, arith,
  if◌then◌else◌, inl, inr,
}
use luminix_experience_platf.Schema.{ErrorCode, success, error_invalid_input}
use luminix_experience_platf.Json.{
  TokenType, JsonToken, token_tag, json_parse_token, token_object_start, token_object_end,
  token_array_start, token_array_end, token_string, token_colon, token_comma,
}
use luminix_experience_platf.Json.Skip.{
  Next, again, finished, refused, comma_or_end, json_skip_token_value,
}
use luminix_experience_platf.Json.Load.{value_of, is_token}

-- what a round over an object begins with: its end, a key with its colon, or what is not allowed
pub data KeyHead : Type 0 where
  object_ends : Bytes → KeyHead
  bad_key : Bytes → KeyHead
  key_follows : Bytes → Bytes → KeyHead

unfoldable pub key_head : Bytes → KeyHead
key_head json =
    let (t, after_key) = json_parse_token json in
    let (colon, after_colon) = json_parse_token after_key in
    if is_token t (token_tag token_object_end)
    then object_ends after_key
    else if not (is_token t (token_tag token_string))
    then bad_key after_key
    else if is_token colon (token_tag token_colon)
    then key_follows (value_of t) after_colon
    else bad_key after_colon

-- why a parser stops early: an error that it returns, or a crash of the program
pub data Stop : Type 0 where
  failure : ErrorCode → Stop
  crash : Stop

-- what a call of the parser ends in: a result, or a crash of the program
pub data Answer {ℓ} (A : Type ℓ) : Type ℓ where
  ended : A → Answer A
  crashed : Answer A

-- What a part of the parser ends with: an early stop, with what it had changed by then, or its
-- result and the text after it. `entered` goes on with the next key at once, without a comma.
pub data Outcome {ℓ} (S : Type ℓ) : Type ℓ where
  stopped : Stop → S → Outcome S
  parsed : S → Bytes → Outcome S
  entered : S → Bytes → Outcome S

-- `none` means that the fuel ran out: Json.Load.Loops.Total
abbrev pub Parsed {ℓ} : Type ℓ → Type ℓ
Parsed S = Option (Outcome S)

module _ {ℓ} {S : Type ℓ} where
  -- the loop over an object, by what it does with a key and the text after its colon
  unfoldable pub members : ℕ → (S → Bytes → Bytes → Parsed S) → S → Bytes → Parsed S
  members zero on_key s json = none
  members (suc f) on_key s json = elim (key_head json) [
    | object_ends rest ↦ some (parsed s rest)
    | bad_key rest ↦ some (stopped (failure error_invalid_input) s)
    | key_follows k rest ↦ elim (on_key s k rest) [
      | none ↦ none
      | some outcome ↦ elim outcome [
        | stopped code s' ↦ some (stopped code s')
        | entered s' rest' ↦ members f on_key s' rest'
        | parsed s' rest' ↦ elim (comma_or_end token_object_end rest') [
          | again rest'' ↦ members f on_key s' rest''
          | finished rest'' ↦ some (parsed s' rest'')
          | refused rest'' ↦ some (stopped (failure error_invalid_input) s')
        ]
      ]
    ]
  ]

  -- the loop over an array of objects, by what it does after the opening brace of one
  unfoldable pub items : ℕ → (S → Bytes → Parsed S) → S → Bytes → Parsed S
  items zero on_object s json = none
  items (suc f) on_object s json =
      let (t, rest) = json_parse_token json in
      let following : Parsed S = elim (on_object s rest) [
        | none ↦ none
        | some outcome ↦ elim outcome [
          | stopped code s' ↦ some (stopped code s')
          | entered s' rest' ↦ items f on_object s' rest'
          | parsed s' rest' ↦ elim (comma_or_end token_array_end rest') [
            | again rest'' ↦ items f on_object s' rest''
            | finished rest'' ↦ some (parsed s' rest'')
            | refused rest'' ↦ some (stopped (failure error_invalid_input) s')
          ]
        ]
      ] in
      if is_token t (token_tag token_array_end)
      then some (parsed s rest)
      else if is_token t (token_tag token_object_start)
      then following
      else some (stopped (failure error_invalid_input) s)

  -- the loops, with a round for each byte
  abbrev pub read_members : (S → Bytes → Bytes → Parsed S) → S → Bytes → Parsed S
  read_members on_key s json = members (suc (length json)) on_key s json

  abbrev pub read_items : (S → Bytes → Parsed S) → S → Bytes → Parsed S
  read_items on_object s json = items (suc (length json)) on_object s json

-- `json_skip_token_value` where the code drops its result, and goes on where it stopped
unfoldable pub skip_ignoring {ℓ} : {S : Type ℓ} → S → Bytes → Parsed S
skip_ignoring s json =
    let (t, rest) = json_parse_token json in
    elim (json_skip_token_value (2 * length rest + 2) t.type rest) [
      | none ↦ none
      | some (code, rest') ↦ some (parsed s rest')
    ]
