-- ===== src/Json/Skip.antt =====
-- src/json_io.c: json_skip_token_value. `none` means that the fuel ran out, which
-- Json.Skip.Laws excludes for enough of it. Its recursion is taken to fit the stack.
pub mod Laws
use luminix_experience_platf.Base.{
  Bytes, ◌*◌, ◌/◌, ◌%◌, ◌^◌, ◌==◌, ℕ, zero, suc, ◌+◌, ◌-◌, ◌≤◌, ◌<◌, ℤ, pos, negsuc, Bool, true,
  false, not, ◌&&◌, ◌||◌, List, [], ◌∷◌, ◌++◌, Option, none, some, ◌≡◌, ◌≢◌, ◌↔◌, refl, arith,
  if◌then◌else◌, inl, inr,
}
use luminix_experience_platf.Schema.{ErrorCode, success, error_invalid_input, is_success}
use luminix_experience_platf.Json.{
  TokenType, JsonToken, token_tag, json_parse_token, token_object_start, token_object_end,
  token_array_start, token_array_end, token_string, token_colon, token_comma, token_eof, token_none,
}

-- What a round of a loop finds before a value: the value's token and the text after it, the closing
-- bracket, or what is not allowed.
pub data Head : Type 0 where
  value_follows : TokenType → Bytes → Head
  closed : Bytes → Head
  broken : Bytes → Head

-- an object: a key, a colon, and the token of the value
unfoldable pub member_head : Bytes → Head
member_head json =
    let (key_token, after_key) = json_parse_token json in
    let (colon_token, after_colon) = json_parse_token after_key in
    let (val_token, after_val) = json_parse_token after_colon in
    if token_tag key_token.type == token_tag token_object_end
    then closed after_key
    else if token_tag key_token.type == token_tag token_string
    then (if token_tag colon_token.type == token_tag token_colon
        then value_follows val_token.type after_val
        else broken after_colon)
    else broken after_key

-- an array: the token of the item, which is not the end of the text or an error
unfoldable pub item_head : Bytes → Head
item_head json =
    let (item_token, after_item) = json_parse_token json in
    if token_tag item_token.type == token_tag token_array_end
    then closed after_item
    else if token_tag item_token.type == token_tag token_eof
        || token_tag item_token.type == token_tag token_none
    then broken after_item
    else value_follows item_token.type after_item

-- what follows a value: a comma, the closing bracket, or what is not allowed
pub data Next : Type 0 where
  again : Bytes → Next
  finished : Bytes → Next
  refused : Bytes → Next

unfoldable pub comma_or_end : TokenType → Bytes → Next
comma_or_end close json =
    let (t, rest) = json_parse_token json in
    if token_tag t.type == token_tag token_comma
    then again rest
    else if token_tag t.type == token_tag close
    then finished rest
    else refused rest

-- the result, and where the text stands
abbrev pub Skipped : Type 0
Skipped = Option (ErrorCode × Bytes)

-- the two loops, which differ in what a round begins with and in the closing bracket
pub data Bracket : Type 0 where
  object array : Bracket

abbrev pub head_of : Bracket → Bytes → Head
head_of object json = member_head json
head_of array json = item_head json

abbrev pub close_of : Bracket → TokenType
close_of object = token_object_end
close_of array = token_array_end

unfoldable mutual
  -- the value whose first token has been read
  pub json_skip_token_value : ℕ → TokenType → Bytes → Skipped
  json_skip_token_value zero t json = none
  json_skip_token_value (suc f) t json =
      let members = skip_loop f object json in
      let items = skip_loop f array json in
      if token_tag t == token_tag token_object_start
      then members
      else if token_tag t == token_tag token_array_start
      then items
      else some (success, json)

  pub skip_loop : ℕ → Bracket → Bytes → Skipped
  skip_loop zero b json = none
  skip_loop (suc f) b json = elim (head_of b json) [
    | closed rest ↦ some (success, rest)
    | broken rest ↦ some (error_invalid_input, rest)
    | value_follows t after_token ↦ elim (json_skip_token_value f t after_token) [
      | none ↦ none
      | some (code, after_value) ↦
          let following : Skipped = elim (comma_or_end (close_of b) after_value) [
            | again rest ↦ skip_loop f b rest
            | finished rest ↦ some (success, rest)
            | refused rest ↦ some (error_invalid_input, rest)
          ] in
          if is_success code then following else some (code, after_value)
    ]
  ]
