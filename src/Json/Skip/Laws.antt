-- ===== src/Json/Skip/Laws.antt =====
-- src/json_io.c: json_skip_token_value ends on every text.
use mathlib.Core.Path.{subst}
use luminix_experience_platf.Schema.{ErrorCode, error_invalid_input, success, is_success}
use luminix_experience_platf.Base.{
  sym, if_elim, length, Bytes, ◌*◌, ◌==◌, ℕ, zero, suc, ◌+◌, ◌≤◌, ◌<◌, none, some, ◌≡◌, refl, arith,
  if◌then◌else◌,
}
use luminix_experience_platf.Json.{
  token_array_start, token_object_start, TokenType, token_tag, json_parse_token,
}
use luminix_experience_platf.Json.Lexer.{json_parse_token-advances}
use luminix_experience_platf.Json.Skip.{
  Head, value_follows, closed, broken, Next, again, finished, refused, member_head, item_head,
  comma_or_end, Bracket, object, array, head_of, close_of, Skipped, json_skip_token_value,
  skip_loop,
}

-- the text that a round's head leaves, which is shorter than the one it began with
HeadLeaves : Bytes → Head → Type 0
HeadLeaves json (value_follows t rest) = length rest < length json
HeadLeaves json (closed rest) = length rest ≤ length json
HeadLeaves json (broken rest) = length rest ≤ length json

member_head-HeadLeaves : (json : Bytes) → HeadLeaves json (member_head json)
unfolding HeadLeaves member_head
member_head-HeadLeaves json = ground (
  arith,
  json_parse_token-advances json,
  json_parse_token-advances (json_parse_token json).1,
  json_parse_token-advances (json_parse_token (json_parse_token json).1).1,
)

item_head-HeadLeaves : (json : Bytes) → HeadLeaves json (item_head json)
unfolding HeadLeaves item_head
item_head-HeadLeaves json = ground (arith, json_parse_token-advances json)

head_of-HeadLeaves : (b : Bracket) (json : Bytes) → HeadLeaves json (head_of b json)
head_of-HeadLeaves object json = member_head-HeadLeaves json
head_of-HeadLeaves array json = item_head-HeadLeaves json

NextLeaves : Bytes → Next → Type 0
NextLeaves json (again rest) = length rest < length json
NextLeaves json (finished rest) = length rest ≤ length json
NextLeaves json (refused rest) = length rest ≤ length json

comma_or_end-NextLeaves : (t : TokenType) (json : Bytes) → NextLeaves json (comma_or_end t json)
unfolding NextLeaves comma_or_end
comma_or_end-NextLeaves t json = ground (arith, json_parse_token-advances json)

-- a result that leaves no more text than there was
Returns : ℕ → Skipped → Type 0
Returns n none = ⊥
Returns n (some (code, rest)) = length rest ≤ n

abbrev pub by_next : (Bytes → Skipped) → Next → Skipped
by_next loop (again rest) = loop rest
by_next loop (finished rest) = some (success, rest)
by_next loop (refused rest) = some (error_invalid_input, rest)

-- the rest of a round after its value, with the loop that follows by its result
abbrev pub rest_of_round : (Bytes → Skipped) → TokenType → Skipped → Skipped
rest_of_round loop close none = none
rest_of_round loop close (some (code, after_value)) =
    if is_success code
    then by_next loop (comma_or_end close after_value)
    else some (code, after_value)

Returns-mono : (m n : ℕ) (s : Skipped) → m ≤ n → Returns m s → Returns n s
unfolding Returns
Returns-mono m n none le h = h
Returns-mono m n (some (code, rest)) le h = omega arith

by_next-Returns :
    (loop : Bytes → Skipped) (json : Bytes) (n : ℕ) (next : Next)
    → length json ≤ n
    → NextLeaves json next
    → ((rest : Bytes) → length rest < n → Returns (length rest) (loop rest))
    → Returns n (by_next loop next)
unfolding Returns NextLeaves
by_next-Returns loop json n (again rest) le h k =
    Returns-mono (length rest) n (loop rest) (omega arith) (k rest (omega arith))
by_next-Returns loop json n (finished rest) le h k = omega arith
by_next-Returns loop json n (refused rest) le h k = omega arith

rest_of_round-Returns :
    (loop : Bytes → Skipped) (close : TokenType) (n : ℕ) (s : Skipped)
    → Returns n s
    → ((rest : Bytes) → length rest < n → Returns (length rest) (loop rest))
    → Returns n (rest_of_round loop close s)
unfolding Returns
rest_of_round-Returns loop close n none r k = r
rest_of_round-Returns loop close n (some (code, after_value)) r k =
    if_elim (Returns n) (is_success code)
      (λ _.
        by_next-Returns loop after_value n (comma_or_end close after_value) r
          (comma_or_end-NextLeaves close after_value) k)
      (λ _. r)

value_case :
    (f : ℕ) (t : TokenType) (json : Bytes)
    → Returns (length json) (skip_loop f object json)
    → Returns (length json) (skip_loop f array json)
    → Returns (length json) (json_skip_token_value (suc f) t json)
unfolding json_skip_token_value Returns
value_case f t json ho ha =
    if_elim (Returns (length json)) (token_tag t == token_tag token_object_start) (λ _. ho)
      (λ _.
        if_elim (Returns (length json)) (token_tag t == token_tag token_array_start) (λ _. ha)
          (λ _. omega arith))

-- a round by what it begins with
abbrev pub by_head : ℕ → Bracket → Head → Skipped
by_head f b (value_follows t after) =
    rest_of_round (skip_loop f b) (close_of b) (json_skip_token_value f t after)
by_head f b (closed rest) = some (success, rest)
by_head f b (broken rest) = some (error_invalid_input, rest)

pub skip_loop_lem :
    (f : ℕ) (b : Bracket) (json : Bytes) → skip_loop (suc f) b json ≡ by_head f b (head_of b json)
unfolding skip_loop
skip_loop_lem f b json = ground arith

by_head-Returns :
    (f : ℕ) (b : Bracket) (json : Bytes) (hd : Head)
    → HeadLeaves json hd
    → ((t : TokenType) (rest : Bytes)
        → length rest < length json
        → Returns (length rest) (json_skip_token_value f t rest))
    → ((rest : Bytes) → length rest < length json → Returns (length rest) (skip_loop f b rest))
    → Returns (length json) (by_head f b hd)
unfolding Returns HeadLeaves
by_head-Returns f b json (value_follows t after) l hv hl =
    rest_of_round-Returns (skip_loop f b) (close_of b) (length json)
      (json_skip_token_value f t after)
      (Returns-mono (length after) (length json) (json_skip_token_value f t after) (omega arith)
        (hv t after (omega arith)))
      hl
by_head-Returns f b json (closed rest) l hv hl = l
by_head-Returns f b json (broken rest) l hv hl = l

enough_fuel :
    (f : ℕ)
    → ((t : TokenType) (json : Bytes)
        → 2 * length json + 2 ≤ f
        → Returns (length json) (json_skip_token_value f t json))
      × ((b : Bracket) (json : Bytes)
          → 2 * length json + 1 ≤ f
          → Returns (length json) (skip_loop f b json))
enough_fuel zero = (λ t json h. absurd (omega arith), λ b json h. absurd (omega arith))
enough_fuel (suc f) = (
  λ t json h.
      value_case f t json ((enough_fuel f).1 object json (omega arith))
        ((enough_fuel f).1 array json (omega arith)),
  λ b json h. subst (Returns (length json)) (sym (skip_loop_lem f b json)) (
      by_head-Returns f b json (head_of b json) (head_of-HeadLeaves b json)
        (λ t rest l. (enough_fuel f).0 t rest (omega arith))
        (λ rest l. (enough_fuel f).1 b rest (omega arith))),
)

Returns-some :
    (n : ℕ) (s : Skipped)
    → Returns n s
    → (code : ErrorCode) × (rest : Bytes) × (s ≡ some (code, rest)) × (length rest ≤ n)
unfolding Returns
Returns-some n none h = absurd h
Returns-some n (some (code, rest)) h = (code, rest, refl, h)

pub json_skip_token_value-returns :
    (fuel : ℕ) (t : TokenType) (json : Bytes)
    → 2 * length json + 2 ≤ fuel
    → (code : ErrorCode) × (rest : Bytes) × (json_skip_token_value fuel t json ≡ some (code, rest))
      × (length rest ≤ length json)
json_skip_token_value-returns fuel t json h =
    Returns-some (length json) (json_skip_token_value fuel t json) ((enough_fuel fuel).0 t json h)
