-- ===== src/Json/Stats/Laws.antt =====
-- src/json_io.c: the counting loop ends exactly if no character stops the lexer; validate_json
-- accepts single tokens only.
use mathlib.Core.Path.{subst}
use luminix_experience_platf.Json.Lexer.{json_parse_token-advances}
use luminix_experience_platf.Base.{
  sym, ap, Bool-cases, ◌⊎◌, ◌∙◌, length, Bytes, ◌==◌, ℕ, zero, suc, ◌≤◌, ◌<◌, true, false, List, [],
  ◌∷◌, none, some, ◌≡◌, ◌≢◌, refl, arith, inl, inr,
}
use luminix_experience_platf.Json.{
  token_at, literal_token, string_token, number_token, json_skip_whitespace, JsonToken, token_tag,
  json_parse_token, token_none, mark,
}
use luminix_experience_platf.Json.Stats.{
  JsonStats, count_token, count_tokens, json_get_stats_string, start_stats, sum_elements,
}

-- `Reads json tokens rest`: the lexer gives these tokens, none of them the end, and leaves `rest`
pub data Reads : Bytes → List JsonToken → Bytes → Type 0 where
  no_tokens : (json : Bytes) → Reads json [] json
  next_token :
      (json : Bytes) (ts : List JsonToken) (rest : Bytes)
      → (token_tag (json_parse_token json).0.type == 11) ≡ false
      → Reads (json_parse_token json).1 ts rest
      → Reads json ((json_parse_token json).0 ∷ ts) rest

-- the counts of these tokens, added up one after another
pub count_all : JsonStats → List JsonToken → JsonStats
count_all stats [] = stats
count_all stats (t ∷ ts) = count_all (count_token stats t) ts

count_tokens_step :
    (f : ℕ) (json : Bytes) (stats : JsonStats)
    → (token_tag (json_parse_token json).0.type == 11) ≡ false
    → count_tokens (suc f) json stats
      ≡ count_tokens f (json_parse_token json).1 (count_token stats (json_parse_token json).0)
unfolding count_tokens
count_tokens_step f json stats h = rw h

count_tokens_end :
    (f : ℕ) (json : Bytes) (stats : JsonStats)
    → (token_tag (json_parse_token json).0.type == 11) ≡ true
    → count_tokens (suc f) json stats ≡ some stats
unfolding count_tokens
count_tokens_end f json stats h = rw h

counts_up_to_end :
    (json : Bytes) (ts : List JsonToken) (rest : Bytes) (f : ℕ) (stats : JsonStats)
    → Reads json ts rest
    → (token_tag (json_parse_token rest).0.type == 11) ≡ true
    → length ts < f
    → count_tokens f json stats ≡ some (count_all stats ts)
unfolding count_all
counts_up_to_end json ts rest zero stats r e h = absurd (omega arith)
counts_up_to_end json [] rest (suc f) stats (no_tokens json') e h = count_tokens_end f json stats e
counts_up_to_end json (t ∷ ts) rest (suc f) stats (next_token json' ts' rest' more r) e h =
    count_tokens_step f json stats more
    ∙ counts_up_to_end (json_parse_token json).1 ts rest f (count_token stats t) r e (omega arith)

-- A text that ends: the counts are those of its tokens.
pub json_get_stats_string_lem :
    (json : Bytes) (ts : List JsonToken) (rest : Bytes) (fuel : ℕ)
    → Reads json ts rest
    → (token_tag (json_parse_token rest).0.type == 11) ≡ true
    → length ts < fuel
    → json_get_stats_string fuel json
      ≡ some (sum_elements (count_all (start_stats (length json)) ts))
unfolding json_get_stats_string
json_get_stats_string_lem json ts rest fuel r e h =
    rw (counts_up_to_end json ts rest fuel (start_stats (length json)) r e h, json_get_stats_string)

skip_twice :
    (json : Bytes) → json_skip_whitespace (json_skip_whitespace json) ≡ json_skip_whitespace json
unfolding json_skip_whitespace
skip_twice [] = refl
skip_twice (c ∷ cs) = ground (arith, skip_twice cs)

token_at_stays :
    (json rest : Bytes) → token_at json ≡ (mark token_none, rest) → rest ≢ [] → rest ≡ json
unfolding token_at literal_token string_token number_token
token_at_stays [] rest h e = cc
token_at_stays (c ∷ cs) rest h e = ground arith

-- Where the lexer finds an error before the end of the text, it stays.
stuck_again :
    (json rest : Bytes)
    → json_parse_token json ≡ (mark token_none, rest)
    → rest ≢ []
    → json_parse_token rest ≡ (mark token_none, rest)
unfolding json_parse_token
stuck_again json rest h e =
    ap token_at (
      ap json_skip_whitespace (token_at_stays (json_skip_whitespace json) rest h e)
      ∙ skip_twice json)
    ∙ h

stuck_for_good :
    (json : Bytes) (f : ℕ) (stats : JsonStats)
    → json_parse_token json ≡ (mark token_none, json)
    → count_tokens f json stats ≡ none
unfolding count_tokens
stuck_for_good json zero stats h = refl
stuck_for_good json (suc f) stats h =
    rw h (stuck_for_good json f (count_token stats (mark token_none)) h)

stuck_after_tokens :
    (json : Bytes) (ts : List JsonToken) (rest bad : Bytes) (f : ℕ) (stats : JsonStats)
    → Reads json ts rest
    → json_parse_token rest ≡ (mark token_none, bad)
    → bad ≢ []
    → count_tokens f json stats ≡ none
unfolding count_tokens
stuck_after_tokens json ts rest bad zero stats r e ne = refl
stuck_after_tokens json [] rest bad (suc f) stats (no_tokens json') e ne =
    rw e (stuck_for_good bad f (count_token stats (mark token_none)) (stuck_again json bad e ne))
stuck_after_tokens json (t ∷ ts) rest bad (suc f) stats (next_token json' ts' rest' more r) e ne =
    count_tokens_step f json stats more
    ∙ stuck_after_tokens (json_parse_token json).1 ts rest bad f (count_token stats t) r e ne

-- `json_get_stats_string` never ends if, after some tokens, the lexer comes to a byte that begins
-- no token: it stays there.
pub json_get_stats_string_hangs :
    (json : Bytes) (ts : List JsonToken) (rest bad : Bytes)
    → Reads json ts rest
    → json_parse_token rest ≡ (mark token_none, bad)
    → bad ≢ []
    → (fuel : ℕ) → json_get_stats_string fuel json ≡ none
unfolding json_get_stats_string
json_get_stats_string_hangs json ts rest bad r e ne fuel = rw (
  stuck_after_tokens json ts rest bad fuel (start_stats (length json)) r e ne,
  json_get_stats_string,
)

-- The lexer comes to the end of the text, or to a character that begins no token.
Ending : Bytes → Type 0
Ending rest = (token_tag (json_parse_token rest).0.type == 11) ≡ true

Stuck : Bytes → Type 0
Stuck rest = (bad : Bytes) × (json_parse_token rest ≡ (mark token_none, bad)) × (bad ≢ [])

ReadUp : Bytes → Type 0
ReadUp json =
    (ts : List JsonToken) × (rest : Bytes) × Reads json ts rest
    × (length ts ≤ length json)
    × (Ending rest ⊎ Stuck rest)

token_at_error :
    (json : Bytes)
    → token_tag (token_at json).0.type ≡ 0
    → token_at json ≡ (mark token_none, (token_at json).1)
unfolding token_at literal_token string_token number_token
token_at_error [] h = cc
token_at_error (c ∷ cs) h = ground arith

error_token :
    (json : Bytes)
    → token_tag (json_parse_token json).0.type ≡ 0
    → json_parse_token json ≡ (mark token_none, (json_parse_token json).1)
unfolding json_parse_token
error_token json h = token_at_error (json_skip_whitespace json) h

one_more :
    (json : Bytes)
    → (token_tag (json_parse_token json).0.type == 11) ≡ false
    → length (json_parse_token json).1 < length json
    → ReadUp (json_parse_token json).1
    → ReadUp json
unfolding ReadUp
one_more json more l (ts, rest, r, n, e) =
    ((json_parse_token json).0 ∷ ts, rest, next_token json ts rest more r, omega arith, e)

ReadUp-nil : ReadUp []
unfolding ReadUp Ending json_parse_token json_skip_whitespace token_at
ReadUp-nil = ([], [], no_tokens [], omega arith, inl refl)

read_error : (json bad : Bytes) → json_parse_token json ≡ (mark token_none, bad) → ReadUp json
unfolding ReadUp Stuck
read_error [] [] h = ReadUp-nil
read_error (d ∷ ds) [] h =
    one_more (d ∷ ds) (rw h refl) (rw h (omega arith))
      (subst ReadUp (sym (ap (λ r. r.1) h)) ReadUp-nil)
read_error json (c ∷ cs) h = ([], json, no_tokens json, omega arith, inr (c ∷ cs, h, λ e. cc))

read_up : (n : ℕ) (json : Bytes) → length json < n → ReadUp json
unfolding ReadUp Ending
read_up zero json h = absurd (omega arith)
read_up (suc n) json h = elim (Bool-cases (token_tag (json_parse_token json).0.type == 11)) [
  | inl done ↦ ([], json, no_tokens json, omega arith, inl done)
  | inr more ↦ elim (Bool-cases (token_tag (json_parse_token json).0.type == 0)) [
    | inl bad ↦ read_error json (json_parse_token json).1 (error_token json (ground arith))
    | inr good ↦
        let shorter = (json_parse_token-advances json).1 (ground arith) in
        one_more json more shorter (read_up n (json_parse_token json).1 (omega arith))
  ]
]

-- The loop of `json_get_stats_string` ends within one round more than the text has bytes, or it
-- never ends.
json_get_stats_string-ends :
    (json : Bytes)
    → ((stats : JsonStats) × ((fuel : ℕ)
          → length json < fuel
          → json_get_stats_string fuel json ≡ some stats))
      ⊎ ((fuel : ℕ) → json_get_stats_string fuel json ≡ none)
unfolding ReadUp Ending Stuck
json_get_stats_string-ends json =
    let (ts, rest, r, n, ending) = read_up (suc (length json)) json (omega arith) in
    elim ending [
      | inl e ↦ inl (
        sum_elements (count_all (start_stats (length json)) ts),
        λ fuel h. json_get_stats_string_lem json ts rest fuel r e (omega arith),
      )
      | inr stuck ↦ inr (json_get_stats_string_hangs json ts rest stuck.0 r stuck.1 stuck.2)
    ]
