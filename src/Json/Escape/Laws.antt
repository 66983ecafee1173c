-- ===== src/Json/Escape/Laws.antt =====
-- src/json_io.c: the escapes fit, are undone by the decoder of the JSON standard, and are read back
-- whole by json_parse_token.
use luminix_experience_platf.Base.{
  ap, ◌∙◌, append_assoc, length-append, append-nil, ltb, length, Bytes, ◌*◌, ◌/◌, ◌%◌, ◌==◌, ℕ,
  zero, suc, ◌+◌, ◌-◌, ◌≤◌, ◌<◌, true, false, [], ◌∷◌, ◌++◌, some, ◌≡◌, refl, arith, if◌then◌else◌,
}
use luminix_experience_platf.Json.{
  json_strndup, string_token, token_at, json_skip_whitespace, json_parse_token, token, token_string,
  scan_string,
}
use luminix_experience_platf.Json.Escape.{
  escape_char, escape_fits, escape_loop, json_escape_string, json_escape_string_alloc, hex,
}

-- each byte by its escape
unfoldable pub escape_all : Bytes → Bytes
escape_all [] = []
escape_all (c ∷ cs) = escape_char c ++ escape_all cs

length-escape_char-le : (c : ℕ) → (1 ≤ length (escape_char c)) × (length (escape_char c) ≤ 6)
unfolding escape_char
length-escape_char-le c = ground arith

step_bound :
    (size : ℕ) (dst : Bytes) (c : ℕ)
    → length dst < size - 1
    → escape_fits size (length dst) (length (escape_char c)) ≡ true
    → length (dst ++ escape_char c) < size
unfolding escape_fits
step_bound size dst c h f = ground (arith, length-append dst (escape_char c))

length-escape_loop-lt :
    (size : ℕ) (dst src : Bytes) → length dst < size → length (escape_loop size dst src) < size
unfolding escape_loop
length-escape_loop-lt size dst [] h = h
length-escape_loop-lt size dst (c ∷ src) h = ground (
  arith,
  step_bound size dst c,
  length-escape_loop-lt size (dst ++ escape_char c) src,
  length-escape_loop-lt size dst src,
)

-- With a buffer that is not empty, `json_escape_string` writes fewer bytes than it holds, so that
-- the NUL fits.
pub length-json_escape_string-lt :
    (src : Bytes) (dst_size : ℕ)
    → 0 < dst_size
    → length (json_escape_string src dst_size) < dst_size
unfolding json_escape_string
length-json_escape_string-lt src dst_size h = length-escape_loop-lt dst_size [] src h

enough_room :
    (size : ℕ) (dst : Bytes) (c n : ℕ)
    → length dst + (n + 1) * 6 < size
    → escape_fits size (length dst) (length (escape_char c)) ≡ true
unfolding escape_fits
enough_room size dst c n h = ground (arith, length-escape_char-le c)

escape_loop_step :
    (size : ℕ) (dst : Bytes) (c : ℕ) (src : Bytes)
    → ltb (length dst) (size - 1) ≡ true
    → escape_fits size (length dst) (length (escape_char c)) ≡ true
    → escape_loop size dst (c ∷ src) ≡ escape_loop size (dst ++ escape_char c) src
unfolding escape_loop
escape_loop_step size dst c src room fits = rw (room, fits)

escape_loop_all :
    (size : ℕ) (dst src : Bytes)
    → length dst + length src * 6 < size
    → escape_loop size dst src ≡ dst ++ escape_all src
unfolding escape_all escape_loop
escape_loop_all size dst [] h = rw (append-nil dst)
escape_loop_all size dst (c ∷ src) h =
    escape_loop_step size dst c src (ground arith)
      (enough_room size dst c (length src) (omega arith))
    ∙ escape_loop_all size (dst ++ escape_char c) src
        (omega (arith, length-append dst (escape_char c), length-escape_char-le c))
    ∙ append_assoc dst (escape_char c) (escape_all src)

pub json_escape_string_alloc_lem : (str : Bytes) → json_escape_string_alloc str ≡ escape_all str
unfolding json_escape_string_alloc json_escape_string
json_escape_string_alloc_lem str = ground (arith, escape_loop_all (length str * 6 + 1) [] str)

-- The decoder of the standard, byte by byte: a byte for itself, the byte after a backslash, or the
-- digits of `\uXXXX` with how many are still to come and their value so far.
pub data Mode : Type 0 where
  plain : Mode
  slash : Mode
  digits : ℕ → ℕ → Mode

digit_value : ℕ → ℕ
digit_value d = if ltb d 58 then d - 48 else d - 87

unslash : ℕ → ℕ
unslash d =
    if d == b'b'
    then 8
    else if d == b'f'
    then 12
    else if d == b'n'
    then 10
    else if d == b'r'
    then 13
    else if d == b't'
    then 9
    else d

unfoldable pub unescape : Mode → Bytes → Bytes
unfolding unslash digit_value
unescape mode [] = []
unescape plain (c ∷ cs) =
    let after = unescape slash cs in
    let more = unescape plain cs in if c == 92 then after else c ∷ more
unescape slash (c ∷ cs) =
    let long = unescape (digits 3 0) cs in
    let more = unescape plain cs in if c == b'u' then long else unslash c ∷ more
unescape (digits zero acc) (c ∷ cs) = (acc * 16 + digit_value c) ∷ unescape plain cs
unescape (digits (suc n) acc) (c ∷ cs) = unescape (digits n (acc * 16 + digit_value c)) cs

digit_value-hex : (d : ℕ) → d < 16 → digit_value (hex d) ≡ d
unfolding digit_value
digit_value-hex d h = ground arith

unescape-escape_char :
    (c : ℕ) (rest : Bytes) → unescape plain (escape_char c ++ rest) ≡ c ∷ unescape plain rest
unfolding escape_char unescape
unescape-escape_char c rest = ground (arith, digit_value-hex (c / 16), digit_value-hex (c % 16))

pub unescape-escape_all : (str : Bytes) → unescape plain (escape_all str) ≡ str
unfolding escape_all unescape
unescape-escape_all [] = refl
unescape-escape_all (c ∷ cs) =
    unescape-escape_char c (escape_all cs) ∙ ap (λ r. c ∷ r) (unescape-escape_all cs)

hex_plain : (d : ℕ) → d < 16 → ((hex d == 34) ≡ false) × ((hex d == 92) ≡ false)
hex_plain d h = ground arith

scan_string-escape_char :
    (c : ℕ) (value rest text : Bytes)
    → scan_string false text ≡ some (value, rest)
    → scan_string false (escape_char c ++ text) ≡ some (escape_char c ++ value, rest)
unfolding escape_char scan_string
scan_string-escape_char c value rest text h = ground (arith, hex_plain (c / 16), hex_plain (c % 16))

pub scan_string-escape_all :
    (str rest : Bytes)
    → scan_string false (escape_all str ++ 34 ∷ rest) ≡ some (escape_all str, rest)
unfolding escape_all scan_string
scan_string-escape_all [] rest = refl
scan_string-escape_all (c ∷ cs) rest =
    rw (append_assoc (escape_char c) (escape_all cs) (34 ∷ rest)) (
      scan_string-escape_char c (escape_all cs) rest (escape_all cs ++ 34 ∷ rest)
        (scan_string-escape_all cs rest))

hex_above : (d : ℕ) → (hex d == 0) ≡ false
hex_above d = ground arith

json_strndup-escape_char :
    (c : ℕ) (rest : Bytes)
    → json_strndup (escape_char c ++ rest) ≡ escape_char c ++ json_strndup rest
unfolding escape_char json_strndup
json_strndup-escape_char c rest = ground (arith, hex_above (c / 16), hex_above (c % 16))

-- an escaped text has no NUL
json_strndup-escape_all : (str : Bytes) → json_strndup (escape_all str) ≡ escape_all str
unfolding escape_all json_strndup
json_strndup-escape_all [] = refl
json_strndup-escape_all (c ∷ cs) =
    json_strndup-escape_char c (escape_all cs)
    ∙ ap (λ r. escape_char c ++ r) (json_strndup-escape_all cs)

-- the token of a string that the code writes
pub json_parse_token-string :
    (str rest : Bytes)
    → json_parse_token (34 ∷ escape_all str ++ 34 ∷ rest)
      ≡ (token token_string (escape_all str), rest)
unfolding json_parse_token json_skip_whitespace token_at string_token
json_parse_token-string str rest =
    ground (arith, scan_string-escape_all str rest, json_strndup-escape_all str)

-- What `json_escape_string_alloc` writes is decoded to the text by the decoder of the standard, and
-- between quotes it is read by `json_parse_token` as one string, whole, whatever follows.
pub escape-read :
    (str rest : Bytes)
    → (unescape plain (json_escape_string_alloc str) ≡ str)
      × (json_parse_token (34 ∷ json_escape_string_alloc str ++ 34 ∷ rest)
          ≡ (token token_string (json_escape_string_alloc str), rest))
escape-read str rest =
    rw (json_escape_string_alloc_lem str)
      (unescape-escape_all str, json_parse_token-string str rest)
