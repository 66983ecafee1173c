-- ===== src/Security.antt =====
-- src/security.c: the byte-wise cipher, the hash and the test of a token.
pub mod Laws
use luminix_experience_platf.Base.{
  drop, take, length, ◌/◌, ◌*◌, minus_one, is_prefix, codes, ◌^◌, ◌==◌, ◌%◌, ltb, leb, is_space,
  Bytes, ℕ, zero, suc, ◌+◌, ◌-◌, ◌≤◌, ◌<◌, ℤ, pos, negsuc, Bool, true, false, not, ◌&&◌, ◌||◌, List,
  [], ◌∷◌, ◌++◌, Option, none, some, ◌≡◌, ◌≢◌, ◌↔◌, refl, arith, if◌then◌else◌, inl, inr,
}

-- exclusive or of the low `w` bits
unfoldable pub bit_xor : ℕ → ℕ → ℕ → ℕ
bit_xor zero a b = 0
bit_xor (suc w) a b = (a + b) % 2 + 2 * bit_xor w (a / 2) (b / 2)

abbrev pub key : ℕ
key = 90

-- the digits of `%02X`
abbrev pub hex_digit : ℕ → ℕ
hex_digit n = if ltb n 10 then 48 + n else 55 + n

-- the digits of `%016lx`
abbrev pub lower_hex_digit : ℕ → ℕ
lower_hex_digit n = if ltb n 10 then 48 + n else 87 + n

abbrev pub hex_value : ℕ → Option ℕ
hex_value c =
    if leb 48 c && leb c 57
    then some (c - 48)
    else if leb 65 c && leb c 70
    then some (c - 55)
    else if leb 97 c && leb c 102
    then some (c - 87)
    else none

-- the loop of `security_encrypt`
unfoldable pub encrypt_bytes : Bytes → Bytes
unfolding bit_xor
encrypt_bytes [] = []
encrypt_bytes (c ∷ cs) =
    hex_digit (bit_xor 8 c key / 16) ∷ hex_digit (bit_xor 8 c key % 16) ∷ encrypt_bytes cs

-- The return value, and what is written to `output`, its terminating 0 included. `has_output` tells
-- whether it is not NULL.
unfoldable pub security_encrypt : Option Bytes → Bool → ℕ → ℤ × Bytes
unfolding encrypt_bytes
security_encrypt none has_output max_len = (minus_one, [])
security_encrypt (some input) has_output max_len =
    if not has_output || max_len == 0
    then (minus_one, [])
    else if leb max_len (length input * 2)
    then (minus_one, [])
    else (pos 0, encrypt_bytes input ++ 0 ∷ [])

abbrev pub is_sign : ℕ → Bool
is_sign c = c == 43 || c == 45

-- a `-` before a number is read modulo 2 ^ 32
abbrev pub signed : ℕ → ℕ → ℕ
signed c v = if c == 45 then (2 ^ 32 - v) % 2 ^ 32 else v

-- What `sscanf` reads by "%2X" from the two characters: white space is skipped, one sign is taken,
-- and one or two digits; "0x" with no digit is no number.
unfoldable pub scan_hex : ℕ → ℕ → Option ℕ
scan_hex c d =
    if is_space c
    then hex_value d
    else if is_sign c
    then elim (hex_value d) [ none ↦ none | some v ↦ some (signed c v) ]
    else elim (hex_value c) [
      | none ↦ none
      | some v ↦
          if c == 48 && (d == 120 || d == 88)
          then none
          else elim (hex_value d) [ none ↦ some v | some u ↦ some (v * 16 + u) ]
    ]

-- The loop of `security_decrypt`: the return value, and what it wrote before it stopped. The cast
-- to `char` keeps 8 bits.
unfoldable pub decrypt_bytes : Bytes → ℤ × Bytes
unfolding scan_hex bit_xor
decrypt_bytes [] = (pos 0, 0 ∷ [])
decrypt_bytes (c ∷ []) = (pos 0, 0 ∷ [])
decrypt_bytes (c ∷ d ∷ rest) =
    let (code, written) = decrypt_bytes rest in
    elim (scan_hex c d) [ none ↦ (minus_one, []) | some v ↦ (code, bit_xor 8 v key ∷ written) ]

unfoldable pub security_decrypt : Option Bytes → Bool → ℕ → ℤ × Bytes
unfolding decrypt_bytes
security_decrypt none has_output max_len = (minus_one, [])
security_decrypt (some input) has_output max_len =
    if not has_output || max_len == 0
    then (minus_one, [])
    else if not (length input % 2 == 0) || leb max_len (length input / 2)
    then (minus_one, [])
    else decrypt_bytes input

-- an `unsigned long` of 64 bits
abbrev pub word : ℕ
word = 2 ^ 64

-- the loop of `security_hash`
unfoldable pub hash_bytes : ℕ → Bytes → ℕ
hash_bytes hash [] = hash
hash_bytes hash (c ∷ cs) = hash_bytes (((hash * 2 ^ 5) % word + hash + c) % word) cs

-- the last `n` hexadecimal digits
unfoldable pub lower_hex : ℕ → ℕ → Bytes
lower_hex zero v = []
lower_hex (suc n) v = lower_hex n (v / 16) ++ lower_hex_digit (v % 16) ∷ []

unfoldable pub security_hash : Option Bytes → Bool → ℕ → ℤ × Bytes
unfolding hash_bytes lower_hex
security_hash none has_output max_len = (minus_one, [])
security_hash (some input) has_output max_len =
    if not has_output || max_len == 0
    then (minus_one, [])
    else (pos 0, take (max_len - 1) (lower_hex 16 (hash_bytes 5381 input)) ++ 0 ∷ [])

abbrev pub is_hex : ℕ → Bool
is_hex c = (leb 48 c && leb c 57) || (leb 97 c && leb c 102) || (leb 65 c && leb c 70)

unfoldable pub all_hex : Bytes → Bool
all_hex [] = true
all_hex (c ∷ cs) = if not (is_hex c) then false else all_hex cs

abbrev pub token_prefix : Bytes
token_prefix = codes "admin_token_"

unfoldable pub security_validate_token : Option Bytes → ℤ
unfolding all_hex
security_validate_token none = pos 0
security_validate_token (some token) =
    if is_prefix token_prefix token
    then (if ltb 12 (length token)
        then (if all_hex (drop 12 token) then pos 1 else pos 0)
        else pos 0)
    else pos 0
