-- ===== src/Security/Laws.antt =====
-- Laws of the cipher, the hash and the token test of src/security.c.
use luminix_experience_platf.Security.{
  lower_hex, security_hash, is_hex, word, token_prefix, security_decrypt, key, hex_digit,
  security_validate_token, security_encrypt, scan_hex, hex_value, hash_bytes, encrypt_bytes,
  decrypt_bytes, bit_xor, all_hex,
}
use luminix_experience_platf.Base.{
  minus_one, if_elim, leb, Option-cases, ◌∙◌, ◌*◌, ◌/◌, ◌%◌, ◌^◌, ◌==◌, length-take-le,
  is_prefix_append, take, append_drop, length-append, drop, length, All, Bytes, ℕ, zero, suc, ◌+◌,
  ◌-◌, ◌≤◌, ◌<◌, ℤ, pos, Bool, true, false, not, ◌||◌, [], ◌∷◌, ◌++◌, Option, none, some, ◌≡◌, ◌↔◌,
  refl, arith, inl, inr,
}

bit_xor-lt : (w a b : ℕ) → bit_xor w a b < 2 ^ w
unfolding bit_xor
bit_xor-lt zero a b = omega arith
bit_xor-lt (suc w) a b = omega (arith, bit_xor-lt w (a / 2) (b / 2))

-- a second exclusive or with the same key undoes the first
bit_xor_cancel : (w a b : ℕ) → a < 2 ^ w → bit_xor w (bit_xor w a b) b ≡ a
unfolding bit_xor
bit_xor_cancel zero a b h = omega arith
bit_xor_cancel (suc w) a b h =
    let rest : ℕ = bit_xor w (a / 2) (b / 2) in
    let halves : ((a + b) % 2 + 2 * rest) / 2 ≡ rest = omega arith in
    rw halves (omega (arith, bit_xor_cancel w (a / 2) (b / 2) (omega arith)))

hex_value_digit : (n : ℕ) → n < 16 → hex_value (hex_digit n) ≡ some n
hex_value_digit n h = ground arith

scan_byte : (v : ℕ) → v < 256 → scan_hex (hex_digit (v / 16)) (hex_digit (v % 16)) ≡ some v
unfolding scan_hex
scan_byte v h =
    ground (arith, hex_value_digit (v / 16) (omega arith), hex_value_digit (v % 16) (omega arith))

length-encrypt_bytes : (cs : Bytes) → length (encrypt_bytes cs) ≡ length cs * 2
unfolding encrypt_bytes
length-encrypt_bytes [] = refl
length-encrypt_bytes (c ∷ cs) = omega (arith, length-encrypt_bytes cs)

abbrev pub AreBytes : Bytes → Type 0
AreBytes = All (λ c. c < 256)

decrypt_step :
    (c d v : ℕ) (rest : Bytes)
    → scan_hex c d ≡ some v
    → decrypt_bytes (c ∷ d ∷ rest)
      ≡ ((decrypt_bytes rest).0, bit_xor 8 v key ∷ (decrypt_bytes rest).1)
unfolding decrypt_bytes
decrypt_step c d v rest h = rw (h, decrypt_bytes) refl

decrypt_stop :
    (c d : ℕ) (rest : Bytes) → scan_hex c d ≡ none → decrypt_bytes (c ∷ d ∷ rest) ≡ (minus_one, [])
unfolding decrypt_bytes
decrypt_stop c d rest h = rw (h, decrypt_bytes) refl

decrypt_encrypt_bytes :
    (cs : Bytes) → AreBytes cs → decrypt_bytes (encrypt_bytes cs) ≡ (pos 0, cs ++ 0 ∷ [])
unfolding encrypt_bytes
decrypt_encrypt_bytes [] h = unfold decrypt_bytes in refl
decrypt_encrypt_bytes (c ∷ cs) h =
    let v : ℕ = bit_xor 8 c key in
    let step : decrypt_bytes (encrypt_bytes (c ∷ cs)) ≡ (
      (decrypt_bytes (encrypt_bytes cs)).0,
      bit_xor 8 v key ∷ (decrypt_bytes (encrypt_bytes cs)).1,
    ) =
      decrypt_step (hex_digit (v / 16)) (hex_digit (v % 16)) v (encrypt_bytes cs)
        (scan_byte v (bit_xor-lt 8 c key)) in
    step ∙ rw (bit_xor_cancel 8 c key h.0, decrypt_encrypt_bytes cs h.1) refl

decrypt_run :
    (input : Bytes) (max_len : ℕ)
    → length input % 2 ≡ 0
    → length input / 2 < max_len
    → security_decrypt (some input) true max_len ≡ decrypt_bytes input
unfolding security_decrypt
decrypt_run input max_len even fits =
    let some_room : (max_len == 0) ≡ false = ground arith in
    let fits_test : leb max_len (length input / 2) ≡ false = ground arith in
    rw (some_room, even, fits_test) refl

-- If the input consists of bytes and both buffers are large enough, encryption succeeds, and
-- decryption of what it wrote succeeds and writes the input.
pub security_decrypt-security_encrypt :
    (input : Bytes) (max_len max_out : ℕ)
    → AreBytes input
    → length input * 2 < max_len
    → length input < max_out
    → (cipher : Bytes) × (security_encrypt (some input) true max_len ≡ (pos 0, cipher ++ 0 ∷ []))
      × (security_decrypt (some cipher) true max_out ≡ (pos 0, input ++ 0 ∷ []))
unfolding security_encrypt security_decrypt
security_decrypt-security_encrypt input max_len max_out h fits fits_out =
    let n = length-encrypt_bytes input in
    (
      encrypt_bytes input,
      ground arith,
      decrypt_run (encrypt_bytes input) max_out (omega (arith, n)) (omega (arith, n))
          ∙ decrypt_encrypt_bytes input h,
    )

step_bound :
    (c d : ℕ) (rest : Bytes)
    → length (decrypt_bytes (c ∷ d ∷ rest)).1 ≤ suc (length (decrypt_bytes rest).1)
step_bound c d rest = elim (Option-cases (scan_hex c d)) [
  | inl bad ↦ rw (decrypt_stop c d rest bad) (omega arith)
  | inr (v, good) ↦ rw (decrypt_step c d v rest good) (omega arith)
]

written_bound : (cs : Bytes) → 2 * length (decrypt_bytes cs).1 ≤ length cs + 2
written_bound [] = unfold decrypt_bytes in omega arith
written_bound (c ∷ []) = unfold decrypt_bytes in omega arith
written_bound (c ∷ d ∷ cs) = omega (arith, step_bound c d cs, written_bound cs)

decrypt_bound :
    (input : Bytes) (has_output : Bool) (max_len : ℕ)
    → length (security_decrypt (some input) has_output max_len).1 ≤ max_len
unfolding security_decrypt
decrypt_bound input has_output max_len =
    let fits : ℤ × Bytes → Type 0 = λ r. length r.1 ≤ max_len in
    if_elim fits (not has_output || max_len == 0) (λ bad. omega arith)
      (λ good.
        if_elim fits (not (length input % 2 == 0) || leb max_len (length input / 2))
          (λ bad. omega arith) (λ even. omega (arith, written_bound input, room even)))
  where
    room :
        not (length input % 2 == 0) || leb max_len (length input / 2) ≡ false
        → (length input % 2 ≡ 0) × (length input / 2 < max_len)
    room h = ground arith

-- `security_encrypt`, `security_decrypt` and `security_hash` never write more than `max_len` bytes,
-- whatever they are given.
pub security_bounds :
    (input : Option Bytes) (has_output : Bool) (max_len : ℕ)
    → (length (security_encrypt input has_output max_len).1 ≤ max_len)
      × (length (security_decrypt input has_output max_len).1 ≤ max_len)
      × (length (security_hash input has_output max_len).1 ≤ max_len)
unfolding security_encrypt security_decrypt security_hash
security_bounds none has_output max_len = (omega arith, omega arith, omega arith)
security_bounds (some input) has_output max_len = (
  ground (arith, length-encrypt_bytes input, length-append (encrypt_bytes input) (0 ∷ [])),
  decrypt_bound input has_output max_len,
  ground (
    arith,
    length-append (take (max_len - 1) (lower_hex 16 (hash_bytes 5381 input))) (0 ∷ []),
    length-take-le (max_len - 1) (lower_hex 16 (hash_bytes 5381 input)),
  ),
)

-- hash * 33 + c, without a bound
pub djb2 : ℕ → Bytes → ℕ
djb2 hash [] = hash
djb2 hash (c ∷ cs) = djb2 (hash * 33 + c) cs

djb2_mod : (cs : Bytes) (a b : ℕ) → a % word ≡ b % word → djb2 a cs % word ≡ djb2 b cs % word
unfolding djb2
djb2_mod [] a b h = h
djb2_mod (c ∷ cs) a b h = djb2_mod cs (a * 33 + c) (b * 33 + c) (omega arith)

-- From a hash below 2 ^ 64 the loop of `security_hash` computes `hash * 33 + c` from character to
-- character, modulo 2 ^ 64.
pub hash_bytes-djb2 :
    (hash : ℕ) (cs : Bytes) → hash < word → hash_bytes hash cs ≡ djb2 hash cs % word
unfolding hash_bytes djb2
hash_bytes-djb2 hash [] h = omega arith
hash_bytes-djb2 hash (c ∷ cs) h =
    let next : ℕ = ((hash * 2 ^ 5) % word + hash + c) % word in
    hash_bytes-djb2 next cs (omega arith) ∙ djb2_mod cs next (hash * 33 + c) (omega arith)

all_hex_iff : (cs : Bytes) → (all_hex cs ≡ true) ↔ All (λ c. is_hex c ≡ true) cs
unfolding all_hex
all_hex_iff [] = (λ h. tt, λ h. refl)
all_hex_iff (c ∷ cs) =
    (λ h. ground (arith, (all_hex_iff cs).0), λ h. ground (arith, (all_hex_iff cs).1))

-- `security_validate_token` returns 1 for exactly the tokens that are "admin_token_" followed by
-- one or more hexadecimal digits.
pub security_validate_token_iff :
    (token : Bytes)
    → (security_validate_token (some token) ≡ pos 1) ↔ (
        (digits : Bytes) × (token ≡ token_prefix ++ digits)
        × (1 ≤ length digits)
        × All (λ c. is_hex c ≡ true) digits)
unfolding security_validate_token
security_validate_token_iff token = (
  λ h. (
    drop 12 token,
    append_drop token_prefix token (ground arith),
    ground (arith, length-append token_prefix (drop 12 token), append_drop token_prefix token),
    (all_hex_iff (drop 12 token)).0 (ground arith),
  ),
  λ (digits, same, some_digit, hex).
      rw (same, is_prefix_append token_prefix digits, (all_hex_iff digits).1 hex) (ground arith),
)
