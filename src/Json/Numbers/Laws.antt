-- ===== src/Json/Numbers/Laws.antt =====
-- Numbers in src/json_io.c: what `%d` prints, json_parse_token reads as one token and `atoi` reads
-- back.
use luminix_experience_platf.Base.{
  append-nil, sym, int_max, ap, ◌≤ℤ◌, length, ◌∙◌, take, length-append, int_min, append_assoc,
  Bytes, ◌/◌, ◌%◌, ◌^◌, ◌==◌, ℕ, zero, suc, ◌+◌, ◌-◌, ◌<◌, ℤ, pos, negsuc, Bool, true, false, not,
  ◌&&◌, ◌||◌, [], ◌∷◌, ◌++◌, ◌≡◌, refl, arith,
}
use luminix_experience_platf.Json.{
  is_digit, json_skip_whitespace, skip_digits, skip_minus, skip_fraction, skip_exponent,
  skip_number, number_token, token_at, json_parse_token, token, token_number, between,
}
use luminix_experience_platf.Json.Numbers.{
  print_digits, print_nat, print_int, digits_value, wrap_int, atoi_sign, atoi,
}

digits_value-print_digits :
    (f n : ℕ) (rest : Bytes)
    → n < f
    → digits_value 0 (print_digits f n ++ rest) ≡ digits_value n rest
unfolding digits_value print_digits
digits_value-print_digits zero n rest h = absurd (omega arith)
digits_value-print_digits (suc f) n rest h = ground (
  arith,
  append_assoc (print_digits f (n / 10)) ((48 + n % 10) ∷ []) rest,
  digits_value-print_digits f (n / 10) ((48 + n % 10) ∷ rest),
)

skip_digits-print_digits :
    (f n : ℕ) (rest : Bytes) → n < f → skip_digits (print_digits f n ++ rest) ≡ skip_digits rest
unfolding skip_digits print_digits
skip_digits-print_digits zero n rest h = absurd (omega arith)
skip_digits-print_digits (suc f) n rest h = ground (
  arith,
  append_assoc (print_digits f (n / 10)) ((48 + n % 10) ∷ []) rest,
  skip_digits-print_digits f (n / 10) ((48 + n % 10) ∷ rest),
)

-- the text begins with a digit
pub first_digit : Bytes → Bool
first_digit [] = false
first_digit (c ∷ cs) = is_digit c

first_digit-append : (xs ys : Bytes) → first_digit xs ≡ true → first_digit (xs ++ ys) ≡ true
unfolding first_digit
first_digit-append [] ys h = cc
first_digit-append (x ∷ xs) ys h = h

first_digit-print_digits : (f n : ℕ) → n < f → first_digit (print_digits f n) ≡ true
unfolding first_digit print_digits
first_digit-print_digits zero n h = absurd (omega arith)
first_digit-print_digits (suc f) n h = ground (
  arith,
  first_digit-append (print_digits f (n / 10)) ((48 + n % 10) ∷ []),
  first_digit-print_digits f (n / 10),
)

first_digit-print_nat : (n : ℕ) → first_digit (print_nat n) ≡ true
unfolding print_nat
first_digit-print_nat n = first_digit-print_digits (suc n) n (omega arith)

-- the text does not go on with the number
unfoldable pub number_ends : Bytes → Bool
number_ends [] = true
number_ends (c ∷ cs) = not (is_digit c) && not (c == 46) && not (c == 101) && not (c == 69)

take-length-append : (xs ys : Bytes) → take (length xs) (xs ++ ys) ≡ xs
take-length-append [] ys = refl
take-length-append (x ∷ xs) ys = ap (λ r. x ∷ r) (take-length-append xs ys)

pub between-append : (xs ys : Bytes) → between (xs ++ ys) ys ≡ xs
between-append xs ys =
    rw (length-append xs ys) (rw (subtract_all (length xs) (length ys)) (take-length-append xs ys))
  where
    subtract_all : (a b : ℕ) → a + b - b ≡ a
    subtract_all a b = omega arith

skip_digits_ends : (rest : Bytes) → number_ends rest ≡ true → skip_digits rest ≡ rest
unfolding skip_digits number_ends
skip_digits_ends [] h = refl
skip_digits_ends (c ∷ cs) h = ground arith

skip_fraction_ends : (rest : Bytes) → number_ends rest ≡ true → skip_fraction rest ≡ rest
unfolding skip_fraction number_ends
skip_fraction_ends [] h = refl
skip_fraction_ends (c ∷ cs) h = ground arith

skip_exponent_ends : (rest : Bytes) → number_ends rest ≡ true → skip_exponent rest ≡ rest
unfolding skip_exponent number_ends
skip_exponent_ends [] h = refl
skip_exponent_ends (c ∷ cs) h = ground arith

skip_minus_digit : (text : Bytes) → first_digit text ≡ true → skip_minus text ≡ text
unfolding skip_minus first_digit
skip_minus_digit [] h = cc
skip_minus_digit (c ∷ cs) h = ground arith

after_digits :
    (f n : ℕ) (rest : Bytes)
    → n < f
    → number_ends rest ≡ true
    → skip_exponent (skip_fraction (skip_digits (print_digits f n ++ rest))) ≡ rest
after_digits f n rest h e =
    rw (skip_digits-print_digits f n rest h)
      (rw (skip_digits_ends rest e) (rw (skip_fraction_ends rest e) (skip_exponent_ends rest e)))

skip_number-print_int :
    (n : ℤ) (rest : Bytes) → number_ends rest ≡ true → skip_number (print_int n ++ rest) ≡ rest
unfolding skip_number print_int print_nat skip_minus
skip_number-print_int (pos n) rest e =
    rw
      (skip_minus_digit (print_digits (suc n) n ++ rest) (
        first_digit-append (print_digits (suc n) n) rest
          (first_digit-print_digits (suc n) n (omega arith))))
      (after_digits (suc n) n rest (omega arith) e)
skip_number-print_int (negsuc n) rest e = after_digits (suc (suc n)) (suc n) rest (omega arith) e

starts_number : Bytes → Bool
starts_number [] = false
starts_number (c ∷ cs) = c == 45 || is_digit c

digit_starts : (text : Bytes) → first_digit text ≡ true → starts_number text ≡ true
unfolding starts_number first_digit
digit_starts [] h = cc
digit_starts (c ∷ cs) h = ground arith

starts_number-print_int : (n : ℤ) (rest : Bytes) → starts_number (print_int n ++ rest) ≡ true
unfolding starts_number print_int print_nat
starts_number-print_int (pos n) rest = digit_starts (print_digits (suc n) n ++ rest) (
    first_digit-append (print_digits (suc n) n) rest
      (first_digit-print_digits (suc n) n (omega arith)))
starts_number-print_int (negsuc n) rest = refl

parse_number :
    (text : Bytes) → starts_number text ≡ true → json_parse_token text ≡ number_token text
unfolding starts_number json_parse_token json_skip_whitespace token_at
parse_number [] h = cc
parse_number (c ∷ cs) h = ground arith

-- the token of an integer that the code writes
pub json_parse_token-print_int :
    (n : ℤ) (rest : Bytes)
    → number_ends rest ≡ true
    → json_parse_token (print_int n ++ rest) ≡ (token token_number (print_int n), rest)
unfolding number_token
json_parse_token-print_int n rest e =
    parse_number (print_int n ++ rest) (starts_number-print_int n rest)
    ∙ rw (skip_number-print_int n rest e, between-append (print_int n) rest) refl

digits_value-print_nat : (n : ℕ) → digits_value 0 (print_nat n) ≡ n
unfolding print_nat digits_value
digits_value-print_nat n =
    ap (digits_value 0) (sym (append-nil (print_digits (suc n) n)))
    ∙ digits_value-print_digits (suc n) n [] (omega arith)

atoi_digits : (text : Bytes) → first_digit text ≡ true → atoi text ≡ wrap_int (digits_value 0 text)
unfolding atoi atoi_sign first_digit json_skip_whitespace
atoi_digits [] h = cc
atoi_digits (c ∷ cs) h = ground arith

atoi_minus : (text : Bytes) → atoi (45 ∷ text) ≡ wrap_int (2 ^ 32 - digits_value 0 text % 2 ^ 32)
unfolding atoi atoi_sign json_skip_whitespace
atoi_minus text = refl

-- `atoi` gives back the `int` that was printed.
pub atoi-print_int : (n : ℤ) → int_min ≤ℤ n → n ≤ℤ int_max → atoi (print_int n) ≡ n
unfolding print_int wrap_int
atoi-print_int (pos n) lo hi =
    atoi_digits (print_nat n) (first_digit-print_nat n)
    ∙ ap wrap_int (digits_value-print_nat n)
    ∙ ground arith
atoi-print_int (negsuc n) lo hi =
    atoi_minus (print_nat (suc n))
    ∙ ap (λ d. wrap_int (2 ^ 32 - d % 2 ^ 32)) (digits_value-print_nat (suc n))
    ∙ ground arith
