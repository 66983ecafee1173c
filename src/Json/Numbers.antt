-- ===== src/Json/Numbers.antt =====
-- Numbers in src/json_io.c: `%d` of `snprintf`, and `atoi`, of the C library.
pub mod Laws
use luminix_experience_platf.Base.{
  ltb, Bytes, ◌*◌, ◌/◌, ◌%◌, ◌^◌, ◌==◌, ℕ, zero, suc, ◌+◌, ◌-◌, ◌≤◌, ◌<◌, ℤ, pos, negsuc, Bool,
  true, false, not, ◌&&◌, ◌||◌, List, [], ◌∷◌, ◌++◌, Option, none, some, ◌≡◌, ◌≢◌, ◌↔◌, refl, arith,
  if◌then◌else◌, inl, inr,
}
use luminix_experience_platf.Json.{is_digit, json_skip_whitespace}

-- `%u`, with more fuel than digits
unfoldable pub print_digits : ℕ → ℕ → Bytes
print_digits zero n = []
print_digits (suc f) n =
    let front = print_digits f (n / 10) in
    if ltb n 10 then (48 + n) ∷ [] else front ++ (48 + n % 10) ∷ []

unfoldable pub print_nat : ℕ → Bytes
unfolding print_digits
print_nat n = print_digits (suc n) n

-- `%d`
unfoldable pub print_int : ℤ → Bytes
unfolding print_nat
print_int (pos n) = print_nat n
print_int (negsuc n) = 45 ∷ print_nat (suc n)

unfoldable pub digits_value : ℕ → Bytes → ℕ
digits_value acc [] = acc
digits_value acc (c ∷ cs) =
    let more = digits_value (acc * 10 + (c - 48)) cs in if is_digit c then more else acc

-- The value as an `int`: what `strtol` gives, up to LONG_MAX, cut to 32 bits.
unfoldable pub wrap_int : ℕ → ℤ
wrap_int n = let m : ℕ = n % 2 ^ 32 in if ltb m (2 ^ 31) then pos m else negsuc (2 ^ 32 - m - 1)

unfoldable pub atoi_sign : Bytes → ℤ
unfolding digits_value wrap_int
atoi_sign [] = pos 0
atoi_sign (c ∷ cs) =
    if c == 45
    then wrap_int (2 ^ 32 - digits_value 0 cs % 2 ^ 32)
    else if c == 43
    then wrap_int (digits_value 0 cs)
    else wrap_int (digits_value 0 (c ∷ cs))

unfoldable pub atoi : Bytes → ℤ
unfolding atoi_sign json_skip_whitespace
atoi str = atoi_sign (json_skip_whitespace str)
