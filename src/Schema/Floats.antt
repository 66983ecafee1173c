-- ===== src/Schema/Floats.antt =====
-- `==` on `float` and `double`, by their IEEE 754 bit patterns: a NaN equals nothing, and the two
-- zeros are equal.
use luminix_experience_platf.Base.{ℕ, ◌+◌, ◌-◌, ◌%◌, ◌/◌, ◌^◌, Bool, not, ◌&&◌, ◌||◌, ◌==◌, ltb}

-- `mantissa` and `exponent` are the numbers of bits
is_nan : ℕ → ℕ → ℕ → Bool
is_nan mantissa exponent w =
    (w / 2 ^ mantissa % 2 ^ exponent == 2 ^ exponent - 1) && ltb 0 (w % 2 ^ mantissa)

ieee_eq : ℕ → ℕ → ℕ → ℕ → Bool
ieee_eq mantissa exponent a b =
    not (is_nan mantissa exponent a)
    && not (is_nan mantissa exponent b)
    && (a == b || (a % 2 ^ (mantissa + exponent) == 0 && b % 2 ^ (mantissa + exponent) == 0))

unfoldable pub float_eq : ℕ → ℕ → Bool
unfolding ieee_eq is_nan
float_eq = ieee_eq 23 8

unfoldable pub double_eq : ℕ → ℕ → Bool
unfolding ieee_eq is_nan
double_eq = ieee_eq 52 11
