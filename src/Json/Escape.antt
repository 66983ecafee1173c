-- ===== src/Json/Escape.antt =====
-- src/json_io.c: json_escape_string and json_escape_string_alloc.
pub mod Laws
use luminix_experience_platf.Base.{
  length, ltb, Bytes, ◌*◌, ◌/◌, ◌%◌, ◌^◌, ◌==◌, ℕ, zero, suc, ◌+◌, ◌-◌, ◌≤◌, ◌<◌, ℤ, pos, negsuc,
  Bool, true, false, not, ◌&&◌, ◌||◌, List, [], ◌∷◌, ◌++◌, Option, none, some, ◌≡◌, ◌≢◌, ◌↔◌, refl,
  arith, if◌then◌else◌, inl, inr,
}

-- `lower_hex` of a digit
abbrev hex : ℕ → ℕ
hex d = if ltb d 10 then 48 + d else 87 + d

-- What the switch writes for the byte, if it fits. A byte that is not escaped stands for itself.
unfoldable pub escape_char : ℕ → Bytes
escape_char c =
    if c == 34
    then 92 ∷ 34 ∷ []
    else if c == 92
    then 92 ∷ 92 ∷ []
    else if c == 8
    then 92 ∷ b'b' ∷ []
    else if c == 12
    then 92 ∷ b'f' ∷ []
    else if c == 10
    then 92 ∷ b'n' ∷ []
    else if c == 13
    then 92 ∷ b'r' ∷ []
    else if c == 9
    then 92 ∷ b't' ∷ []
    else if ltb c 32
    then 92 ∷ b'u' ∷ 48 ∷ 48 ∷ hex (c / 16) ∷ hex (c % 16) ∷ []
    else c ∷ []

-- `dst_len + n < dst_size` for an escape of n bytes; one byte alone has been tested by the loop
unfoldable pub escape_fits : ℕ → ℕ → ℕ → Bool
escape_fits dst_size dst_len n = n == 1 || ltb (dst_len + n) dst_size

-- The loop over `src` with what is in `dst` so far, `dst_size` not 0. An escape that does not fit
-- is dropped, and the loop goes on.
unfoldable pub escape_loop : ℕ → Bytes → Bytes → Bytes
unfolding escape_char escape_fits
escape_loop dst_size dst [] = dst
escape_loop dst_size dst (c ∷ src) =
    let kept = escape_loop dst_size (dst ++ escape_char c) src in
    let dropped = escape_loop dst_size dst src in
    if ltb (length dst) (dst_size - 1)
    then (if escape_fits dst_size (length dst) (length (escape_char c)) then kept else dropped)
    else dst

-- what `dst` holds before its NUL; the result is the length of it
unfoldable pub json_escape_string : Bytes → ℕ → Bytes
unfolding escape_loop
json_escape_string src dst_size = escape_loop dst_size [] src

unfoldable pub json_escape_string_alloc : Bytes → Bytes
unfolding json_escape_string
json_escape_string_alloc str = json_escape_string str (length str * 6 + 1)
