-- ===== src/Utils/Strings.antt =====
-- src/utils.c: string_replace, string_split, join_strings, and small tests and conversions. Memory
-- is granted elsewhere than in string_replace.
pub mod Laws
use luminix_experience_platf.Base.{
  to_lower, get_or, minus_one, map, length, leb, is_some, codes, str_eq, ltb_ℤ, ltb, is_prefix,
  Bytes, ◌*◌, ◌/◌, ◌%◌, ◌^◌, ◌==◌, ℕ, zero, suc, ◌+◌, ◌-◌, ◌≤◌, ◌<◌, ℤ, pos, negsuc, Bool, true,
  false, not, ◌&&◌, ◌||◌, List, [], ◌∷◌, ◌++◌, Option, none, some, ◌≡◌, ◌≢◌, ◌↔◌, refl, arith,
  if◌then◌else◌, inl, inr,
}
use luminix_experience_platf.Parser.{trim_spaces, find_sub, has_char}
use luminix_experience_platf.Utils.{validate_table_name}

-- The greedy loop from a position, with how many bytes of an occurrence are still to be passed.
-- `old` is not empty: with an empty one the counting loop never ends.
unfoldable pub replace_from : Bytes → Bytes → ℕ → Bytes → Bytes
unfolding is_prefix
replace_from old new n [] = []
replace_from old new (suc k) (c ∷ cs) = replace_from old new k cs
replace_from old new zero (c ∷ cs) =
    let passed = replace_from old new (length old - 1) cs in
    let kept = replace_from old new zero cs in
    if is_prefix old (c ∷ cs) then new ++ passed else c ∷ kept

-- the first loop, which counts
unfoldable pub occurrences : Bytes → ℕ → Bytes → ℕ
unfolding is_prefix
occurrences old n [] = 0
occurrences old (suc k) (c ∷ cs) = occurrences old k cs
occurrences old zero (c ∷ cs) =
    let passed = occurrences old (length old - 1) cs in
    let kept = occurrences old zero cs in if is_prefix old (c ∷ cs) then suc passed else kept

-- `i + count * (new_len - old_len) + 1` in `size_t`, which has 64 bits; `i` is at the end of `str`,
-- whose length an `int` holds
unfoldable pub replaced_size : Bytes → Bytes → Bytes → ℕ
unfolding occurrences
replaced_size str old new =
    (length str + occurrences old 0 str * ((length new + 2 ^ 64 - length old) % 2 ^ 64) + 1)
    % 2 ^ 64

-- `grants n` is whether `malloc` gives `n` bytes
unfoldable pub string_replace :
    (ℕ → Bool) → Option Bytes → Option Bytes → Option Bytes → Option Bytes
unfolding replace_from replaced_size
string_replace grants (some str) (some old) (some new) =
    if grants (replaced_size str old new) then some (replace_from old new 0 str) else none
string_replace grants _ _ _ = none

-- the tokens of `strtok`; `word` is the token that is being read
unfoldable pub split_at : Bytes → Bytes → Bytes → List Bytes
unfolding has_char
split_at delimiter word [] = if length word == 0 then [] else word ∷ []
split_at delimiter word (c ∷ cs) =
    let next = split_at delimiter [] cs in
    let longer = split_at delimiter (word ++ c ∷ []) cs in
    if has_char delimiter c then (if length word == 0 then next else word ∷ next) else longer

-- NULL if there is no token; `*count` is the length of the list
unfoldable pub string_split : Option Bytes → Option Bytes → Option (List Bytes)
unfolding split_at trim_spaces
string_split (some str) (some delimiter) = elim (split_at delimiter [] str) [
  | [] ↦ none
  | t ∷ ts ↦ some (map trim_spaces (t ∷ ts))
]
string_split _ _ = none

-- the strings with the delimiter between them
unfoldable pub join_strings : List Bytes → Bytes → Bytes
join_strings [] delimiter = []
join_strings (s ∷ []) delimiter = s
join_strings (s ∷ t ∷ ts) delimiter = s ++ (delimiter ++ join_strings (t ∷ ts) delimiter)

unfoldable pub string_contains : Option Bytes → Option Bytes → Bool
unfolding find_sub
string_contains (some str) (some substring) = is_some (find_sub str substring)
string_contains _ _ = false

unfoldable pub is_boolean : Option Bytes → Bool
unfolding str_eq
is_boolean none = false
is_boolean (some str) =
    let lower : Bytes = map to_lower str in
    str_eq lower (codes "true")
    || str_eq lower (codes "false")
    || str_eq lower (codes "1")
    || str_eq lower (codes "0")
    || str_eq lower (codes "yes")
    || str_eq lower (codes "no")

unfoldable pub string_to_bool : Option Bytes → Bool
unfolding str_eq
string_to_bool none = false
string_to_bool (some str) =
    let lower : Bytes = map to_lower str in
    str_eq lower (codes "true") || str_eq lower (codes "1") || str_eq lower (codes "yes")

-- the bytes from position i on are digits, but for the hyphens at 4 and 7
unfoldable pub date_digits : ℕ → Bytes → Bool
date_digits i [] = true
date_digits i (c ∷ cs) =
    let rest = date_digits (i + 1) cs in
    if i == 4 || i == 7 then rest else (if leb 48 c && leb c 57 then rest else false)

unfoldable pub is_date : Option Bytes → Bool
unfolding date_digits
is_date none = false
is_date (some str) =
    if not (length str == 10)
    then false
    else if not (get_or str 4 0 == 45) || not (get_or str 7 0 == 45)
    then false
    else date_digits 0 str

abbrev pub validate_column_name : Option Bytes → ℤ
validate_column_name = validate_table_name

abbrev pub validate_database_name : Option Bytes → ℤ
validate_database_name = validate_table_name

abbrev pub validate_sql_identifier : Option Bytes → ℤ
validate_sql_identifier = validate_table_name

-- a `char` is signed, and an `unsigned int` has 32 bits
abbrev pub signed_char : ℕ → ℕ
signed_char c = if ltb c 128 then c else 2 ^ 32 - 256 + c

unfoldable pub hash_loop : ℕ → Bytes → ℕ
hash_loop hash [] = hash
hash_loop hash (c ∷ cs) = hash_loop (((hash * 32) % 2 ^ 32 + hash + signed_char c) % 2 ^ 32) cs

unfoldable pub hash_string : Option Bytes → ℕ
unfolding hash_loop
hash_string none = 0
hash_string (some str) = hash_loop 5381 str

unfoldable pub compare_ints : ℤ → ℤ → ℤ
compare_ints a b = if ltb_ℤ a b then minus_one else if ltb_ℤ b a then pos 1 else pos 0

abbrev pub serialize_bool : Bool → Bytes
serialize_bool b = if b then codes "true" else codes "false"

unfoldable pub deserialize_bool : Option Bytes → Bool
unfolding str_eq
deserialize_bool none = false
deserialize_bool (some str) = str_eq str (codes "true") || str_eq str (codes "1")
