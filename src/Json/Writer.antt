-- ===== src/Json/Writer.antt =====
-- src/json_io.c: the growing buffer of the serializer, and what is built on it directly. The buffer
-- is its first `size` bytes; a byte behind them holds the NUL. `grants` is what `realloc` and
-- `malloc` answer to a request of a size.
pub mod Room
pub mod Laws
use luminix_experience_platf.Base.{
  ltb, length, codes, Bytes, ◌*◌, ◌/◌, ◌%◌, ◌^◌, ◌==◌, ℕ, zero, suc, ◌+◌, ◌-◌, ◌≤◌, ◌<◌, ℤ, pos,
  negsuc, Bool, true, false, not, ◌&&◌, ◌||◌, List, [], ◌∷◌, ◌++◌, Option, none, some, ◌≡◌, ◌≢◌,
  ◌↔◌, refl, arith, if◌then◌else◌, inl, inr,
}
use luminix_experience_platf.Json.Escape.{json_escape_string_alloc}

pub record JsonSerializeState : Type 0 where
  pub buffer : Bytes
  pub capacity : ℕ
  pub indent_level : ℕ
  pub pretty : Bool
  pub grants : ℕ → Bool

abbrev pub size : JsonSerializeState → ℕ
size s = length s.buffer

-- `while (new_capacity < needed) new_capacity *= 2`, on 64 bits. `none` means that the fuel ran out.
unfoldable pub double_capacity : ℕ → ℕ → ℕ → Option ℕ
double_capacity zero new_capacity needed = none
double_capacity (suc f) new_capacity needed =
    let more = double_capacity f (new_capacity * 2 % 2 ^ 64) needed in
    if ltb new_capacity needed then more else some new_capacity

-- 64 rounds are enough: Json.Writer.Room
unfoldable pub json_serialize_ensure_capacity : ℕ → JsonSerializeState → Option JsonSerializeState
unfolding double_capacity
json_serialize_ensure_capacity additional s =
    if ltb s.capacity (size s + additional + 1)
    then elim (double_capacity 64 (s.capacity * 2 % 2 ^ 64) (size s + additional + 1)) [
      | none ↦ none
      | some new_capacity ↦
          if s.grants new_capacity then some (record s { capacity = new_capacity }) else none
    ]
    else some s

-- A function of the serializer; `none` is its `return false`.
abbrev pub Writer : Type 0
Writer = JsonSerializeState → Option JsonSerializeState

-- `if (!first) return false; second`
infixl 5 ◌>>◌
abbrev pub ◌>>◌ : Writer → Writer → Writer
◌>>◌ first second s = elim (first s) [ none ↦ none | some s' ↦ second s' ]

unfoldable pub json_serialize_append : Bytes → Writer
json_serialize_append str s = elim (json_serialize_ensure_capacity (length str) s) [
  | none ↦ none
  | some s' ↦ some (record s' { buffer = s'.buffer ++ str })
]

-- the copy that json_escape_string_alloc asks for
abbrev pub allocate : ℕ → Writer
allocate n s = if s.grants n then some s else none

unfoldable pub json_serialize_append_string : Option Bytes → Writer
json_serialize_append_string none = json_serialize_append (codes "null")
json_serialize_append_string (some str) =
    allocate (length str * 6 + 1)
    >> json_serialize_append (codes "\"")
    >> json_serialize_append (json_escape_string_alloc str)
    >> json_serialize_append (codes "\"")

abbrev pub nothing : Writer
nothing s = some s

unfoldable pub append_spaces : ℕ → Writer
append_spaces zero = nothing
append_spaces (suc n) = json_serialize_append (codes " ") >> append_spaces n

abbrev pub json_indent_size : ℕ
json_indent_size = 2

unfoldable pub json_serialize_indent : Writer
unfolding append_spaces
json_serialize_indent s =
    if not s.pretty
    then some s
    else (json_serialize_append (codes "\n") >> append_spaces (s.indent_level * json_indent_size)) s

-- `indent_level++` and `indent_level--`
abbrev pub indent_more : Writer
indent_more s = some (record s { indent_level = s.indent_level + 1 })

abbrev pub indent_less : Writer
indent_less s = some (record s { indent_level = s.indent_level - 1 })
