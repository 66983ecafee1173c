-- ===== src/Parser.antt =====
-- src/parser.c: the parser of queries and of conditions. The texts are what `strdup` and `malloc`
-- return when memory is granted, and a pointer that may be NULL is an Option.
pub mod Laws
pub mod Conditions
use luminix_experience_platf.Database.Maintenance.{
  query_drop_table, query_create_table, query_delete, query_update, query_insert, query_select,
  QueryType,
}
use luminix_experience_platf.Base.{
  to_lower, take, map, length, leb, is_space, drop, codes, is_prefix, Bytes, ◌*◌, ◌/◌, ◌%◌, ◌^◌,
  ◌==◌, ℕ, zero, suc, ◌+◌, ◌-◌, ◌≤◌, ◌<◌, ℤ, pos, negsuc, Bool, true, false, not, ◌&&◌, ◌||◌, List,
  [], ◌∷◌, ◌++◌, Option, none, some, ◌≡◌, ◌≢◌, ◌↔◌, refl, arith, if◌then◌else◌, inl, inr,
}

pub record Condition : Type 0 where
  pub field : Bytes
  pub op : Bytes
  pub value : Bytes

-- `field_count` is the length of the list, and `condition_count` is 1 if there is a condition
pub record Query : Type 0 where
  pub type : QueryType
  pub table : Option Bytes
  pub fields : List Bytes
  pub condition : Option Condition

unfoldable pub skip_spaces : Bytes → Bytes
skip_spaces [] = []
skip_spaces (c ∷ cs) = let rest = skip_spaces cs in if is_space c then rest else c ∷ cs

-- drops the white space at the end
unfoldable pub trim_end : Bytes → Bytes
trim_end [] = []
trim_end (c ∷ cs) =
    let rest : Bytes = trim_end cs in if is_space c && length rest == 0 then [] else c ∷ rest

-- Its loop from the end stops at the first byte, which is no space after the first loop.
unfoldable pub trim_spaces : Bytes → Bytes
unfolding skip_spaces trim_end
trim_spaces str = trim_end (skip_spaces str)

-- `strstr`: the number of bytes before the first occurrence
unfoldable pub find_sub : Bytes → Bytes → Option ℕ
unfolding is_prefix
find_sub [] needle = if is_prefix needle [] then some 0 else none
find_sub (c ∷ cs) needle =
    let later = find_sub cs needle in
    if is_prefix needle (c ∷ cs) then some 0 else elim later [ none ↦ none | some n ↦ some (suc n) ]

-- `strchr` of a byte other than 0
unfoldable pub has_char : Bytes → ℕ → Bool
has_char [] c = false
has_char (d ∷ ds) c = c == d || has_char ds c

-- the bytes before the first that is among `ends`
unfoldable pub take_until : Bytes → Bytes → Bytes
unfolding has_char
take_until ends [] = []
take_until ends (c ∷ cs) = let rest = take_until ends cs in if has_char ends c then [] else c ∷ rest

abbrev pub lower : Bytes → Bytes
lower = map to_lower

-- the text after the first occurrence of the keyword, in any case, up to one of the characters
unfoldable pub extract_token : Bytes → Bytes → Bytes → Option Bytes
unfolding find_sub skip_spaces take_until trim_spaces
extract_token str start_keyword end_characters = elim (find_sub (lower str) (lower start_keyword)) [
  | none ↦ none
  | some found ↦ some (
      trim_spaces
        (take_until end_characters (skip_spaces (drop (found + length start_keyword) str))))
]

-- The tokens that `strtok` finds between the commas. `word` is the token that is being read.
unfoldable pub split_commas : Bytes → Bytes → List Bytes
split_commas word [] = if length word == 0 then [] else word ∷ []
split_commas word (c ∷ cs) =
    let next = split_commas [] cs in
    let longer = split_commas (word ++ c ∷ []) cs in
    if c == 44 then (if length word == 0 then next else word ∷ next) else longer

-- the fields of a SELECT
unfoldable pub select_fields : Option Bytes → List Bytes
unfolding split_commas trim_spaces
select_fields none = []
select_fields (some fields_token) = map trim_spaces (split_commas [] fields_token)

abbrev pub white : Bytes
white = 32 ∷ 9 ∷ 13 ∷ 10 ∷ []

-- The chain of tests for the first keyword: the type, the table and the fields.
unfoldable pub parse_statement : Bytes → QueryType × Option Bytes × List Bytes
unfolding extract_token select_fields
parse_statement query_str =
    let lower_query : Bytes = lower query_str in
    if is_prefix (codes "select") lower_query
    then (
      query_select,
      extract_token query_str (codes "from") (white ++ codes "(Ww"),
      select_fields (extract_token query_str (codes "select") (codes "Ff")),
    )
    else if is_prefix (codes "insert") lower_query
    then (query_insert, extract_token query_str (codes "into") (white ++ codes "("), [])
    else if is_prefix (codes "update") lower_query
    then (query_update, extract_token query_str (codes "update") (white ++ codes "S"), [])
    else if is_prefix (codes "delete") lower_query
    then (query_delete, extract_token query_str (codes "from") (white ++ codes "W"), [])
    else if is_prefix (codes "create") lower_query
    then (query_create_table, extract_token query_str (codes "table") (white ++ codes "("), [])
    else if is_prefix (codes "drop") lower_query
    then (query_drop_table, extract_token query_str (codes "table") (white ++ codes ";"), [])
    else (query_select, none, [])

abbrev pub ops : List Bytes
ops = codes "!=" ∷ codes ">=" ∷ codes "<=" ∷ codes "=" ∷ codes ">" ∷ codes "<" ∷ []

-- the first operator of the list that occurs, and where
unfoldable pub find_op : List Bytes → Bytes → Option (Bytes × ℕ)
unfolding find_sub
find_op [] cond_str = none
find_op (op ∷ rest) cond_str = elim (find_sub cond_str op) [
  | none ↦ find_op rest cond_str
  | some n ↦ some (op, n)
]

abbrev pub last_byte : Bytes → ℕ → ℕ
last_byte [] c = c
last_byte (d ∷ ds) c = last_byte ds d

-- drops the quotes round a value
unfoldable pub unquote : Bytes → Bytes
unquote [] = []
unquote (c ∷ cs) =
    if (c == 39 || c == 34) && (leb 1 (length cs) && last_byte cs c == c)
    then take (length cs - 1) cs
    else c ∷ cs

unfoldable pub parse_condition : Option Bytes → Option Condition
unfolding find_op trim_spaces unquote
parse_condition none = none
parse_condition (some cond_str) = elim (find_op ops cond_str) [
  | none ↦ none
  | some (op, n) ↦ some (record {
    field = trim_spaces (take n cond_str);
    op = op;
    value = unquote (trim_spaces (drop (n + length op) cond_str));
  })
]

-- the condition after the first "where"
unfoldable pub parse_where : Bytes → Option Condition
unfolding find_sub skip_spaces parse_condition
parse_where query_str = elim (find_sub (lower query_str) (codes "where")) [
  | none ↦ none
  | some where_pos ↦ parse_condition (some (skip_spaces (drop (where_pos + 5) query_str)))
]

unfoldable pub parse_query : Option Bytes → Option Query
unfolding skip_spaces parse_statement parse_where
parse_query none = none
parse_query (some text) =
    let query_str : Bytes = skip_spaces text in
    let (type, table, fields) = parse_statement query_str in
    some (record { type = type; table = table; fields = fields; condition = parse_where query_str })
