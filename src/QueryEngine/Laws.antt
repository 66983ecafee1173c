-- ===== src/QueryEngine/Laws.antt =====
-- `query_validate` and `query_execute` of src/query_engine.c, with the parser and the database.
use luminix_experience_platf.Database.Maintenance.Laws.{execute_query_lem}
use luminix_experience_platf.Schema.{Table, Database, Env}
use mathlib.Core.Path.{subst}
use luminix_experience_platf.Database.Maintenance.{
  db_execute_query, query_select, query_drop_table, query_create_table, query_delete, query_update,
  query_insert, QueryType,
}
use luminix_experience_platf.QueryEngine.{
  EngineQueryResult, query_validate, query_execute, statements, is_one_of, first_word,
}
use luminix_experience_platf.Parser.{
  parse_where, skip_spaces, Query, parse_query, lower, parse_statement,
}
use luminix_experience_platf.Base.{
  length, drop, ◌∙◌, is_some, append_drop, ap, str_eq→eq, codes, str_eq, ◌⊎◌, is_prefix, Bool-cases,
  Bytes, ℕ, zero, suc, pos, true, false, List, [], ◌∷◌, ◌++◌, Option, none, some, ◌≡◌, ◌↔◌, refl,
  arith, if◌then◌else◌, inl, inr,
}

-- the statement that a word names
abbrev pub statement_type : Bytes → QueryType
statement_type word =
    if str_eq word (codes "insert")
    then query_insert
    else if str_eq word (codes "update")
    then query_update
    else if str_eq word (codes "delete")
    then query_delete
    else if str_eq word (codes "create")
    then query_create_table
    else if str_eq word (codes "drop")
    then query_drop_table
    else query_select

word_prefix : (n : ℕ) (query : Bytes) → is_prefix (first_word n query) (lower query) ≡ true
unfolding first_word is_prefix
word_prefix zero query = refl
word_prefix (suc n) [] = refl
word_prefix (suc n) (c ∷ cs) = ground (arith, word_prefix n cs)

abbrev Somewhere : List Bytes → Bytes → Type 0
Somewhere [] word = ⊥
Somewhere (w ∷ ws) word = (word ≡ w) ⊎ Somewhere ws word

-- which of the words it is
named : (ws : List Bytes) (word : Bytes) → is_one_of ws word ≡ true → Somewhere ws word
unfolding is_one_of
named [] word h = absurd (cc)
named (w ∷ ws) word h = elim (Bool-cases (str_eq word w)) [
  | inl same ↦ inl (str_eq→eq word w same)
  | inr other ↦ inr (named ws word (ground arith))
]

-- a text does not begin with `p` if it begins with a word that rules that out
excluded :
    (p w text : Bytes)
    → is_prefix w text ≡ true
    → ((r : Bytes) → is_prefix p (w ++ r) ≡ false)
    → is_prefix p text ≡ false
excluded p w text is apart = ap (is_prefix p) (append_drop w text is) ∙ apart (drop (length w) text)

type_of_word :
    (query word : Bytes)
    → is_prefix word (lower query) ≡ true
    → Somewhere statements word
    → (parse_statement query).0 ≡ statement_type word
unfolding parse_statement is_prefix str_eq
type_of_word query word h (inl e) =
    let is : is_prefix (codes "select") (lower query) ≡ true =
      subst (λ w. is_prefix w (lower query) ≡ true) e h in
    rw (e, is, parse_statement) refl
type_of_word query word h (inr (inl e)) =
    let is : is_prefix (codes "insert") (lower query) ≡ true =
      subst (λ w. is_prefix w (lower query) ≡ true) e h in
    rw
      (
        e,
        excluded (codes "select") (codes "insert") (lower query) is (λ r. refl),
        is,
        parse_statement,
      )
      refl
type_of_word query word h (inr (inr (inl e))) =
    let is : is_prefix (codes "update") (lower query) ≡ true =
      subst (λ w. is_prefix w (lower query) ≡ true) e h in
    rw
      (
        e,
        excluded (codes "select") (codes "update") (lower query) is (λ r. refl),
        excluded (codes "insert") (codes "update") (lower query) is (λ r. refl),
        is,
        parse_statement,
      )
      refl
type_of_word query word h (inr (inr (inr (inl e)))) =
    let is : is_prefix (codes "delete") (lower query) ≡ true =
      subst (λ w. is_prefix w (lower query) ≡ true) e h in
    rw
      (
        e,
        excluded (codes "select") (codes "delete") (lower query) is (λ r. refl),
        excluded (codes "insert") (codes "delete") (lower query) is (λ r. refl),
        excluded (codes "update") (codes "delete") (lower query) is (λ r. refl),
        is,
        parse_statement,
      )
      refl
type_of_word query word h (inr (inr (inr (inr (inl e))))) =
    let is : is_prefix (codes "create") (lower query) ≡ true =
      subst (λ w. is_prefix w (lower query) ≡ true) e h in
    rw
      (
        e,
        excluded (codes "select") (codes "create") (lower query) is (λ r. refl),
        excluded (codes "insert") (codes "create") (lower query) is (λ r. refl),
        excluded (codes "update") (codes "create") (lower query) is (λ r. refl),
        excluded (codes "delete") (codes "create") (lower query) is (λ r. refl),
        is,
        parse_statement,
      )
      refl
type_of_word query word h (inr (inr (inr (inr (inr (inl e)))))) =
    let is : is_prefix (codes "drop") (lower query) ≡ true =
      subst (λ w. is_prefix w (lower query) ≡ true) e h in
    rw
      (
        e,
        excluded (codes "select") (codes "drop") (lower query) is (λ r. refl),
        excluded (codes "insert") (codes "drop") (lower query) is (λ r. refl),
        excluded (codes "update") (codes "drop") (lower query) is (λ r. refl),
        excluded (codes "delete") (codes "drop") (lower query) is (λ r. refl),
        excluded (codes "create") (codes "drop") (lower query) is (λ r. refl),
        is,
        parse_statement,
      )
      refl
type_of_word query word h (inr (inr (inr (inr (inr (inr bad)))))) = absurd bad

-- A query that passes `query_validate` is parsed as the statement that its first word names, in any
-- case: `parse_query` returns a query of that type.
pub query_validate-parse_query :
    (query : Bytes)
    → query_validate (some query) ≡ pos 1
    → (parsed : Query) × (parse_query (some query) ≡ some parsed)
      × (parsed.type ≡ statement_type (first_word 15 (skip_spaces query)))
unfolding query_validate parse_query
query_validate-parse_query query valid =
    let text : Bytes = skip_spaces query in
    let word : Bytes = first_word 15 text in
    let (type, table, fields) = parse_statement text in
    (
      record { type = type; table = table; fields = fields; condition = parse_where text },
      refl,
      type_of_word text word (word_prefix 15 text) (named statements word (ground arith)),
    )

abbrev pub tables_of : Option Database → Option (List Table)
tables_of none = none
tables_of (some db) = some db.tables

validate_range :
    (query : Bytes) → (query_validate (some query) ≡ pos 0) ⊎ (query_validate (some query) ≡ pos 1)
unfolding query_validate
validate_range query =
    elim (Bool-cases (is_one_of statements (first_word 15 (skip_spaces query)))) [
      | inl valid ↦ inr (rw valid refl)
      | inr invalid ↦ inl (rw invalid refl)
    ]

empty_not_valid : query_validate (some []) ≡ pos 0
unfolding query_validate first_word skip_spaces is_one_of str_eq
empty_not_valid = refl

parsed_always : (query : Bytes) → is_some (parse_query (some query)) ≡ true
unfolding parse_query
parsed_always query = refl

-- With an active database `query_execute` reports success exactly for a query that passes
-- `query_validate` and that the database answers; the tables of the database stay as they are, and
-- no rows are reported.
pub query_execute_lem :
    (env : Env) (db : Database) (query : Bytes)
    → let r : EngineQueryResult × Option Database = query_execute env (some db) (some query) in
      ((r.0.success ≡ pos 1) ↔ (
        (query_validate (some query) ≡ pos 1)
        × (is_some (db_execute_query env db (some query)).0 ≡ true)))
      × (r.0.row_count ≡ 0)
      × (tables_of r.1 ≡ some db.tables)
unfolding query_execute
query_execute_lem env db [] = ground (arith, empty_not_valid)
query_execute_lem env db (c ∷ cs) = ground (
  arith,
  validate_range (c ∷ cs),
  parsed_always (c ∷ cs),
  execute_query_lem db env (some (c ∷ cs)),
)
