-- ===== src/QueryEngine.antt =====
-- src/query_engine.c: the test of a query and its execution on the active database, which is an
-- argument here. Memory for the results and messages is granted, except in the database itself.
pub mod Laws
use luminix_experience_platf.Database.Maintenance.{db_execute_query}
use luminix_experience_platf.Schema.{Database, Env}
use luminix_experience_platf.Parser.{parse_query, skip_spaces}
use luminix_experience_platf.Base.{
  eqb_ℤ, to_lower, length, is_space, codes, str_eq, Bytes, ◌*◌, ◌/◌, ◌%◌, ◌^◌, ◌==◌, ℕ, zero, suc,
  ◌+◌, ◌-◌, ◌≤◌, ◌<◌, ℤ, pos, negsuc, Bool, true, false, not, ◌&&◌, ◌||◌, List, [], ◌∷◌, ◌++◌,
  Option, none, some, ◌≡◌, ◌≢◌, ◌↔◌, refl, arith, if◌then◌else◌, inl, inr,
}

pub record EngineQueryResult : Type 0 where
  pub success : ℤ
  pub message : Bytes
  pub row_count : ℕ
  pub affected_rows : ℕ

-- the first word in lower case, of at most `n` bytes
unfoldable pub first_word : ℕ → Bytes → Bytes
first_word zero query = []
first_word (suc n) [] = []
first_word (suc n) (c ∷ cs) =
    let rest = first_word n cs in if is_space c then [] else to_lower c ∷ rest

abbrev pub statements : List Bytes
statements =
    codes "select"
    ∷ codes "insert"
    ∷ codes "update"
    ∷ codes "delete"
    ∷ codes "create"
    ∷ codes "drop"
    ∷ []

-- the chain of `strcmp`
unfoldable pub is_one_of : List Bytes → Bytes → Bool
unfolding str_eq
is_one_of [] word = false
is_one_of (w ∷ ws) word = str_eq word w || is_one_of ws word

unfoldable pub query_validate : Option Bytes → ℤ
unfolding first_word is_one_of skip_spaces
query_validate none = pos 0
query_validate (some query) =
    if is_one_of statements (first_word 15 (skip_spaces query)) then pos 1 else pos 0

abbrev pub answer : ℤ → Bytes → ℕ → EngineQueryResult
answer success message row_count = record {
  success = success;
  message = message;
  row_count = row_count;
  affected_rows = row_count;
}

-- the result, and the database after the call
unfoldable pub query_execute :
    Env → Option Database → Option Bytes → EngineQueryResult × Option Database
query_execute env g_database none = (answer (pos 0) (codes "Query is empty") 0, g_database)
query_execute env g_database (some query) =
    if length query == 0
    then (answer (pos 0) (codes "Query is empty") 0, g_database)
    else if eqb_ℤ (query_validate (some query)) (pos 0)
    then (answer (pos 0) (codes "Query syntax validation failed") 0, g_database)
    else elim (parse_query (some query)) [
      | none ↦ (answer (pos 0) (codes "Failed to parse query") 0, g_database)
      | some parsed ↦ elim g_database [
        | none ↦ (
          answer (pos 1) (codes "Query validated and parsed (No active database connection)") 0,
          none,
        )
        | some db ↦
            let (db_res, db') = db_execute_query env db (some query) in
            elim db_res [
              | some result ↦ (
                answer (pos 1) (codes "Query executed successfully on active database")
                    result.row_count,
                some db',
              )
              | none ↦ (answer (pos 0) (codes "Database failed to execute query") 0, some db')
            ]
      ]
    ]
