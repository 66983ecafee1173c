-- ===== src/Json/Load/File/Valid.antt =====
-- src/json_io.c: db_load_from_file.
use mathlib.Core.Path.{subst}
use luminix_experience_platf.Base.{
  codes, str_eq, Option-cases, if_elim, length, Bytes, ◌==◌, ℕ, zero, suc, ℤ, Bool, false, not,
  ◌||◌, Option, none, some, ◌≡◌, inl, inr,
}
use luminix_experience_platf.Schema.{Database, State, Env}
use luminix_experience_platf.Database.Tables.{db_create}
use luminix_experience_platf.Database.Tables.Valid.{create-DatabaseIsValid}
use luminix_experience_platf.Database.Invariant.{DatabaseIsValid}
use luminix_experience_platf.Json.{JsonToken, json_parse_token}
use luminix_experience_platf.Json.Load.{Union, is_token}
use luminix_experience_platf.Json.Load.Loops.{
  failure, crash, Answer, ended, crashed, stopped, parsed, entered, Parsed, members,
}
use luminix_experience_platf.Json.Load.Loops.Keeps.{Holds, members-Holds}
use luminix_experience_platf.Json.Load.Definitions.{
  json_parse_database_metadata, json_parse_table_schema,
}
use luminix_experience_platf.Json.Load.File.{
  sibling, siblings, AfterTable, next_table, array_ends, broken_off, after_object, after_siblings,
  first_sibling, after_schema, after_parsed, table_round, by_after, tables_loop, with_state,
  database_key, loaded, load_text, db_load_from_file,
}
use luminix_experience_platf.Json.Load.File.SiblingsValid.{
  StateIsValid, json_parse_table_schema-Holds, skip_checked-Holds, sibling-Holds, siblings-Holds,
}

abbrev AfterIsValid : Option AfterTable → Type 0
AfterIsValid none = Unit {0}
AfterIsValid (some (next_table started s rest)) = StateIsValid s
AfterIsValid (some (array_ends s rest)) = StateIsValid s
AfterIsValid (some (broken_off code s)) = StateIsValid s

after_object-AfterIsValid :
    (s : State) (json : Bytes) → StateIsValid s → AfterIsValid (some (after_object s json))
unfolding after_object
after_object-AfterIsValid s json v =
    if_elim (λ a. AfterIsValid (some a)) (is_token (json_parse_token json).0 10) (λ _. v)
      (λ _.
        if_elim (λ a. AfterIsValid (some a)) (is_token (json_parse_token json).0 4) (λ _. v)
          (λ _. v))

after_siblings-AfterIsValid :
    (o : Parsed State) → Holds StateIsValid o → AfterIsValid (after_siblings o)
after_siblings-AfterIsValid none h = tt
after_siblings-AfterIsValid (some (stopped code s)) h = h
after_siblings-AfterIsValid (some (parsed s rest)) h = after_object-AfterIsValid s rest h
after_siblings-AfterIsValid (some (entered s rest)) h = after_object-AfterIsValid s rest h

first_sibling-AfterIsValid :
    (env : Env) (u : Union) (o : Parsed State)
    → Holds StateIsValid o
    → AfterIsValid (first_sibling env u o)
first_sibling-AfterIsValid env u none h = tt
first_sibling-AfterIsValid env u (some (stopped code s)) h = h
first_sibling-AfterIsValid env u (some (parsed s rest)) h =
    after_siblings-AfterIsValid (siblings (suc (length rest)) env u s rest)
      (siblings-Holds (suc (length rest)) env u s rest h)
first_sibling-AfterIsValid env u (some (entered s rest)) h =
    after_siblings-AfterIsValid (siblings (suc (length rest)) env u s rest)
      (siblings-Holds (suc (length rest)) env u s rest h)

after_schema-AfterIsValid :
    (env : Env) (u : Union) (s : State) (json : Bytes)
    → StateIsValid s
    → AfterIsValid (after_schema env u s json)
unfolding after_schema
after_schema-AfterIsValid env u s json v =
    let t : JsonToken = (json_parse_token json).0 in
    let rest : Bytes = (json_parse_token json).1 in
    let next : JsonToken = (json_parse_token rest).0 in
    let after : Bytes = (json_parse_token rest).1 in
    if_elim AfterIsValid (is_token t 4) (λ _. v)
      (λ _.
        if_elim AfterIsValid (is_token t 2) (λ _. after_object-AfterIsValid s rest v)
          (λ _.
            if_elim AfterIsValid (not (is_token t 10)) (λ _. v)
              (λ comma.
                if_elim AfterIsValid (is_token next 1) (λ _. v)
                  (λ _.
                    if_elim AfterIsValid (is_token next 4) (λ _. v)
                      (λ _.
                        if_elim AfterIsValid (is_token next 5)
                          (λ _.
                            first_sibling-AfterIsValid env u (sibling env u s next after)
                              (sibling-Holds env u s next after v))
                          (λ _. v))))))

after_parsed-AfterIsValid :
    (env : Env) (u : Union) (s : State) (o : Parsed Database)
    → Holds DatabaseIsValid o
    → AfterIsValid (after_parsed env u s o)
after_parsed-AfterIsValid env u s none h = tt
after_parsed-AfterIsValid env u s (some (stopped code db)) h = h
after_parsed-AfterIsValid env u s (some (parsed db rest)) h =
    after_schema-AfterIsValid env u (record s { db = db }) rest h
after_parsed-AfterIsValid env u s (some (entered db rest)) h =
    after_schema-AfterIsValid env u (record s { db = db }) rest h

table_round-AfterIsValid :
    (env : Env) (u : Union) (started : Bool) (s : State) (json : Bytes)
    → StateIsValid s
    → AfterIsValid (table_round env u started s json)
unfolding table_round
table_round-AfterIsValid env u started s json v =
    let rest : Bytes = (json_parse_token json).1 in
    if_elim AfterIsValid started
      (λ _.
        after_parsed-AfterIsValid env u s (json_parse_table_schema env s.db json)
          (json_parse_table_schema-Holds env s.db json v))
      (λ _.
        if_elim AfterIsValid (is_token (json_parse_token json).0 4) (λ _. v)
          (λ _.
            if_elim AfterIsValid (is_token (json_parse_token json).0 1)
              (λ _.
                after_parsed-AfterIsValid env u s (json_parse_table_schema env s.db rest)
                  (json_parse_table_schema-Holds env s.db rest v))
              (λ _. v)))

by_after-Holds :
    (loop : Bool → State → Bytes → Parsed State) (o : Option AfterTable)
    → AfterIsValid o
    → ((started : Bool) (s : State) (rest : Bytes)
        → StateIsValid s
        → Holds StateIsValid (loop started s rest))
    → Holds StateIsValid (by_after loop o)
by_after-Holds loop none h k = tt
by_after-Holds loop (some (next_table started s rest)) h k = k started s rest h
by_after-Holds loop (some (array_ends s rest)) h k = h
by_after-Holds loop (some (broken_off code s)) h k = h

tables_loop-Holds :
    (f : ℕ) (env : Env) (u : Union) (started : Bool) (s : State) (json : Bytes)
    → StateIsValid s
    → Holds StateIsValid (tables_loop f env u started s json)
unfolding tables_loop
tables_loop-Holds zero env u started s json v = tt
tables_loop-Holds (suc f) env u started s json v =
    by_after-Holds (λ started' s' rest. tables_loop f env u started' s' rest)
      (table_round env u started s json) (table_round-AfterIsValid env u started s json v)
      (λ started' s' rest v'. tables_loop-Holds f env u started' s' rest v')

with_state-Holds :
    (s : State) (o : Parsed (Unit {0})) → StateIsValid s → Holds StateIsValid (with_state s o)
with_state-Holds s none v = tt
with_state-Holds s (some (stopped code m)) v = v
with_state-Holds s (some (parsed m rest)) v = v
with_state-Holds s (some (entered m rest)) v = v

database_key-Holds :
    (env : Env) (u : Union) (s : State) (k json : Bytes)
    → StateIsValid s
    → Holds StateIsValid (database_key env u s k json)
unfolding database_key
database_key-Holds env u s k json v =
    let rest : Bytes = (json_parse_token json).1 in
    if_elim (Holds StateIsValid) (str_eq k (codes "metadata"))
      (λ _. with_state-Holds s (json_parse_database_metadata json) v)
      (λ _.
        if_elim (Holds StateIsValid) (str_eq k (codes "tables"))
          (λ _.
            if_elim (Holds StateIsValid) (is_token (json_parse_token json).0 3)
              (λ _. tables_loop-Holds (suc (length rest)) env u false s rest v) (λ _. v))
          (λ _. skip_checked-Holds s json v))

abbrev LoadedIsValid : Option (Answer (Option State)) → Type 0
LoadedIsValid none = Unit {0}
LoadedIsValid (some crashed) = Unit {0}
LoadedIsValid (some (ended none)) = Unit {0}
LoadedIsValid (some (ended (some s))) = StateIsValid s

loaded_valid :
    (o : Parsed State) (s : State)
    → Holds StateIsValid o
    → loaded o ≡ some (ended (some s))
    → StateIsValid s
loaded_valid none s h e = cc
loaded_valid (some (stopped (failure code) s')) s h e = cc
loaded_valid (some (stopped crash s')) s h e = cc
loaded_valid (some (parsed s' rest)) s h e = subst LoadedIsValid e h
loaded_valid (some (entered s' rest)) s h e = subst LoadedIsValid e h

load_text_valid :
    (env : Env) (u : Union) (start s : State) (json : Bytes)
    → StateIsValid start
    → load_text env u start json ≡ some (ended (some s))
    → StateIsValid s
unfolding load_text
load_text_valid env u start s json v =
    let rest : Bytes = (json_parse_token json).1 in
    if_elim (λ o. o ≡ some (ended (some s)) → StateIsValid s) (is_token (json_parse_token json).0 1)
      (λ _ e.
        loaded_valid (members (suc (length rest)) (database_key env u) start rest) s
          (members-Holds StateIsValid (database_key env u) (database_key-Holds env u)
            (suc (length rest)) start rest v)
          e)
      (λ _ e. cc)

-- Whatever bytes the file holds, a database that `db_load_from_file` returns is valid: its tables,
-- records, ids, names and counts are within the limits and consistent.
pub db_load_from_file-DatabaseIsValid :
    (env : Env) (u : Union) (global_counter : ℤ) (has_filename : Bool) (content : Option Bytes)
    (s : State)
    → db_load_from_file env u global_counter has_filename content ≡ some (ended (some s))
    → DatabaseIsValid s.db
unfolding db_load_from_file
db_load_from_file-DatabaseIsValid env u global_counter has_filename none s = λ e. cc
db_load_from_file-DatabaseIsValid env u global_counter has_filename (some content) s =
    if_elim (λ o. o ≡ some (ended (some s)) → DatabaseIsValid s.db)
      (not has_filename || length content == 0) (λ _ e. cc)
      (λ _. elim (Option-cases (db_create env)) [
        | inl e ↦ rw e (λ h. cc)
        | inr made ↦ rw (made.1) (
            load_text_valid env u (record { db = made.0; global_counter = global_counter }) s
              content (create-DatabaseIsValid env made.1).0)
      ])
