-- ===== src/Json/Load/File/SiblingsValid.antt =====
-- src/json_io.c: the state stays valid in the loop over the members that follow a schema.
use mathlib.Core.Path.{subst}
use luminix_experience_platf.Base.{
  codes, str_eq, ltb, Option-cases, if_elim, ap, length, Bytes, All, ◌*◌, ℕ, zero, suc, ◌+◌, pos,
  ◌&&◌, List, [], ◌∷◌, Option, none, some, ◌≡◌, refl, arith, if◌then◌else◌, inl, inr,
}
use luminix_experience_platf.Schema.{ErrorCode, is_success, Table, Database, State, Env}
use luminix_experience_platf.Database.Tables.{db_add_table}
use luminix_experience_platf.Database.Tables.Valid.{add_table-DatabaseIsValid}
use luminix_experience_platf.Database.Records.Valid.{LevelIsValid-same}
use luminix_experience_platf.Database.Invariant.{TableIsOk, DatabaseIsValid}
use luminix_experience_platf.Json.{JsonToken, json_parse_token}
use luminix_experience_platf.Json.Skip.{json_skip_token_value}
use luminix_experience_platf.Json.Load.{Union, value_of, is_token}
use luminix_experience_platf.Json.Load.Loops.{stopped, parsed, entered, Parsed, members}
use luminix_experience_platf.Json.Load.Loops.Keeps.{Holds}
use luminix_experience_platf.Json.Load.Definitions.{
  crashes_on_name, SchemaSoFar, create_table, json_parse_table_schema, name_at, type_at, schema_key,
  empty_schema,
}
use luminix_experience_platf.Json.Load.Rows.{Loading, json_parse_table_records}
use luminix_experience_platf.Json.Load.Rows.Valid.{LoadingIsOk, json_parse_table_records-Holds}
use luminix_experience_platf.Json.Load.File.{
  after_skip, skip_checked, last_table, set_last, put_loaded, store_loaded, sibling_value, sibling,
  by_sibling, siblings,
}

abbrev pub StateIsValid : State → Type 0
StateIsValid s = DatabaseIsValid s.db

create_table-Holds :
    (env : Env) (db : Database) (o : Parsed SchemaSoFar)
    → DatabaseIsValid db
    → Holds DatabaseIsValid (create_table env db o)
unfolding create_table
create_table-Holds env db none v = tt
create_table-Holds env db (some (stopped code s)) v = v
create_table-Holds env db (some (entered s rest)) v = v
create_table-Holds env db (some (parsed s rest)) v =
    let added =
      db_add_table env db (some s.table_name) (some (name_at s.fields)) (some (type_at s.fields))
        (pos (length s.fields)) in
    let v' =
      add_table-DatabaseIsValid env db v (some s.table_name) (some (name_at s.fields))
        (some (type_at s.fields)) (pos (length s.fields)) in
    if_elim (Holds DatabaseIsValid) (ltb 0 (length s.table_name) && ltb 0 (length s.fields))
      (λ _.
        if_elim (Holds DatabaseIsValid) (crashes_on_name env db s) (λ _. v)
          (λ _. if_elim (Holds DatabaseIsValid) (is_success added.0) (λ _. v') (λ _. v')))
      (λ _. v)

pub json_parse_table_schema-Holds :
    (env : Env) (db : Database) (json : Bytes)
    → DatabaseIsValid db
    → Holds DatabaseIsValid (json_parse_table_schema env db json)
unfolding json_parse_table_schema
json_parse_table_schema-Holds env db json v =
    let start : Bytes =
      if is_token (json_parse_token json).0 1 then (json_parse_token json).1 else json in
    create_table-Holds env db (members (suc (length start)) schema_key empty_schema start) v

pub last_table-All :
    (ts : List Table) (t : Table) → All TableIsOk ts → last_table ts ≡ some t → TableIsOk t
unfolding last_table
last_table-All [] t h e = cc
last_table-All (x ∷ []) t h e = subst (λ o. elim o [ none ↦ Unit {0} | some y ↦ TableIsOk y ]) e h.0
last_table-All (x ∷ y ∷ ts) t h e = last_table-All (y ∷ ts) t h.1 e

set_last-All :
    (ts : List Table) (u : Table) → All TableIsOk ts → TableIsOk u → All TableIsOk (set_last ts u)
unfolding set_last
set_last-All [] u h ok = tt
set_last-All (x ∷ []) u h ok = (ok, tt)
set_last-All (x ∷ y ∷ ts) u h ok = (h.0, set_last-All (y ∷ ts) u h.1 ok)

length-set_last : (ts : List Table) (u : Table) → length (set_last ts u) ≡ length ts
unfolding set_last
length-set_last [] u = refl
length-set_last (x ∷ []) u = refl
length-set_last (x ∷ y ∷ ts) u = ap suc (length-set_last (y ∷ ts) u)

put_loaded-StateIsValid :
    (s : State) (l : Loading) → StateIsValid s → LoadingIsOk l → StateIsValid (put_loaded s l)
put_loaded-StateIsValid s l v ok = record {
  tables = set_last-All s.db.tables l.table v.tables ok;
  fits = omega (arith, v.fits, length-set_last s.db.tables l.table);
  bounded = v.bounded;
  level = LevelIsValid-same refl refl v.level;
}

pub store_loaded-Holds :
    (s : State) (o : Parsed Loading)
    → StateIsValid s
    → Holds LoadingIsOk o
    → Holds StateIsValid (store_loaded s o)
store_loaded-Holds s none v h = tt
store_loaded-Holds s (some (stopped code l)) v h = put_loaded-StateIsValid s l v h
store_loaded-Holds s (some (parsed l rest)) v h = put_loaded-StateIsValid s l v h
store_loaded-Holds s (some (entered l rest)) v h = put_loaded-StateIsValid s l v h

after_skip-Holds :
    (s : State) (o : Option (ErrorCode × Bytes))
    → StateIsValid s
    → Holds StateIsValid (after_skip s o)
after_skip-Holds s none v = tt
after_skip-Holds s (some (code, rest)) v =
    if_elim (Holds StateIsValid) (is_success code) (λ _. v) (λ _. v)

pub skip_checked-Holds :
    (s : State) (json : Bytes) → StateIsValid s → Holds StateIsValid (skip_checked s json)
unfolding skip_checked
skip_checked-Holds s json v =
    after_skip-Holds s
      (json_skip_token_value (2 * length (json_parse_token json).1 + 2)
        (json_parse_token json).0.type (json_parse_token json).1)
      v

sibling_value-Holds :
    (env : Env) (u : Union) (s : State) (k json : Bytes)
    → StateIsValid s
    → Holds StateIsValid (sibling_value env u s k json)
unfolding sibling_value
sibling_value-Holds env u s k json v =
    if_elim (Holds StateIsValid) (str_eq k (codes "records"))
      (λ _. elim (Option-cases (last_table s.db.tables)) [
        | inl e ↦ rw e v
        | inr found ↦ rw (found.1) (
            store_loaded-Holds s
              (json_parse_table_records env u
                (record { table = found.0; global_counter = s.global_counter }) json)
              v
              (json_parse_table_records-Holds env u
                (record { table = found.0; global_counter = s.global_counter }) json
                (last_table-All s.db.tables found.0 v.tables found.1)))
      ])
      (λ _. skip_checked-Holds s json v)

pub sibling-Holds :
    (env : Env) (u : Union) (s : State) (t : JsonToken) (json : Bytes)
    → StateIsValid s
    → Holds StateIsValid (sibling env u s t json)
unfolding sibling
sibling-Holds env u s t json v =
    if_elim (Holds StateIsValid) (is_token t 5 && is_token (json_parse_token json).0 9)
      (λ _. sibling_value-Holds env u s (value_of t) (json_parse_token json).1 v) (λ _. v)

by_sibling-Holds :
    (loop : State → Bytes → Parsed State) (o : Parsed State)
    → Holds StateIsValid o
    → ((s : State) (rest : Bytes) → StateIsValid s → Holds StateIsValid (loop s rest))
    → Holds StateIsValid (by_sibling loop o)
by_sibling-Holds loop none h k = tt
by_sibling-Holds loop (some (stopped code s)) h k = h
by_sibling-Holds loop (some (parsed s rest)) h k = k s rest h
by_sibling-Holds loop (some (entered s rest)) h k = k s rest h

pub siblings-Holds :
    (f : ℕ) (env : Env) (u : Union) (s : State) (json : Bytes)
    → StateIsValid s
    → Holds StateIsValid (siblings f env u s json)
unfolding siblings
siblings-Holds zero env u s json v = tt
siblings-Holds (suc f) env u s json v =
    let rest : Bytes = (json_parse_token json).1 in
    if_elim (Holds StateIsValid) (is_token (json_parse_token json).0 2) (λ _. v)
      (λ _.
        if_elim (Holds StateIsValid) (is_token (json_parse_token json).0 10)
          (λ t.
            by_sibling-Holds (λ s' rest'. siblings f env u s' rest')
              (sibling env u s (json_parse_token rest).0 (json_parse_token rest).1)
              (sibling-Holds env u s (json_parse_token rest).0 (json_parse_token rest).1 v)
              (λ s' rest' v'. siblings-Holds f env u s' rest' v'))
          (λ _. v))
