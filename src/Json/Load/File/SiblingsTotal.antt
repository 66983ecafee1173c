-- ===== src/Json/Load/File/SiblingsTotal.antt =====
-- src/json_io.c: the loop over the members that follow a schema.
use luminix_experience_platf.Base.{
  Option-cases, codes, str_eq, if_elim, length, Bytes, ◌*◌, ℕ, zero, suc, ◌+◌, ◌<◌, ◌&&◌, none,
  some, arith, inl, inr,
}
use luminix_experience_platf.Schema.{is_success, State, Env}
use luminix_experience_platf.Json.{JsonToken, json_parse_token}
use luminix_experience_platf.Json.Lexer.{json_parse_token-advances}
use luminix_experience_platf.Json.Skip.Laws.{json_skip_token_value-returns}
use luminix_experience_platf.Json.Load.{Union, value_of, is_token}
use luminix_experience_platf.Json.Load.Loops.{stopped, parsed, entered, Parsed}
use luminix_experience_platf.Json.Load.Loops.Total.{Leaves, Leaves-mono}
use luminix_experience_platf.Json.Load.Rows.{Loading, json_parse_table_records}
use luminix_experience_platf.Json.Load.Rows.Total.{json_parse_table_records-Leaves}
use luminix_experience_platf.Json.Load.File.{
  skip_checked, last_table, store_loaded, sibling_value, sibling, by_sibling, siblings,
}

pub skip_checked-Leaves : (s : State) (json : Bytes) → Leaves (length json) (skip_checked s json)
unfolding skip_checked
skip_checked-Leaves s json =
    let (code, rest, e, n) =
      json_skip_token_value-returns (2 * length (json_parse_token json).1 + 2)
        (json_parse_token json).0.type (json_parse_token json).1 (omega arith) in
    rw (e, skip_checked)
      (if_elim (Leaves (length json)) (is_success code)
        (λ _. omega (arith, (json_parse_token-advances json).0)) (λ _. tt))

pub store_loaded-Leaves :
    (s : State) (n : ℕ) (o : Parsed Loading) → Leaves n o → Leaves n (store_loaded s o)
store_loaded-Leaves s n none h = h
store_loaded-Leaves s n (some (stopped code l)) h = tt
store_loaded-Leaves s n (some (parsed l rest)) h = h
store_loaded-Leaves s n (some (entered l rest)) h = h

sibling_value-Leaves :
    (env : Env) (u : Union) (s : State) (k json : Bytes)
    → Leaves (length json) (sibling_value env u s k json)
unfolding sibling_value
sibling_value-Leaves env u s k json =
    if_elim (Leaves (length json)) (str_eq k (codes "records"))
      (λ _. elim (Option-cases (last_table s.db.tables)) [
        | inl e ↦ rw e tt
        | inr found ↦ rw (found.1) (
            store_loaded-Leaves s (length json)
              (json_parse_table_records env u
                (record { table = found.0; global_counter = s.global_counter }) json)
              (json_parse_table_records-Leaves env u
                (record { table = found.0; global_counter = s.global_counter }) json))
      ])
      (λ _. skip_checked-Leaves s json)

pub sibling-Leaves :
    (env : Env) (u : Union) (s : State) (t : JsonToken) (json : Bytes)
    → Leaves (length json) (sibling env u s t json)
unfolding sibling
sibling-Leaves env u s t json =
    if_elim (Leaves (length json)) (is_token t 5 && is_token (json_parse_token json).0 9)
      (λ _.
        Leaves-mono (length (json_parse_token json).1) (length json)
          (sibling_value env u s (value_of t) (json_parse_token json).1)
          (json_parse_token-advances json).0
          (sibling_value-Leaves env u s (value_of t) (json_parse_token json).1))
      (λ _. tt)

by_sibling-Leaves :
    (loop : State → Bytes → Parsed State) (n m : ℕ) (o : Parsed State)
    → n < m
    → Leaves n o
    → ((s : State) (rest : Bytes) → length rest < m → Leaves (length rest) (loop s rest))
    → Leaves m (by_sibling loop o)
by_sibling-Leaves loop n m none lt h k = h
by_sibling-Leaves loop n m (some (stopped code s)) lt h k = tt
by_sibling-Leaves loop n m (some (parsed s rest)) lt h k =
    Leaves-mono (length rest) m (loop s rest) (omega arith) (k s rest (omega arith))
by_sibling-Leaves loop n m (some (entered s rest)) lt h k =
    Leaves-mono (length rest) m (loop s rest) (omega arith) (k s rest (omega arith))

pub siblings-Leaves :
    (f : ℕ) (env : Env) (u : Union) (s : State) (json : Bytes)
    → length json < f
    → Leaves (length json) (siblings f env u s json)
unfolding siblings
siblings-Leaves zero env u s json h = absurd (omega arith)
siblings-Leaves (suc f) env u s json h =
    let moved = json_parse_token-advances json in
    let rest : Bytes = (json_parse_token json).1 in
    let after : Bytes = (json_parse_token rest).1 in
    if_elim (Leaves (length json)) (is_token (json_parse_token json).0 2) (λ _. moved.0)
      (λ _.
        if_elim (Leaves (length json)) (is_token (json_parse_token json).0 10)
          (λ t.
            by_sibling-Leaves (λ s' rest'. siblings f env u s' rest') (length after) (length json)
              (sibling env u s (json_parse_token rest).0 after)
              (ground (arith, moved.1, json_parse_token-advances rest))
              (sibling-Leaves env u s (json_parse_token rest).0 after)
              (λ s' rest' l. siblings-Leaves f env u s' rest' (omega arith)))
          (λ _. tt))
