-- ===== src/Json/Load/File/Total.antt =====
-- src/json_io.c: db_load_from_file ends on every text.
use luminix_experience_platf.Base.{length, ℕ, ◌≤◌, ◌<◌, Option, none, some}
use luminix_experience_platf.Schema.{Database}
use luminix_experience_platf.Json.Load.File.{AfterTable, next_table, array_ends, broken_off}

-- it ends, with less text before a next table
abbrev AfterLeaves : ℕ → Option AfterTable → Type 0
AfterLeaves n none = ⊥
AfterLeaves n (some (next_table started s rest)) = length rest < n
AfterLeaves n (some (array_ends s rest)) = length rest ≤ n
AfterLeaves n (some (broken_off code s)) = Unit {0}
