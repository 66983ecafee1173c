-- ===== src/Json/TableText/Laws.antt =====
-- src/json_io.c: json_to_table on a valid database.
use luminix_experience_platf.Base.{Bool, none, some}
use luminix_experience_platf.Schema.{Database, State}
use luminix_experience_platf.Database.Invariant.{DatabaseIsValid}
use luminix_experience_platf.Json.Load.Loops.{
  Answer, ended, crashed, stopped, parsed, entered, Parsed,
}
use luminix_experience_platf.Json.Load.File.SiblingsValid.{StateIsValid}

-- it ends, in a state that is valid
abbrev Fine : Parsed State → Type 0
Fine none = ⊥
Fine (some (stopped code s)) = StateIsValid s
Fine (some (parsed s rest)) = StateIsValid s
Fine (some (entered s rest)) = StateIsValid s

-- the database that is left, unless the program crashed
abbrev pub LeavesValid : Answer (Bool × State) → Type 0
LeavesValid crashed = Unit {0}
LeavesValid (ended r) = DatabaseIsValid r.1.db
