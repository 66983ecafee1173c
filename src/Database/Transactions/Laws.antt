-- ===== src/Database/Transactions/Laws.antt =====
-- Nesting and counters of the transactions of src/database.c.
use luminix_experience_platf.Base.{
  ℕ, zero, suc, ◌+◌, ◌-◌, ◌≤◌, true, false, ltb, ◌≡◌, ◌≢◌, ◌↔◌, refl, arith, Option, none, some, ap,
  sym, ◌∙◌, is_some,
}
use luminix_experience_platf.Schema.{
  success, error_transaction_conflict, Database, DatabaseStatistics, State, Env,
  max_transaction_level, update_simple_statistics,
}
use luminix_experience_platf.Database.Transactions.{
  Change, db_begin_transaction, db_commit_transaction, db_rollback_transaction, end_transaction,
  in_transaction,
}

-- the flag and the level agree, and the level is in range
pub record LevelIsValid (db : Database) : Type 0 where
  pub idle : db.transaction_active ≡ false → db.transaction_level ≡ 0
  pub open_level : db.transaction_active ≡ true → 1 ≤ db.transaction_level
  pub bounded : db.transaction_level ≤ max_transaction_level

pub begin-LevelIsValid :
    (env : Env) (db : Database) → LevelIsValid db → LevelIsValid (db_begin_transaction env db).1
unfolding db_begin_transaction
begin-LevelIsValid env db v = ground (arith, v.idle, v.open_level)

pub commit-LevelIsValid :
    (db : Database) → LevelIsValid db → LevelIsValid (db_commit_transaction db).1
unfolding db_commit_transaction
commit-LevelIsValid db v = ground (arith, v.idle, v.open_level)

pub rollback-LevelIsValid :
    (db : Database) → LevelIsValid db → LevelIsValid (db_rollback_transaction db).1
unfolding db_rollback_transaction
rollback-LevelIsValid db v = ground (arith, v.idle, v.open_level)

-- `n` calls of begin, and of commit; the codes are dropped
pub begins : ℕ → Env → Database → Database
begins zero env db = db
begins (suc n) env db = begins n env (db_begin_transaction env db).1

pub commits : ℕ → Database → Database
commits zero db = db
commits (suc n) db = commits n (db_commit_transaction db).1

active-level :
    {db : Database} → LevelIsValid db → db.transaction_active ≡ ltb 0 db.transaction_level
active-level v = ground (arith, v.idle, v.open_level)

begins_lem :
    (n : ℕ) (env : Env) (db : Database)
    → LevelIsValid db
    → db.transaction_level + n ≤ max_transaction_level
    → LevelIsValid (begins n env db)
      × ((begins n env db).transaction_level ≡ db.transaction_level + n)
      × ((begins n env db).tables ≡ db.tables)
unfolding begins
begins_lem zero env db v h = (v, omega arith, refl)
begins_lem (suc n) env db v h =
    let step : ((db_begin_transaction env db).1.transaction_level ≡ db.transaction_level + 1)
        × ((db_begin_transaction env db).1.tables ≡ db.tables) =
      unfold db_begin_transaction in ground (arith, v.idle) in
    let (valid, level, tables) =
      begins_lem n env (db_begin_transaction env db).1 (begin-LevelIsValid env db v)
        (omega arith) in
    (valid, omega arith, tables ∙ step.1)

commits_lem :
    (n : ℕ) (db : Database)
    → LevelIsValid db
    → LevelIsValid (commits n db)
      × ((commits n db).transaction_level ≡ db.transaction_level - n)
      × ((commits n db).tables ≡ db.tables)
unfolding commits
commits_lem zero db v = (v, omega arith, refl)
commits_lem (suc n) db v =
    let step : ((db_commit_transaction db).1.transaction_level ≡ db.transaction_level - 1)
        × ((db_commit_transaction db).1.tables ≡ db.tables) =
      unfold db_commit_transaction in ground (arith, v.idle, v.open_level) in
    let (valid, level, tables) =
      commits_lem n (db_commit_transaction db).1 (commit-LevelIsValid db v) in
    (valid, omega arith, tables ∙ step.1)

-- Begins and commits nest: after n begins and n commits the flag, the level and the tables are what
-- they were, if the level has room for n more and the flag agrees with it at the start.
pub commits-begins :
    (n : ℕ) (env : Env) (db : Database)
    → LevelIsValid db
    → db.transaction_level + n ≤ max_transaction_level
    → ((commits n (begins n env db)).transaction_active ≡ db.transaction_active)
      × ((commits n (begins n env db)).transaction_level ≡ db.transaction_level)
      × ((commits n (begins n env db)).tables ≡ db.tables)
commits-begins n env db v h =
    let (v', level', tables') = begins_lem n env db v h in
    let (v'', level'', tables'') = commits_lem n (begins n env db) v' in
    let level : (commits n (begins n env db)).transaction_level ≡ db.transaction_level =
      omega arith in
    (active-level v'' ∙ ap (ltb 0) level ∙ sym (active-level v), level, tables'' ∙ tables')

-- A begin is refused exactly at level 10 or above of an open transaction; then, and when there is
-- none to commit or to roll back, the database stays as it is.
pub transaction_refusals :
    (env : Env) (db : Database)
    → (((db_begin_transaction env db).0 ≡ error_transaction_conflict)
        ↔ ((db.transaction_active ≡ true) × (max_transaction_level ≤ db.transaction_level)))
      × ((db_begin_transaction env db).0 ≢ success → (db_begin_transaction env db).1 ≡ db)
      × (db.transaction_active ≡ false
          → db_commit_transaction db ≡ (error_transaction_conflict, db))
      × (db.transaction_active ≡ false
          → db_rollback_transaction db ≡ (error_transaction_conflict, db))
unfolding db_begin_transaction db_commit_transaction db_rollback_transaction
transaction_refusals env db = (
  (λ h. ground arith, λ h. ground arith),
  λ h. ground arith,
  λ h. ground arith,
  λ h. ground arith,
)

-- a counter of the statistics, 0 where there are none
abbrev pub counter : (DatabaseStatistics → ℕ) → Option DatabaseStatistics → ℕ
counter f none = 0
counter f (some s) = f s

-- started transactions cover those that were committed, those rolled back, and the open levels
abbrev pub IsBalanced : Database → Type 0
IsBalanced db =
    is_some db.statistics ≡ true
    → counter (λ s. s.transactions_committed) db.statistics
        + counter (λ s. s.transactions_rolled_back) db.statistics
        + db.transaction_level
      ≤ counter (λ s. s.transactions_started) db.statistics

begin-IsBalanced :
    (env : Env) (db : Database)
    → LevelIsValid db
    → IsBalanced db
    → IsBalanced (db_begin_transaction env db).1
unfolding db_begin_transaction update_simple_statistics
begin-IsBalanced env db v b h = ground (arith, v.idle)

commit-IsBalanced :
    (db : Database) → LevelIsValid db → IsBalanced db → IsBalanced (db_commit_transaction db).1
unfolding db_commit_transaction update_simple_statistics
commit-IsBalanced db v b h = ground (arith, v.open_level)

rollback-IsBalanced :
    (db : Database) → LevelIsValid db → IsBalanced db → IsBalanced (db_rollback_transaction db).1
unfolding db_rollback_transaction update_simple_statistics
rollback-IsBalanced db v b h = ground (arith, v.open_level)

-- Begin, commit and rollback keep the counters in balance: committed, rolled back and open levels
-- together are never more than started. The flag and the level have to agree before.
pub transactions-IsBalanced :
    (env : Env) (db : Database)
    → LevelIsValid db
    → IsBalanced db
    → IsBalanced (db_begin_transaction env db).1
      × IsBalanced (db_commit_transaction db).1
      × IsBalanced (db_rollback_transaction db).1
transactions-IsBalanced env db v b =
    (begin-IsBalanced env db v b, commit-IsBalanced db v b, rollback-IsBalanced db v b)

-- If the flag and the level of the transaction agree, a local transaction makes the change, whether
-- a transaction is open or not, and leaves the flag and the level as they were; it never fails to
-- begin.
pub in_transaction_lem :
    {A : Type 0} (env : Env) (nothing : A) (change : Change A) (s : State)
    → LevelIsValid s.db
    → ((in_transaction env nothing change s).0 ≡ change.code)
      × ((in_transaction env nothing change s).1.db.tables ≡ change.tables)
      × ((in_transaction env nothing change s).1.global_counter ≡ change.global_counter)
      × ((in_transaction env nothing change s).2 ≡ change.stored)
      × ((in_transaction env nothing change s).1.db.transaction_active ≡ s.db.transaction_active)
      × ((in_transaction env nothing change s).1.db.transaction_level ≡ s.db.transaction_level)
      × ((in_transaction env nothing change s).1.db.table_capacity ≡ s.db.table_capacity)
unfolding in_transaction db_begin_transaction end_transaction db_commit_transaction
    db_rollback_transaction
in_transaction_lem env nothing change s v = ground (arith, v.idle)
