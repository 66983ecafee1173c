-- ===== src/Database/Transactions.antt =====
-- Transaction management of src/database.c, and the local transaction that every change of a
-- record runs in.
pub mod Laws
pub mod Valid
use luminix_experience_platf.Base.{
  ℕ, ℤ, List, ◌+◌, ◌-◌, Bool, true, false, not, ◌&&◌, leb, ltb, if◌then◌else◌,
}
use luminix_experience_platf.Schema.{
  ErrorCode, Table, success, error_transaction_conflict, Database, State, Env,
  max_transaction_level, is_success, stat_transactions_started, stat_transactions_committed,
  stat_transactions_rolled_back, update_simple_statistics,
}

unfoldable pub db_begin_transaction : Env → Database → ErrorCode × Database
db_begin_transaction env db =
    if db.transaction_active && leb max_transaction_level db.transaction_level
    then (error_transaction_conflict, db)
    else if not db.transaction_active
    then (
      success,
      record db {
        transaction_active = true;
        transaction_level = 1;
        transaction_start_time = env.now;
        statistics = update_simple_statistics db.statistics stat_transactions_started 1;
      },
    )
    else (
      success,
      record db {
        transaction_level = db.transaction_level + 1;
        statistics = update_simple_statistics db.statistics stat_transactions_started 1;
      },
    )

unfoldable pub db_commit_transaction : Database → ErrorCode × Database
db_commit_transaction db =
    if not db.transaction_active
    then (error_transaction_conflict, db)
    else if ltb 1 db.transaction_level
    then (success, record db { transaction_level = db.transaction_level - 1 })
    else (
      success,
      record db {
        transaction_active = false;
        transaction_level = 0;
        statistics = update_simple_statistics db.statistics stat_transactions_committed 1;
      },
    )

unfoldable pub db_rollback_transaction : Database → ErrorCode × Database
db_rollback_transaction db =
    if not db.transaction_active then (error_transaction_conflict, db) else (
      success,
      record db {
        transaction_active = false;
        transaction_level = 0;
        statistics = update_simple_statistics db.statistics stat_transactions_rolled_back 1;
      },
    )

-- the end of a local transaction: commit after SUCCESS, rollback after an error; the code ignores
-- what these return
unfoldable pub end_transaction : ErrorCode → Database → Database
end_transaction code db =
    if is_success code then (db_commit_transaction db).1 else (db_rollback_transaction db).1

-- What a change of records does: its code, the tables and the counter that it leaves, and what it
-- stores for the caller. It reads and writes nothing else of the state.
pub record Change (A : Type 0) : Type 0 where
  pub code : ErrorCode
  pub tables : List Table
  pub global_counter : ℤ
  pub stored : A

abbrev pub apply_change : {A : Type 0} → Change A → State → State
apply_change change s = record {
  db = record s.db { tables = change.tables };
  global_counter = change.global_counter;
}

-- The frame of `db_insert_record`, `db_update_record` and `db_delete_record`: a transaction round
-- the change unless one is open. If it cannot begin, the change is not made.
unfoldable pub in_transaction : {A : Type 0} → Env → A → Change A → State → ErrorCode × State × A
in_transaction env nothing change s =
    if not s.db.transaction_active
    then (let (code, begun) = db_begin_transaction env s.db in
        if not (is_success code)
        then (code, record s { db = begun }, nothing)
        else let changed : State = apply_change change (record s { db = begun }) in
          (
            change.code,
            record changed { db = end_transaction change.code changed.db },
            change.stored,
          ))
    else (change.code, apply_change change s, change.stored)
