-- ===== src/Database/Transactions/Valid.antt =====
-- Begin, commit and rollback (src/database.c) and the well-formed database.
use luminix_experience_platf.Database.Transactions.Laws.{
  rollback-LevelIsValid, commit-LevelIsValid, begin-LevelIsValid,
}
use luminix_experience_platf.Database.Transactions.{
  db_rollback_transaction, db_commit_transaction, db_begin_transaction,
}
use luminix_experience_platf.Database.Invariant.{DatabaseIsValid}
use luminix_experience_platf.Schema.{Table, Database, Env}
use luminix_experience_platf.Base.{length, ap, ◌≡◌, arith}

module _ (env : Env) (db : Database) where
  pub tables-begin : (db_begin_transaction env db).1.tables ≡ db.tables
  unfolding db_begin_transaction
  tables-begin = ground arith

  pub tables-commit : (db_commit_transaction db).1.tables ≡ db.tables
  unfolding db_commit_transaction
  tables-commit = ground arith

  pub tables-rollback : (db_rollback_transaction db).1.tables ≡ db.tables
  unfolding db_rollback_transaction
  tables-rollback = ground arith

  capacity-begin : (db_begin_transaction env db).1.table_capacity ≡ db.table_capacity
  unfolding db_begin_transaction
  capacity-begin = ground arith

  capacity-commit : (db_commit_transaction db).1.table_capacity ≡ db.table_capacity
  unfolding db_commit_transaction
  capacity-commit = ground arith

  capacity-rollback : (db_rollback_transaction db).1.table_capacity ≡ db.table_capacity
  unfolding db_rollback_transaction
  capacity-rollback = ground arith

  pub begin-DatabaseIsValid : DatabaseIsValid db → DatabaseIsValid (db_begin_transaction env db).1
  begin-DatabaseIsValid v = record {
    tables = rw tables-begin v.tables;
    fits = omega (arith, v.fits, ap (length {A = Table}) tables-begin, capacity-begin);
    bounded = omega (arith, v.bounded, capacity-begin);
    level = begin-LevelIsValid env db v.level;
  }

  pub commit-DatabaseIsValid : DatabaseIsValid db → DatabaseIsValid (db_commit_transaction db).1
  commit-DatabaseIsValid v = record {
    tables = rw tables-commit v.tables;
    fits = omega (arith, v.fits, ap (length {A = Table}) tables-commit, capacity-commit);
    bounded = omega (arith, v.bounded, capacity-commit);
    level = commit-LevelIsValid db v.level;
  }

  pub rollback-DatabaseIsValid : DatabaseIsValid db → DatabaseIsValid (db_rollback_transaction db).1
  rollback-DatabaseIsValid v = record {
    tables = rw tables-rollback v.tables;
    fits = omega (arith, v.fits, ap (length {A = Table}) tables-rollback, capacity-rollback);
    bounded = omega (arith, v.bounded, capacity-rollback);
    level = rollback-LevelIsValid db v.level;
  }
