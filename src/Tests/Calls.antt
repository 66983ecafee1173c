-- ===== src/Tests/Calls.antt =====
-- A database that calls lead to: created, given a table, and a record.
use luminix_experience_platf.Tests.Data.{row, granted}
use luminix_experience_platf.Indexes.{create_simple_index_manager}
use luminix_experience_platf.Database.Records.{db_insert_record}
use luminix_experience_platf.Schema.{type_int, zero_statistics, State, Database}
use luminix_experience_platf.Database.Tables.{db_add_table, db_create}
use luminix_experience_platf.Database.Reach.{
  insert_record, add_table, created, reach-DatabaseIsValid, called, Reach,
}
use luminix_experience_platf.Database.Invariant.{DatabaseIsValid}
use luminix_experience_platf.Base.{codes, pos, false, [], some, ◌≡◌, refl}

abbrev empty : Database
empty = record {
  tables = [];
  table_capacity = 0;
  index_manager = some (record { indexes = []; capacity = 0 });
  cache = some (record { policy = 0; size = 100 });
  statistics = some zero_statistics;
  transaction_active = false;
  transaction_level = 0;
  transaction_start_time = 0;
}

empty_created : db_create granted ≡ some empty
unfolding db_create create_simple_index_manager
empty_created = refl

abbrev at_start : State
at_start = record { db = empty; global_counter = pos 1 }

abbrev with_table : State
with_table = record at_start {
  db =
      (db_add_table granted empty (some (codes "users")) (some (λ i. codes "id"))
        (some (λ i. type_int)) (pos 2)).1;
}

abbrev with_record : State
with_record = (db_insert_record granted with_table (some (codes "users")) (some row)).1

abbrev calls : Reach with_record
calls =
    called
      (called (created granted empty (pos 1) empty_created) (
        add_table granted (some (codes "users")) (some (λ i. codes "id")) (some (λ i. type_int))
          (pos 2)))
      (insert_record granted (some (codes "users")) (some row))

reach-DatabaseIsValid_example : DatabaseIsValid with_record.db
reach-DatabaseIsValid_example = reach-DatabaseIsValid calls
