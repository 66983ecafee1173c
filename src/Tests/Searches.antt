-- ===== src/Tests/Searches.antt =====
-- Runs of the searches and deletions by field, of the tables and of the indexes.
use luminix_experience_platf.Database.IndexOps.Laws.{create_index_found, stored_index}
use luminix_experience_platf.Indexes.{
  add_index_to_manager, create_simple_index_manager, create_simple_index, find_index_in_manager,
  field_position,
}
use luminix_experience_platf.Database.Fields.Delete.{
  delete_by_field_lem, unmatched, delete_by_field_no_match_ends_transaction,
}
use luminix_experience_platf.Database.Tables.Laws.{
  add_table_found, added_table, add_table_long_name_lost,
}
use luminix_experience_platf.Database.Fields.Search.{find_by_field_first, first}
use luminix_experience_platf.Tests.Data.{
  start, users_found, age_position, users, user, open_database, int_field, granted, database,
}
use luminix_experience_platf.Schema.{
  index_count, success, index_hash, error_invalid_input, type_int, Table, State, FieldValue,
  FieldType, ErrorCode,
}
use luminix_experience_platf.Database.Transactions.{db_begin_transaction}
use luminix_experience_platf.Database.Tables.{
  put_table, names_granted, append_table, find_table, db_get_table, db_add_table,
}
use luminix_experience_platf.Database.IndexOps.{db_create_index}
use luminix_experience_platf.Database.Fields.{
  column_type, value_matches, db_delete_records_by_field, db_find_record_by_field,
  db_find_all_records_by_field, all_matching,
}
use luminix_experience_platf.Base.{
  str_eq, codes, length, Bytes, ℕ, ◌+◌, ◌-◌, pos, true, false, [], ◌∷◌, Option, none, some, ◌≡◌,
  refl, arith,
}

abbrev table : Bytes
table = codes "users"

abbrev age : Bytes
age = codes "age"

abbrev forty : FieldValue
forty = (int_field [] (pos 40)).value

abbrev ninety : FieldValue
ninety = (int_field [] (pos 90)).value

find_by_field_first_example :
    db_find_record_by_field database (some table) (some age) (some forty)
    ≡ elim (db_find_all_records_by_field granted database
        (some table)
        (some age)
        (some forty)
        true).0 [ none ↦ none | some rs ↦ first rs ]
find_by_field_first_example =
    find_by_field_first database table age forty users 1 users_found age_position granted refl
      (refl, (refl, tt))

finds_one :
    (db_find_all_records_by_field granted database (some table) (some age) (some forty) true).0
    ≡ some (user 1 40 ∷ [])
unfolding db_find_all_records_by_field db_get_table find_table str_eq field_position value_matches
finds_one = refl

begins_at_start : (db_begin_transaction granted database).0 ≡ success
unfolding db_begin_transaction
begins_at_start = refl

delete_by_field_lem_example :
    let r : ErrorCode × State × Option ℕ =
      db_delete_records_by_field granted start (some table) (some age) (some forty) true in
    (r.0 ≡ success)
    × (r.2 ≡ some (length (all_matching (column_type users 1) users.records 1 forty)))
    × (r.1.db.tables
        ≡ put_table database.tables table (record users {
          records = unmatched (column_type users 1) users.records 1 forty;
          record_count = 2 - length (all_matching (column_type users 1) users.records 1 forty);
        }))
delete_by_field_lem_example =
    delete_by_field_lem granted start table age forty users 1 users_found age_position
      begins_at_start

abbrev open_state : State
open_state = record { db = open_database; global_counter = pos 1 }

users_found_open : db_get_table open_database (some table) ≡ some users
unfolding db_get_table find_table str_eq
users_found_open = refl

none_is_ninety : all_matching (column_type users 1) users.records 1 ninety ≡ []
unfolding all_matching value_matches
none_is_ninety = refl

delete_by_field_no_match_ends_transaction_example :
    let r : ErrorCode × State × Option ℕ =
      db_delete_records_by_field granted open_state (some table) (some age) (some ninety) true in
    (r.0 ≡ success) × (r.1.db.transaction_active ≡ false) × (r.1.db.transaction_level ≡ 0)
delete_by_field_no_match_ends_transaction_example =
    delete_by_field_no_match_ends_transaction granted open_state table age ninety users 1
      users_found_open age_position refl (omega arith) none_is_ninety

abbrev log_name : Bytes
log_name = codes "log"

abbrev names : ℕ → Bytes
names i = codes "f"

abbrev ints : ℕ → FieldType
ints i = type_int

log_added :
    (db_add_table granted database (some log_name) (some names) (some ints) (pos 2)).0 ≡ success
unfolding db_add_table find_table str_eq append_table names_granted create_simple_index_manager
log_added = refl

add_table_found_example :
    db_get_table
      (db_add_table granted database (some log_name) (some names) (some ints) (pos 2)).1
      (some log_name)
    ≡ some (added_table granted log_name names ints (pos 2))
add_table_found_example =
    add_table_found granted database log_name names ints (pos 2) (omega arith) log_added

-- 70 bytes
abbrev long_name : Bytes
long_name = codes "xxxxxxxxxxxxxxxxxxxxxxxxxxxxxxxxxxxxxxxxxxxxxxxxxxxxxxxxxxxxxxxxxxxxxx"

long_added :
    (db_add_table granted database (some long_name) (some names) (some ints) (pos 2)).0 ≡ success
unfolding db_add_table find_table str_eq append_table names_granted create_simple_index_manager
long_added = refl

add_table_long_name_lost_example :
    db_get_table
      (db_add_table granted database (some long_name) (some names) (some ints) (pos 2)).1
      (some long_name)
    ≡ none
add_table_long_name_lost_example =
    add_table_long_name_lost granted database long_name names ints (pos 2) (omega arith) long_added

no_columns :
    (db_add_table granted database (some log_name) (some names) (some ints) (pos 0)).0
    ≡ error_invalid_input
unfolding db_add_table
no_columns = refl

index_created : (db_create_index granted database (some table) (some age) index_hash).0 ≡ success
unfolding db_create_index db_get_table find_table str_eq field_position find_index_in_manager
    create_simple_index add_index_to_manager
index_created = refl

create_index_found_example :
    (u : Table) × (db_get_table
        (db_create_index granted database (some table) (some age) index_hash).1
        (some table)
      ≡ some u)
    × (u.records ≡ users.records)
    × (index_count u.index_manager ≡ 0 + 1)
    × (find_index_in_manager u.index_manager table age ≡ some (stored_index table age index_hash))
create_index_found_example =
    create_index_found granted database table age index_hash users users_found (omega arith)
      (omega arith) index_created
