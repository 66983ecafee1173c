-- ===== src/Tests/Data.antt =====
-- A database of src/database.c with one table of two users.
use luminix_experience_platf.Table.Invariant.{IsValid}
use luminix_experience_platf.Table.{find_id}
use luminix_experience_platf.Schema.{
  zero_table_statistics, type_null, zero_statistics, type_int, Table, State, Record, Field, Env,
  Database, Constraint, Column,
}
use luminix_experience_platf.Indexes.{field_position}
use luminix_experience_platf.Database.Transactions.Laws.{LevelIsValid}
use luminix_experience_platf.Database.Tables.{find_table, db_get_table}
use luminix_experience_platf.Database.Invariant.{DatabaseIsValid}
use luminix_experience_platf.Base.{
  str_eq, codes, Bytes, ℕ, zero, suc, ℤ, pos, Bool, true, false, [], ◌∷◌, none, some, ◌≡◌, refl,
  arith,
}

abbrev pub granted : Env
granted = record { now = 100; alloc = λ k. true }

abbrev pub int_field : Bytes → ℤ → Field
int_field name n = record {
  name = name;
  type = type_int;
  value = record {
    int_value = n;
    string_value = [];
    float_value = 0;
    double_value = 0;
    bool_value = false;
  };
}

abbrev pub plain : Bool → Constraint
plain key = record { nullable = true; unique = false; primary_key = key; foreign_key = false }

abbrev pub id_column : Column
id_column = record { name = codes "id"; type = type_int; constraint = plain true }

abbrev pub age_column : Column
age_column = record { name = codes "age"; type = type_int; constraint = plain false }

abbrev pub user : ℕ → ℕ → Record
user id age = record {
  id = pos id;
  fields = int_field (codes "id") (pos id) ∷ int_field (codes "age") (pos age) ∷ [];
  field_count = 2;
  timestamp = 7;
  version = pos 1;
}

abbrev pub users : Table
users = record {
  name = codes "users";
  columns = id_column ∷ age_column ∷ [];
  records = user 2 30 ∷ user 1 40 ∷ [];
  record_count = 2;
  capacity = 100;
  next_record_id = pos 3;
  index_manager = record { indexes = []; capacity = 0 };
  statistics = some zero_table_statistics;
}

pub users-IsValid : IsValid users
unfolding find_id
users-IsValid = record {
  counted = refl;
  bounded = omega arith;
  distinct = (refl, (refl, tt));
  shaped = ((refl, refl), ((refl, refl), tt));
  indexes_fit = omega arith;
}

abbrev pub database : Database
database = record {
  tables = users ∷ [];
  table_capacity = 4;
  index_manager = none;
  cache = none;
  statistics = some zero_statistics;
  transaction_active = false;
  transaction_level = 0;
  transaction_start_time = 0;
}

pub database-LevelIsValid : LevelIsValid database
database-LevelIsValid = record { idle = λ h. refl; open_level = λ h. cc; bounded = omega arith }

-- the same inside a transaction
abbrev pub open_database : Database
open_database = record database { transaction_active = true; transaction_level = 2 }

abbrev pub start : State
start = record { db = database; global_counter = pos 1 }

pub database-DatabaseIsValid : DatabaseIsValid database
database-DatabaseIsValid = record {
  tables = (
    record {
      valid = users-IsValid;
      first_key = (refl, tt);
      name_fits = omega arith;
      few_indexes = omega arith;
    },
    tt,
  );
  fits = omega arith;
  bounded = omega arith;
  level = database-LevelIsValid;
}

pub users_found : db_get_table database (some (codes "users")) ≡ some users
unfolding db_get_table find_table str_eq
users_found = refl

pub age_position : field_position users.columns (codes "age") 0 ≡ some 1
unfolding field_position str_eq
age_position = refl

-- the new row (7, 25)
abbrev pub row : ℕ → Field
row zero = int_field (codes "id") (pos 7)
row (suc i) = int_field (codes "age") (pos 25)

-- a row with no id
abbrev pub row_without_id : ℕ → Field
row_without_id zero = record (int_field (codes "id") (pos 0)) { type = type_null }
row_without_id (suc i) = int_field (codes "age") (pos 25)
