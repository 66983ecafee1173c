-- ===== src/Tests/Tables.antt =====
-- Runs of the operations on a table.
use luminix_experience_platf.Table.Clashes.{Clashes, HasId}
use luminix_experience_platf.Tests.Data.{
  users-IsValid, id_column, row_without_id, row, age_column, users, user, int_field, granted,
}
use luminix_experience_platf.Table.Update.{
  update_conflict_writes, update_code, update_failure_keeps,
}
use luminix_experience_platf.Table.Insert.{insert_generated_never_duplicate}
use luminix_experience_platf.Table.Accepts.{insert_succeeds_iff, IsAccepted}
use luminix_experience_platf.Table.Invariant.{IsValid}
use luminix_experience_platf.Table.{
  write_fields, given_id, write_field, table_update_record, table_insert_record, table_find_record,
  key_conflict, find_id, Inserted,
}
use luminix_experience_platf.Schema.{
  Record, error_not_found, error_duplicate_key, ErrorCode, success, Table, Field,
}
use luminix_experience_platf.Base.{
  minus_one, int_max, ◌<ℤ◌, All, codes, ℕ, zero, suc, pos, true, [], ◌∷◌, some, ◌≡◌, ◌≢◌, ◌↔◌, refl,
  arith,
}

abbrev inserted : Inserted
inserted = table_insert_record granted (pos 1) users (some row)

ids_below : All (λ (r : Record). r.id <ℤ int_max) users.records
ids_below = (omega arith, (omega arith, tt))

insert_succeeds_iff_example : (inserted.code ≡ success) ↔ IsAccepted granted (pos 1) users row
insert_succeeds_iff_example = insert_succeeds_iff granted (pos 1) users row ids_below

-- an id that is taken
abbrev taken_row : ℕ → Field
taken_row zero = int_field (codes "id") (pos 2)
taken_row (suc i) = int_field (codes "age") (pos 25)

insert_generated_never_duplicate_example :
    (table_insert_record granted (pos 1) users (some row_without_id)).code ≢ error_duplicate_key
insert_generated_never_duplicate_example =
    insert_generated_never_duplicate (pos 1) users ids_below granted row_without_id no_id
  where
    no_id : given_id users.columns 0 row_without_id ≡ minus_one
    no_id = unfold given_id in refl

update_code_example :
    (¬ HasId users.records (pos 1)
      → (table_update_record granted users (pos 1) (some row)).0 ≡ error_not_found)
    × (HasId users.records (pos 1)
        → Clashes users.records (pos 1) row users.columns 0
        → (table_update_record granted users (pos 1) (some row)).0 ≡ error_duplicate_key)
    × (HasId users.records (pos 1)
        → ¬ Clashes users.records (pos 1) row users.columns 0
        → (table_update_record granted users (pos 1) (some row)).0 ≡ success)
update_code_example = update_code granted users (pos 1) row users-IsValid

update_fails : (table_update_record granted users (pos 1) (some taken_row)).0 ≡ error_duplicate_key
unfolding table_update_record write_fields key_conflict table_find_record find_id
update_fails = refl

update_failure_keeps_example :
    (table_update_record granted users (pos 1) (some taken_row)).1 ≡ users
update_failure_keeps_example =
    update_failure_keeps granted users (pos 1) taken_row users-IsValid (refl, tt)
      (λ e. not_success e update_fails)
  where
    not_success : {c : ErrorCode} → c ≡ success → c ≡ error_duplicate_key → ⊥
    not_success p q = cc

-- the key is the second column
abbrev second_key : Table
second_key = record users { columns = age_column ∷ id_column ∷ [] }

second_key-IsValid : IsValid second_key
unfolding find_id
second_key-IsValid = record {
  counted = refl;
  bounded = omega arith;
  distinct = (refl, (refl, tt));
  shaped = ((refl, refl), ((refl, refl), tt));
  indexes_fit = omega arith;
}

abbrev second_taken : ℕ → Field
second_taken zero = int_field (codes "age") (pos 99)
second_taken (suc i) = int_field (codes "id") (pos 2)

second_found : table_find_record second_key (pos 1) ≡ some (user 1 40)
unfolding table_find_record find_id
second_found = refl

second_conflicts : key_conflict second_key (pos 1) (second_taken 1) ≡ true
unfolding key_conflict table_find_record find_id
second_conflicts = refl

update_conflict_writes_example :
    ((table_update_record granted second_key (pos 1) (some second_taken)).0 ≡ error_duplicate_key)
    × (table_find_record
          (table_update_record granted second_key (pos 1) (some second_taken)).1
          (pos 1)
        ≡ some (record (user 1 40) {
          fields =
              write_field (int_field (codes "id") (pos 1)) (second_taken 0)
              ∷ int_field (codes "age") (pos 40)
              ∷ [];
        }))
update_conflict_writes_example =
    update_conflict_writes granted second_key (pos 1) second_taken second_key-IsValid age_column
      id_column [] (int_field (codes "id") (pos 1)) (int_field (codes "age") (pos 40)) []
      (user 1 40) refl refl refl second_found refl second_conflicts
