-- ===== src/Database/Tables/Laws.antt =====
-- Adding a table, and finding one.
use luminix_experience_platf.Base.{
  ℕ, ◌≤◌, ◌<◌, ℤ, pos, pos_part, Bytes, str_eq, str_eq→eq, str_eq_refl, false, ◌&&◌, List, [], ◌∷◌,
  ◌++◌, none, some, ◌≤ℤ◌, if◌then◌else◌, take, take_all, length-take-le, is_some, ◌≡◌, ◌≢◌, refl,
  ap, arith, length, All, Bool-cases, inl, inr,
}
use mathlib.Core.Path.{subst}
use luminix_experience_platf.Schema.{
  success, FieldType, IndexManager, Table, Database, Env, table_count, max_tables,
  max_table_name_chars,
}
use luminix_experience_platf.Database.Tables.{
  find_table, db_get_table, put_table, make_columns, new_table, db_add_table,
}

pub name-find_table :
    (ts : List Table) (n : Bytes) {t : Table} → find_table ts n ≡ some t → t.name ≡ n
unfolding find_table
name-find_table [] n h = cc
name-find_table (x ∷ xs) n {t} h = ground (arith, name-find_table xs n {t = t}, str_eq→eq x.name n)

pub find_table-append :
    (ts : List Table) (t : Table) (n : Bytes)
    → find_table (ts ++ t ∷ []) n ≡ (
        if is_some (find_table ts n)
        then find_table ts n
        else if str_eq t.name n
        then some t
        else none)
unfolding find_table
find_table-append [] t n = refl
find_table-append (x ∷ xs) t n = ground (arith, find_table-append xs t n)

-- Writing back a table of the same name changes the search for that name alone.
pub find_table-put :
    (ts : List Table) (n : Bytes) (u : Table) (m : Bytes)
    → u.name ≡ n
    → find_table (put_table ts n u) m
      ≡ (if str_eq n m && is_some (find_table ts n) then some u else find_table ts m)
unfolding find_table put_table
find_table-put [] n u m e = ground arith
find_table-put (x ∷ xs) n u m e = ground (
  arith,
  find_table-put xs n u m e,
  str_eq→eq x.name n,
  str_eq→eq x.name m,
  str_eq→eq n m,
  str_eq_refl x.name,
)

pub get_after_put :
    (db' db : Database) (n : Bytes) (t u : Table)
    → db_get_table db (some n) ≡ some t
    → u.name ≡ n
    → db'.tables ≡ put_table db.tables n u
    → db_get_table db' (some n) ≡ some u
unfolding db_get_table
get_after_put db' db n t u found same e =
    rw e (ground (arith, find_table-put db.tables n u n same, str_eq_refl n))

pub put_table_self :
    (ts : List Table) (n : Bytes) {t : Table} → find_table ts n ≡ some t → put_table ts n t ≡ ts
unfolding find_table put_table
put_table_self [] n h = refl
put_table_self (x ∷ xs) n {t} h = ground (arith, put_table_self xs n {t = t})

pub length-put_table :
    (ts : List Table) (n : Bytes) (u : Table) → length (put_table ts n u) ≡ length ts
unfolding put_table
length-put_table [] n u = refl
length-put_table (x ∷ xs) n u = ground (arith, length-put_table xs n u)

module _ (P : Table → Type 0) where
  pub All-put_table :
      (ts : List Table) (n : Bytes) (u : Table) → P u → All P ts → All P (put_table ts n u)
  unfolding put_table
  All-put_table [] n u p h = tt
  All-put_table (t ∷ ts) n u p h = ground (arith, All-put_table ts n u p)

  pub All-find_table :
      (ts : List Table) (n : Bytes) {t : Table} → find_table ts n ≡ some t → All P ts → P t
  unfolding find_table
  All-find_table [] n e h = cc
  All-find_table (x ∷ xs) n {t} e h = elim (Bool-cases (str_eq x.name n)) [
    | inl same ↦ let found : x ≡ t = ground arith in subst P found h.0
    | inr other ↦
        let later : find_table xs n ≡ some t = ground arith in All-find_table xs n later h.1
  ]

cut_name_differs : (n : ℕ) (name : Bytes) → n < length name → str_eq (take n name) name ≡ false
cut_name_differs n name long = elim (Bool-cases (str_eq (take n name) name)) [
  | inl same ↦
      absurd (omega (arith, ap (length {A = ℕ}) (str_eq→eq _ name same), length-take-le n name))
  | inr other ↦ other
]

-- the manager of a new table
abbrev no_indexes : IndexManager
no_indexes = record { indexes = []; capacity = 0 }

abbrev pub added_table : Env → Bytes → (ℕ → Bytes) → (ℕ → FieldType) → ℤ → Table
added_table env name field_names types field_count =
    new_table env name (make_columns field_names types (pos_part field_count) 0) no_indexes

module _ (env : Env) (db : Database) (name : Bytes) (field_names : ℕ → Bytes)
    (types : ℕ → FieldType) (field_count : ℤ) where
  pub add_table_appends :
      (db_add_table env db (some name) (some field_names) (some types) field_count).0 ≡ success
      → ((db_add_table env db (some name) (some field_names) (some types) field_count).1.tables
          ≡ db.tables ++ added_table env name field_names types field_count ∷ [])
        × (find_table db.tables name ≡ none)
        × (pos 1 ≤ℤ field_count)
        × (field_count ≤ℤ pos 50)
        × (table_count db < max_tables)
  unfolding db_add_table
  add_table_appends h = ground arith

  -- After SUCCESS the search finds every table that it found before, and finds the new table under
  -- its stored name, which is the first 63 bytes of the name given.
  pub add_table-get :
      (m : Bytes)
      → (db_add_table env db (some name) (some field_names) (some types) field_count).0 ≡ success
      → db_get_table
          (db_add_table env db (some name) (some field_names) (some types) field_count).1
          (some m)
        ≡ (if is_some (db_get_table db (some m))
            then db_get_table db (some m)
            else if str_eq (take max_table_name_chars name) m
            then some (added_table env name field_names types field_count)
            else none)
  unfolding db_get_table new_table
  add_table-get m h =
      rw (add_table_appends h).0
        (find_table-append db.tables (added_table env name field_names types field_count) m)

  -- A table whose name fits in 63 bytes is found under its name once `db_add_table` has returned
  -- SUCCESS.
  pub add_table_found :
      length name ≤ max_table_name_chars
      → (db_add_table env db (some name) (some field_names) (some types) field_count).0 ≡ success
      → db_get_table
          (db_add_table env db (some name) (some field_names) (some types) field_count).1
          (some name)
        ≡ some (added_table env name field_names types field_count)
  unfolding db_get_table
  add_table_found fits h = ground (
    arith,
    add_table-get name h,
    add_table_appends h,
    take_all max_table_name_chars name fits,
    str_eq_refl name,
  )

  -- If `db_add_table` returns SUCCESS for a name of more than 63 bytes, no table is found under
  -- that name afterwards.
  pub add_table_long_name_lost :
      max_table_name_chars < length name
      → (db_add_table env db (some name) (some field_names) (some types) field_count).0 ≡ success
      → db_get_table
          (db_add_table env db (some name) (some field_names) (some types) field_count).1
          (some name)
        ≡ none
  unfolding db_get_table
  add_table_long_name_lost long h = rw (
    add_table-get name h,
    (add_table_appends h).1,
    cut_name_differs max_table_name_chars name long,
  )

  -- A `db_add_table` that does not return SUCCESS changes nothing but, at most, the capacity of the
  -- array.
  pub add_table_failure_keeps :
      (db_add_table env db (some name) (some field_names) (some types) field_count).0 ≢ success
      → record ((db_add_table env db (some name) (some field_names) (some types) field_count).1) {
        table_capacity = db.table_capacity;
      }
        ≡ db
  unfolding db_add_table
  add_table_failure_keeps h = ground arith
