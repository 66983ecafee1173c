-- ===== src/Database/Fields/Search.antt =====
-- What the searches by field find.
use luminix_experience_platf.Indexes.{index_search_simple, field_position}
use luminix_experience_platf.Database.Tables.{db_get_table}
use luminix_experience_platf.Schema.{Env, Table, FieldValue, FieldType, Record, Database}
use luminix_experience_platf.Database.Fields.{
  column_type, db_find_record_by_field, db_find_all_records_by_field, value_matches, field_at,
  find_matching, all_matching,
}
use luminix_experience_platf.Base.{
  ◌∙◌, ltb, Bool-cases, length, All, Bytes, ℕ, true, List, [], ◌∷◌, Option, none, some, ◌≡◌, refl,
  arith, if◌then◌else◌, inl, inr,
}

-- the head of an array, or NULL
abbrev pub first : List Record → Option Record
first [] = none
first (r ∷ rs) = some r

first_lem :
    (l : List Record)
    → first l
      ≡ elim (if ltb 0 (length l) then some l else none) [ none ↦ none | some rs ↦ first rs ]
first_lem [] = refl
first_lem (r ∷ rs) = ground arith

find_matching-first :
    (type : FieldType) (rs : List Record) (i : ℕ) (v : FieldValue)
    → All (λ r. (field_at r i).type ≡ type) rs
    → find_matching rs i v ≡ first (all_matching type rs i v)
unfolding find_matching all_matching
find_matching-first type [] i v h = refl
find_matching-first type (r ∷ rs) i v h =
    rw h.0 (elim (Bool-cases (value_matches type (field_at r i).value v)) [
      | inl yes_match ↦ rw yes_match
      | inr no_match ↦ rw no_match (find_matching-first type rs i v h.1)
    ])

module _ (db : Database) (name field_name : Bytes) (value : FieldValue) (t : Table) (i : ℕ)
    (found : db_get_table db (some name) ≡ some t)
    (column : field_position t.columns field_name 0 ≡ some i) where
  by_field_linear :
      db_find_record_by_field db (some name) (some field_name) (some value)
      ≡ find_matching t.records i value
  unfolding db_find_record_by_field index_search_simple
  by_field_linear = ground arith

  find_all_lem :
      (env : Env)
      → env.alloc 0 ≡ true
      → let l : List Record = all_matching (column_type t i) t.records i value in
        db_find_all_records_by_field env db (some name) (some field_name) (some value) true
        ≡ (if ltb 0 (length l) then some l else none, some (length l))
  unfolding db_find_all_records_by_field
  find_all_lem env granted = ground arith

  -- For a table and a column that exist, where memory is granted and the fields have the type of
  -- their column: `db_find_record_by_field`, with or without an index, returns the first of the
  -- records that `db_find_all_records_by_field` returns, and NULL if that returns none.
  pub find_by_field_first :
      (env : Env)
      → env.alloc 0 ≡ true
      → All (λ r. (field_at r i).type ≡ column_type t i) t.records
      → db_find_record_by_field db (some name) (some field_name) (some value)
        ≡ elim ((db_find_all_records_by_field env db
            (some name)
            (some field_name)
            (some value)
            true).0) [ none ↦ none | some rs ↦ first rs ]
  find_by_field_first env granted types =
      let l : List Record = all_matching (column_type t i) t.records i value in
      by_field_linear
      ∙ find_matching-first (column_type t i) t.records i value types
      ∙ (rw (find_all_lem env granted) (first_lem l))

  -- nothing matches: NULL, and the count 0, whether the array was granted or not
  pub find_all_nothing :
      (env : Env)
      → all_matching (column_type t i) t.records i value ≡ []
      → db_find_all_records_by_field env db (some name) (some field_name) (some value) true
        ≡ (none, some 0)
  unfolding db_find_all_records_by_field
  find_all_nothing env nothing = ground arith
