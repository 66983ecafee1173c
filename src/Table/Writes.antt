-- ===== src/Table/Writes.antt =====
-- What the loop over the fields of `table_update_record` writes, and the update in terms of it.
use luminix_experience_platf.Base.{
  ℕ, suc, ◌+◌, ℤ, Bool, true, false, not, ◌&&◌, List, [], ◌∷◌, none, some, ◌≡◌, refl, arith,
  if◌then◌else◌, length, All, ap, succ_int,
}
use luminix_experience_platf.Schema.{
  success, error_not_found, error_duplicate_key, Field, Column, Record, Table, Env,
  stat_records_updated, update_simple_table_statistics,
}
use luminix_experience_platf.Indexes.Laws.{reindex_lem}
use luminix_experience_platf.Table.{
  field_count, find_id, table_find_record, key_conflict, write_field, write_fields, replace_id,
  table_update_record,
}
use luminix_experience_platf.Table.Find.{DistinctIds-replace, length-replace_id, All-replace_id}
use luminix_experience_platf.Table.Invariant.{IsValid, HasFields}

pub write_fields-length :
    (t : Table) (id : ℤ) (values : ℕ → Field) (cs : List Column) (i : ℕ) (fs : List Field)
    → length (write_fields t id values cs i fs).1 ≡ length fs
unfolding write_fields
write_fields-length t id values [] i fs = refl
write_fields-length t id values (c ∷ cs) i [] = refl
write_fields-length t id values (c ∷ cs) i (f ∷ fs) =
    ground (arith, write_fields-length t id values cs (i + 1) fs)

-- every field written by `write_field`, up to the number of columns
unfoldable pub all_written : List Column → ℕ → (ℕ → Field) → List Field → List Field
all_written [] i values fs = fs
all_written (c ∷ cs) i values [] = []
all_written (c ∷ cs) i values (f ∷ fs) = write_field f (values i) ∷ all_written cs (i + 1) values fs

pub all_written-length :
    (cs : List Column) (i : ℕ) (values : ℕ → Field) (fs : List Field)
    → length (all_written cs i values fs) ≡ length fs
unfolding all_written
all_written-length [] i values fs = refl
all_written-length (c ∷ cs) i values [] = refl
all_written-length (c ∷ cs) i values (f ∷ fs) = ap suc (all_written-length cs (i + 1) values fs)

-- some primary key among the columns is given another record's id
abbrev pub key_taken : Table → ℤ → (ℕ → Field) → List Column → ℕ → Bool
key_taken t id values [] i = false
key_taken t id values (c ∷ cs) i =
    if c.constraint.primary_key && key_conflict t id (values i)
    then true
    else key_taken t id values cs (i + 1)

-- no primary key among the columns
abbrev pub NoKeys : List Column → Type 0
NoKeys = All (λ c. c.constraint.primary_key ≡ false)

pub write_fields_lem :
    (t : Table) (id : ℤ) (values : ℕ → Field) (cs : List Column) (i : ℕ) (fs : List Field)
    → length fs ≡ length cs
    → ((write_fields t id values cs i fs).0 ≡ not (key_taken t id values cs i))
      × (key_taken t id values cs i ≡ false
          → (write_fields t id values cs i fs).1 ≡ all_written cs i values fs)
unfolding write_fields all_written
write_fields_lem t id values [] i fs h = (refl, λ _. refl)
write_fields_lem t id values (c ∷ cs) i [] h = absurd (omega arith)
write_fields_lem t id values (c ∷ cs) i (f ∷ fs) h =
    let ih = write_fields_lem t id values cs (i + 1) fs (omega arith) in
    (ground (arith, ih.0), λ e. ground (arith, ih.0, ih.1))

-- the record that a successful update leaves
unfoldable pub updated : Env → Table → Record → (ℕ → Field) → Record
updated env t old values = record old {
  fields = all_written t.columns 0 values old.fields;
  timestamp = env.now;
  version = succ_int old.version;
}

pub replace_id_self :
    (rs : List Record) (id : ℤ) {r : Record} → find_id rs id ≡ some r → replace_id rs id r ≡ rs
unfolding replace_id find_id
replace_id_self [] id h = refl
replace_id_self (x ∷ xs) id {r} h = ground (arith, replace_id_self xs id {r = r})

module _ (t : Table) (id : ℤ) (new : Record) (same : new.id ≡ id) where
  pub replaced-IsValid :
      {u : Table}
      → IsValid t
      → HasFields (field_count t) new
      → u.columns ≡ t.columns
      → u.records ≡ replace_id t.records id new
      → u.record_count ≡ t.record_count
      → u.index_manager ≡ t.index_manager
      → IsValid u
  replaced-IsValid {u} v shape cs rs count im = record {
    counted = omega (arith, v.counted, length-replace_id t.records id new, ap length rs);
    bounded = omega (arith, v.bounded);
    distinct = rw rs (DistinctIds-replace t.records id new same v.distinct);
    shaped =
        rw (rs, cs) (All-replace_id (HasFields (field_count t)) t.records id new shape v.shaped);
    indexes_fit = rw im v.indexes_fit;
  }

module _ (env : Env) (t : Table) (id : ℤ) (values : ℕ → Field) where
  pub update_missing :
      table_find_record t id ≡ none
      → table_update_record env t id (some values) ≡ (error_not_found, t)
  unfolding table_update_record
  update_missing missing = ground arith

  module _ (old : Record) (found : table_find_record t id ≡ some old)
      (shape : length old.fields ≡ field_count t) where
    pub update_conflict :
        key_taken t id values t.columns 0 ≡ true
        → table_update_record env t id (some values) ≡ (
          error_duplicate_key,
          record t {
            records =
                replace_id t.records id
                  (record old { fields = (write_fields t id values t.columns 0 old.fields).1 });
          },
        )
    unfolding table_update_record
    update_conflict taken =
        ground (arith, (write_fields_lem t id values t.columns 0 old.fields shape).0)

    pub update_done :
        key_taken t id values t.columns 0 ≡ false
        → table_update_record env t id (some values) ≡ (
          success,
          record t {
            records = replace_id t.records id (updated env t old values);
            statistics = update_simple_table_statistics t.statistics stat_records_updated 1;
          },
        )
    unfolding table_update_record updated
    update_done free = ground (
      arith,
      write_fields_lem t id values t.columns 0 old.fields shape,
      reindex_lem t.columns t.index_manager old.fields (updated env t old values),
    )

pub key_taken-NoKeys :
    (t : Table) (id : ℤ) (values : ℕ → Field) (cs : List Column) (i : ℕ)
    → NoKeys cs
    → key_taken t id values cs i ≡ false
key_taken-NoKeys t id values [] i h = refl
key_taken-NoKeys t id values (c ∷ cs) i h = ground (arith, key_taken-NoKeys t id values cs (i + 1))

-- no column but the first is a primary key, as `db_add_table` sets them up
abbrev pub FirstKeyOnly : List Column → Type 0
FirstKeyOnly [] = Unit
FirstKeyOnly (c ∷ cs) = NoKeys cs

-- a conflict in the first column is met before any field is written
pub write_fields_first :
    (t : Table) (id : ℤ) (values : ℕ → Field) (cs : List Column) (fs : List Field)
    → FirstKeyOnly cs
    → key_taken t id values cs 0 ≡ true
    → (write_fields t id values cs 0 fs).1 ≡ fs
unfolding write_fields
write_fields_first t id values [] fs h taken = refl
write_fields_first t id values (c ∷ cs) [] h taken = refl
write_fields_first t id values (c ∷ cs) (f ∷ fs) h taken =
    ground (arith, key_taken-NoKeys t id values cs 1 h)

-- a conflict in the second column is met when the first field is written
pub write_fields_second :
    (t : Table) (id : ℤ) (values : ℕ → Field) (cs : List Column) (fs : List Field) (c d : Column)
    (ds : List Column) (f g : Field) (gs : List Field)
    → cs ≡ c ∷ d ∷ ds
    → fs ≡ f ∷ g ∷ gs
    → c.constraint.primary_key ≡ false
    → d.constraint.primary_key ≡ true
    → key_conflict t id (values 1) ≡ true
    → (key_taken t id values cs 0 ≡ true)
      × ((write_fields t id values cs 0 fs).1 ≡ write_field f (values 0) ∷ g ∷ gs)
unfolding write_fields
write_fields_second t id values (c' ∷ d' ∷ ds') (f' ∷ g' ∷ gs') c d ds f g gs ec ef hc hd k =
    ground arith
write_fields_second t id values _ _ c d ds f g gs ec ef hc hd k = absurd (cc)
