-- ===== src/Table/Update.antt =====
-- Update of a record of a table.
use luminix_experience_platf.Table.Clashes.{
  no_clash, Clashes-key_taken, HasId-find_id, find_id-HasId, Clashes, HasId,
}
use luminix_experience_platf.Base.{
  ℕ, ℤ, eqb_ℤ, true, false, List, ◌∷◌, some, ◌≡◌, ◌≢◌, refl, arith, if◌then◌else◌, is_some,
  Bool-cases, Option-cases, inl, inr, length, ap, ◌∙◌,
}
use luminix_experience_platf.Schema.{
  success, error_not_found, error_duplicate_key, Field, Column, Record, Table, Env,
}
use luminix_experience_platf.Table.{
  find_id, field_count, table_find_record, key_conflict, write_field, write_fields, replace_id,
  table_update_record,
}
use luminix_experience_platf.Table.Find.{find_linear, id-find_id, find_id-replace, All-find_id}
use luminix_experience_platf.Table.Invariant.{IsValid, HasFields}
use luminix_experience_platf.Table.Writes.{
  write_fields-length, all_written-length, replace_id_self, replaced-IsValid, update_missing,
  update_conflict, update_done, write_fields_first, write_fields_second, key_taken, FirstKeyOnly,
  updated,
}

module _ (env : Env) (t : Table) (id : ℤ) (values : ℕ → Field) (v : IsValid t) where
  shape_of : (old : Record) → table_find_record t id ≡ some old → HasFields (field_count t) old
  shape_of old found =
      All-find_id (HasFields (field_count t)) t.records id {r = old} (rw (← find_linear t id) found)
        v.shaped

  id_of : (old : Record) → table_find_record t id ≡ some old → old.id ≡ id
  id_of old found = id-find_id t.records id {r = old} (rw (← find_linear t id) found)

  pub update_outcome : (table_update_record env t id (some values)).0 ≡ (
      if is_some (table_find_record t id)
      then (if key_taken t id values t.columns 0 then error_duplicate_key else success)
      else error_not_found)
  update_outcome = elim (Option-cases (table_find_record t id)) [
    | inl missing ↦ ground (arith, update_missing env t id values missing)
    | inr (r, found) ↦ ground (
      arith,
      update_conflict env t id values r found (shape_of r found).0,
      update_done env t id values r found (shape_of r found).0,
    )
  ]

  -- In a valid table `table_update_record` returns ERROR_NOT_FOUND if no record has the id. If one
  -- has it, it returns ERROR_DUPLICATE_KEY if a primary key is given a value that is not NULL and
  -- stands for the id of another record, and else SUCCESS. An `int` stands for itself, every other
  -- value for 0.
  pub update_code :
      (¬ HasId t.records id → (table_update_record env t id (some values)).0 ≡ error_not_found)
      × (HasId t.records id
          → Clashes t.records id values t.columns 0
          → (table_update_record env t id (some values)).0 ≡ error_duplicate_key)
      × (HasId t.records id
          → ¬ Clashes t.records id values t.columns 0
          → (table_update_record env t id (some values)).0 ≡ success)
  update_code = (
    λ missing. elim (Bool-cases (is_some (find_id t.records id))) [
      | inl found ↦ absurd (missing (find_id-HasId t.records id found))
      | inr none_found ↦ ground (arith, update_outcome, find_linear t id)
    ],
    λ has clash. ground (
      arith,
      update_outcome,
      find_linear t id,
      HasId-find_id t.records id has,
      Clashes-key_taken t id values t.columns 0 clash,
    ),
    λ has free. ground (
      arith,
      update_outcome,
      find_linear t id,
      HasId-find_id t.records id has,
      no_clash t id values t.columns 0 free,
    ),
  )

  -- A successful update of a valid table writes every field and the time, and counts the version
  -- up; the search for any other id returns what it did.
  pub update-find :
      (j : ℤ) {old : Record}
      → table_find_record t id ≡ some old
      → key_taken t id values t.columns 0 ≡ false
      → table_find_record (table_update_record env t id (some values)).1 j
        ≡ (if eqb_ℤ id j then some (updated env t old values) else table_find_record t j)
  update-find j {old} found free =
      rw (update_done env t id values old found (shape_of old found).0 free, find_linear)
        (ground (
          arith,
          find_linear t id,
          find_linear t j,
          find_id-replace t.records id j (updated env t old values)
              (unfold updated in id_of old found),
        ))

  -- An update keeps a valid table valid, whatever it returns.
  pub update-IsValid : IsValid (table_update_record env t id (some values)).1
  update-IsValid = elim (Option-cases (table_find_record t id)) [
    | inl missing ↦ rw (update_missing env t id values missing) v
    | inr (r, found) ↦ elim (Bool-cases (key_taken t id values t.columns 0)) [
      | inl taken ↦ rw (update_conflict env t id values r found (shape_of r found).0 taken) (
          replaced-IsValid t id _ (id_of r found) v
            (
              write_fields-length t id values t.columns 0 r.fields ∙ (shape_of r found).0,
              (shape_of r found).1,
            )
            refl refl refl refl)
      | inr free ↦ rw (update_done env t id values r found (shape_of r found).0 free) (
          replaced-IsValid t id (updated env t r values) (unfold updated in id_of r found) v
            (unfold updated in
              (
                all_written-length t.columns 0 values r.fields ∙ (shape_of r found).0,
                (shape_of r found).1,
              ))
            refl refl refl refl)
    ]
  ]

  -- If no column but the first is a primary key, an update that fails leaves a valid table as it
  -- was.
  pub update_failure_keeps :
      FirstKeyOnly t.columns
      → (table_update_record env t id (some values)).0 ≢ success
      → (table_update_record env t id (some values)).1 ≡ t
  update_failure_keeps keys failed = elim (Option-cases (table_find_record t id)) [
    | inl missing ↦ rw (update_missing env t id values missing)
    | inr (r, found) ↦
        let shape : length r.fields ≡ field_count t = (shape_of r found).0 in
        let taken : key_taken t id values t.columns 0 ≡ true =
          ground (arith, update_done env t id values r found shape) in
        rw (update_conflict env t id values r found shape taken) (
          ap (λ rs. record t { records = rs })
            (ap (λ fs. replace_id t.records id (record r { fields = fs }))
                (write_fields_first t id values t.columns r.fields keys taken)
              ∙ replace_id_self t.records id {r = r} (rw (← find_linear t id) found)))
  ]

  -- Where the first column is no primary key and the second one is, an update of a valid table that
  -- gives the second the id of another record fails with ERROR_DUPLICATE_KEY after it has written
  -- the first field.
  pub update_conflict_writes :
      (c d : Column) (ds : List Column) (f g : Field) (gs : List Field) (old : Record)
      → t.columns ≡ c ∷ d ∷ ds
      → c.constraint.primary_key ≡ false
      → d.constraint.primary_key ≡ true
      → table_find_record t id ≡ some old
      → old.fields ≡ f ∷ g ∷ gs
      → key_conflict t id (values 1) ≡ true
      → ((table_update_record env t id (some values)).0 ≡ error_duplicate_key)
        × (table_find_record (table_update_record env t id (some values)).1 id
            ≡ some (record old { fields = write_field f (values 0) ∷ g ∷ gs }))
  update_conflict_writes c d ds f g gs old columns hc hd found fields conflict =
      let (taken, written) =
        write_fields_second t id values t.columns old.fields c d ds f g gs columns fields hc hd
          conflict in
      rw (update_conflict env t id values old found (shape_of old found).0 taken) (
        refl,
        rw find_linear (
            ground (
              arith,
              written,
              find_linear t id,
              find_id-replace t.records id id
                  (record old { fields = (write_fields t id values t.columns 0 old.fields).1 })
                  (id_of old found),
            )),
      )
