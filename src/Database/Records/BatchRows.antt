-- ===== src/Database/Records/BatchRows.antt =====
-- Which rows a batch of insertions has put in, and which one stopped it.
use mathlib.Core.Path.{subst}
use luminix_experience_platf.Base.{
  if_elim, append_assoc, append-nil, ◌∙◌, sym, ap, ℕ, zero, suc, ◌+◌, ℤ, true, false, List, [], ◌∷◌,
  ◌++◌, Option, none, some, ◌≡◌, ◌≢◌, refl, arith,
}
use luminix_experience_platf.Base.{length}
use luminix_experience_platf.Schema.{success, is_success, Field, Column, Record, Table, Env}
use luminix_experience_platf.Table.{
  Inserted, copy_fields, new_record, link_record, choose_id, table_insert_record,
}
use luminix_experience_platf.Table.Insert.{inserted, insert_failure_keeps}
use luminix_experience_platf.Database.Records.{Batch, batch_rows, stored_id}
use luminix_experience_platf.Database.Records.Batches.{code_success}

-- the fields have the values of the row, and the types of the columns
abbrev pub HoldsRow : List Column → ℕ → (ℕ → Field) → List Field → Type 0
HoldsRow [] i values [] = Unit {0}
HoldsRow [] i values (f ∷ fs) = ⊥
HoldsRow (c ∷ cs) i values [] = ⊥
HoldsRow (c ∷ cs) i values (f ∷ fs) =
    (f.value ≡ (values i).value) × (f.type ≡ c.type) × HoldsRow cs (i + 1) values fs

copy_fields-HoldsRow :
    (cs : List Column) (i : ℕ) (values : ℕ → Field) → HoldsRow cs i values (copy_fields cs i values)
unfolding copy_fields
copy_fields-HoldsRow [] i values = tt
copy_fields-HoldsRow (c ∷ cs) i values = (refl, refl, copy_fields-HoldsRow cs (i + 1) values)

-- a record of that id with the values of the row
abbrev pub IsRow : List Column → Option (ℕ → Field) → ℤ → Record → Type 0
IsRow columns none id r = ⊥
IsRow columns (some values) id r = (r.id ≡ id) × HoldsRow columns 0 values r.fields

-- The records are the old ones after those of the rows from number `i` on, one for each of the ids,
-- the last one first.
abbrev pub Added :
    (ℕ → Option (ℕ → Field)) → List Column → ℕ → List ℤ → List Record → List Record → Type 0
Added rows columns i [] old new = new ≡ old
Added rows columns i (id ∷ ids) old new =
    (r : Record) × IsRow columns (rows i) id r × Added rows columns (i + 1) ids (r ∷ old) new

insert-IsRow :
    (env : Env) (g : ℤ) (t : Table) (values : Option (ℕ → Field))
    → let done : Inserted = table_insert_record env g t values in
      is_success done.code ≡ true
      → (r : Record) × IsRow t.columns values (stored_id done.out_id) r
        × (done.table.columns ≡ t.columns)
        × (done.table.records ≡ r ∷ t.records)
insert-IsRow env g t none done = absurd (unfold table_insert_record in cc)
insert-IsRow env g t (some values) done =
    let id : ℤ = (choose_id g t values).0 in
    let (linked, stored) = inserted env g t values (code_success _ done) in
    (
      new_record env t id values,
      unfold new_record in (ap stored_id (sym stored), copy_fields-HoldsRow t.columns 0 values),
      unfold link_record in ap (λ (u : Table). u.columns) linked,
      unfold link_record in ap (λ (u : Table). u.records) linked,
    )

row_out :
    (env : Env) (g : ℤ) (t : Table) (values : Option (ℕ → Field))
    → is_success (table_insert_record env g t values).code ≡ false
    → (table_insert_record env g t values).table ≡ t
row_out env g t none failed = unfold table_insert_record in refl
row_out env g t (some values) failed = (insert_failure_keeps env g t values (λ e. cc)).0

module _ (rounds : ℕ → Env) (rows : ℕ → Option (ℕ → Field)) where
  -- the row of that number is refused by the table, with that code
  abbrev pub Refused : ℕ → Table → Batch → Type 0
  Refused k u b = (g : ℤ) × ((table_insert_record (rounds k) g u (rows k)).code ≡ b.code)

  -- what a loop from round `i` has done: the rows with new ids are in, and the next is refused
  abbrev pub Ran : ℕ → Table → List ℤ → Batch → Type 0
  Ran i t ids b =
      (new : List ℤ) × (b.ids ≡ ids ++ new)
      × Added rows t.columns i new t.records b.table.records
      × (b.code ≢ success → Refused (i + length new) b.table b)

  one_more :
      (i : ℕ) (t : Table) (g : ℤ) (ids : List ℤ) (b : Batch)
      → let r : Inserted = table_insert_record (rounds i) g t (rows i) in
        is_success r.code ≡ true
        → Ran (i + 1) r.table (ids ++ stored_id r.out_id ∷ []) b
        → Ran i t ids b
  one_more i t g ids b done (new, e, added, refused) =
      let id : ℤ = stored_id (table_insert_record (rounds i) g t (rows i)).out_id in
      let (r, row, columns, records) = insert-IsRow (rounds i) g t (rows i) done in
      (
        id ∷ new,
        e ∙ append_assoc ids (id ∷ []) new,
        (
          r,
          row,
          subst (λ cs. Added rows cs (i + 1) new (r ∷ t.records) b.table.records) columns
              (subst
                (λ old.
                  Added rows (table_insert_record (rounds i) g t (rows i)).table.columns (i + 1) new
                    old b.table.records)
                records added),
        ),
        λ failed. subst (λ k. Refused k b.table b) (step i (length new)) (refused failed),
      )
    where
      step : (i n : ℕ) → i + 1 + n ≡ i + suc n
      step i n = omega arith

  stops :
      (i : ℕ) (t : Table) (g : ℤ) (ids : List ℤ)
      → let r : Inserted = table_insert_record (rounds i) g t (rows i) in
        is_success r.code ≡ false
        → Ran i t ids (record {
          code = r.code;
          table = r.table;
          global_counter = r.global_counter;
          ids = ids;
        })
  stops i t g ids failed =
      let same = row_out (rounds i) g t (rows i) failed in
      (
        [],
        sym (append-nil ids),
        ap (λ (u : Table). u.records) same,
        λ _. (
          g,
          ap (λ u. (table_insert_record (rounds (i + 0)) g u (rows (i + 0))).code) same
              ∙ ap (λ k. (table_insert_record (rounds k) g t (rows k)).code) (plus_zero i),
        ),
      )
    where
      plus_zero : (i : ℕ) → i + 0 ≡ i
      plus_zero i = omega arith

  pub batch_rows-Ran :
      (n i : ℕ) (t : Table) (g : ℤ) (ids : List ℤ)
      → Ran i t ids (batch_rows rounds rows n i t g ids)
  unfolding batch_rows
  batch_rows-Ran zero i t g ids = ([], sym (append-nil ids), refl, λ h. absurd (h refl))
  batch_rows-Ran (suc n) i t g ids =
      let r : Inserted = table_insert_record (rounds i) g t (rows i) in
      let ids' : List ℤ = ids ++ stored_id r.out_id ∷ [] in
      let later = batch_rows-Ran n (i + 1) r.table r.global_counter ids' in
      if_elim (Ran i t ids) (is_success r.code)
        (λ done.
          one_more i t g ids (batch_rows rounds rows n (i + 1) r.table r.global_counter ids') done
            later)
        (λ failed. stops i t g ids failed)
