-- ===== src/Database/Records/Batches.antt =====
-- What a batch of insertions leaves, when all rows go in and when one fails.
use luminix_experience_platf.Table.Frame.{insert-SameSchema, SameSchema}
use luminix_experience_platf.Table.Invariant.{IsValid}
use luminix_experience_platf.Table.Insert.{insert_failure_keeps, insert-IsValid, insert-find}
use luminix_experience_platf.Database.Records.{Batch, batch_rows, stored_id}
use luminix_experience_platf.Table.{Inserted, table_find_record, link_record, table_insert_record}
use luminix_experience_platf.Schema.{success, ErrorCode, is_success, Field, Table, Env}
use luminix_experience_platf.Base.{
  ◌∙◌, length-append, if_elim, All-append, length, Bool-cases, is_some, All, ℕ, zero, suc, ◌+◌, ◌<◌,
  ℤ, true, List, [], ◌∷◌, ◌++◌, Option, none, some, ◌≡◌, ◌≢◌, refl, arith, if◌then◌else◌, inl, inr,
}

-- the search for each of these ids finds a record
abbrev pub AllFound : Table → List ℤ → Type 0
AllFound t = All (λ id. is_some (table_find_record t id) ≡ true)

module _ (env : Env) (g : ℤ) (t : Table) (values : Option (ℕ → Field)) where
  -- an insertion counts one record if it succeeds, and none if not
  insert_count : (table_insert_record env g t values).table.record_count ≡ (
      if is_success (table_insert_record env g t values).code
      then t.record_count + 1
      else t.record_count)
  unfolding table_insert_record link_record
  insert_count = insert_count_of values
    where
      insert_count_of :
          (vs : Option (ℕ → Field))
          → (table_insert_record env g t vs).table.record_count ≡ (
              if is_success (table_insert_record env g t vs).code
              then t.record_count + 1
              else t.record_count)
      insert_count_of none = refl
      insert_count_of (some vs) = ground arith

IsValid-insert :
    (env : Env) (g : ℤ) (t : Table) (values : Option (ℕ → Field))
    → IsValid t
    → IsValid (table_insert_record env g t values).table
IsValid-insert env g t none v = unfold table_insert_record in v
IsValid-insert env g t (some vs) v = insert-IsValid env g t vs v

pub code_success : (c : ErrorCode) → is_success c ≡ true → c ≡ success
code_success success h = refl
code_success _ h = absurd (cc)

insert_found_stays :
    (env : Env) (g : ℤ) (t : Table) (values : Option (ℕ → Field)) (j : ℤ)
    → is_some (table_find_record t j) ≡ true
    → is_some (table_find_record (table_insert_record env g t values).table j) ≡ true
insert_found_stays env g t none j h = unfold table_insert_record in h
insert_found_stays env g t (some vs) j h =
    elim (Bool-cases (is_success (table_insert_record env g t (some vs)).code)) [
      | inl done ↦
          let (id, stored, fresh, after) = insert-find env g t vs (code_success _ done) in
          ground (arith, after j)
      | inr failed ↦ rw (insert_failure_keeps env g t vs (λ e. cc)).0 h
    ]

insert_found_new :
    (env : Env) (g : ℤ) (t : Table) (values : Option (ℕ → Field))
    → is_success (table_insert_record env g t values).code ≡ true
    → is_some (
        table_find_record
          (table_insert_record env g t values).table
          (stored_id (table_insert_record env g t values).out_id))
      ≡ true
insert_found_new env g t none done = absurd (unfold table_insert_record in cc)
insert_found_new env g t (some vs) done =
    let (id, stored, fresh, after) = insert-find env g t vs (code_success _ done) in
    rw stored (ground (arith, after id))

AllFound-insert :
    (env : Env) (g : ℤ) (t : Table) (values : Option (ℕ → Field)) (ids : List ℤ)
    → AllFound t ids
    → AllFound (table_insert_record env g t values).table ids
AllFound-insert env g t values [] h = tt
AllFound-insert env g t values (id ∷ ids) h =
    (insert_found_stays env g t values id h.0, AllFound-insert env g t values ids h.1)

AllFound-append_one :
    (t : Table) (ids : List ℤ) (id : ℤ)
    → AllFound t ids
    → is_some (table_find_record t id) ≡ true
    → AllFound t (ids ++ id ∷ [])
AllFound-append_one t ids id h found =
    All-append (λ j. is_some (table_find_record t j) ≡ true) ids (id ∷ []) h (found, tt)

-- What a loop of `n` rounds from the table `t` and the ids so far leaves: a valid table of the same
-- schema, where all inserted ids are found and counted; the code is SUCCESS exactly if all rows
-- went in.
pub record Kept (t : Table) (ids : List ℤ) (n : ℕ) (b : Batch) : Type 0 where
  pub valid : IsValid b.table
  pub same : SameSchema b.table t
  pub found : AllFound b.table b.ids
  pub counted : b.table.record_count + length ids ≡ t.record_count + length b.ids
  pub all_in : b.code ≡ success → length b.ids ≡ length ids + n
  pub some_out : b.code ≢ success → length b.ids < length ids + n

-- one more round at the front
went_in :
    (env : Env) (g : ℤ) (t : Table) (values : Option (ℕ → Field)) (ids : List ℤ) (n : ℕ) {b : Batch}
    → let r : Inserted = table_insert_record env g t values in
      is_success r.code ≡ true
      → SameSchema r.table t
      → Kept r.table (ids ++ stored_id r.out_id ∷ []) n b
      → Kept t ids (suc n) b
went_in env g t values ids n done same k =
    let r : Inserted = table_insert_record env g t values in
    let one_more : r.table.record_count ≡ t.record_count + 1 =
      ground (arith, insert_count env g t values) in
    let longer = length-append ids (stored_id r.out_id ∷ []) in
    record {
      valid = k.valid;
      same = (k.same.0 ∙ same.0, k.same.1 ∙ same.1, k.same.2 ∙ same.2);
      found = k.found;
      counted = omega (arith, k.counted);
      all_in = λ h. omega (arith, k.all_in h);
      some_out = λ h. omega (arith, k.some_out h);
    }

module _ (rounds : ℕ → Env) (rows : ℕ → Option (ℕ → Field)) where
  pub batch_rows-Kept :
      (n i : ℕ) (t : Table) (g : ℤ) (ids : List ℤ)
      → IsValid t
      → AllFound t ids
      → Kept t ids n (batch_rows rounds rows n i t g ids)
  unfolding batch_rows
  batch_rows-Kept zero i t g ids v found = record {
    valid = v;
    same = (refl, refl, refl);
    found = found;
    counted = omega arith;
    all_in = λ _. omega arith;
    some_out = λ h. absurd (h refl);
  }
  batch_rows-Kept (suc n) i t g ids v found =
      let r : Inserted = table_insert_record (rounds i) g t (rows i) in
      let valid : IsValid r.table = IsValid-insert (rounds i) g t (rows i) v in
      let same : SameSchema r.table t = insert-SameSchema (rounds i) g t (rows i) in
      let stays : AllFound r.table ids = AllFound-insert (rounds i) g t (rows i) ids found in
      let ids' : List ℤ = ids ++ stored_id r.out_id ∷ [] in
      let rest : IsValid r.table
          → AllFound r.table ids'
          → Kept r.table ids' n (batch_rows rounds rows n (i + 1) r.table r.global_counter ids') =
        batch_rows-Kept n (i + 1) r.table r.global_counter ids' in
      if_elim (Kept t ids (suc n)) (is_success r.code)
        (λ done. went_in (rounds i) g t (rows i) ids n done same (
          rest valid (
            AllFound-append_one r.table ids (stored_id r.out_id) stays
              (insert_found_new (rounds i) g t (rows i) done))))
        (λ failed. record {
          valid = valid;
          same = same;
          found = stays;
          counted = ground (arith, insert_count (rounds i) g t (rows i));
          all_in = λ h. cc;
          some_out = λ h. omega arith;
        })
