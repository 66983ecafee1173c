-- ===== src/Table/Insert.antt =====
-- Insertion into a table.
use luminix_experience_platf.Base.{
  ℕ, suc, ◌+◌, ◌<◌, ℤ, pos, int_max, succ_int, eqb_ℤ, ltb_ℤ, ◌<ℤ◌, negsuc, zero, minus_one, true,
  false, List, [], ◌∷◌, none, some, ◌≡◌, ◌≢◌, ◌↔◌, refl, arith, if◌then◌else◌, length, All,
  Bool-cases, inl, inr,
}
use luminix_experience_platf.Schema.{
  success, is_success, error_duplicate_key, type_unknown, Field, Column, Record, Table, Env,
  max_records_per_table,
}
use luminix_experience_platf.Indexes.Laws.{update_indexes_lem}
use luminix_experience_platf.Table.{
  field_count, max_record_id, generate_record_id, find_id, table_find_record, null_violation,
  given_id, choose_id, copy_fields, new_record, link_record, table_insert_record,
}
use luminix_experience_platf.Table.Find.{find_linear}
use luminix_experience_platf.Table.Invariant.{IsValid, HasFields}

-- the conditions under which the code goes past its early returns
abbrev pub Accepted : Env → ℤ → Table → (ℕ → Field) → Type 0
Accepted env g t values =
    (t.record_count < max_records_per_table)
    × ((values 0).type ≢ type_unknown)
    × (null_violation t.columns 0 values ≡ false)
    × (table_find_record t (choose_id g t values).0 ≡ none)
    × (env.alloc 0 ≡ true)
    × (env.alloc 1 ≡ true)

link-find :
    (t : Table) (r : Record) (j : ℤ)
    → table_find_record (link_record t r) j
      ≡ (if eqb_ℤ r.id j then some r else table_find_record t j)
unfolding link_record find_id
link-find t r j = ground (arith, find_linear (link_record t r) j, find_linear t j)

copy_fields-length :
    (cs : List Column) (i : ℕ) (values : ℕ → Field) → length (copy_fields cs i values) ≡ length cs
unfolding copy_fields
copy_fields-length [] i values = refl
copy_fields-length (c ∷ cs) i values = omega (arith, copy_fields-length cs (i + 1) values)

link-IsValid :
    (t : Table) (r : Record)
    → IsValid t
    → t.record_count < max_records_per_table
    → find_id t.records r.id ≡ none
    → HasFields (field_count t) r
    → IsValid (link_record t r)
unfolding link_record
link-IsValid t r v room fresh shape = record {
  counted = omega (arith, v.counted);
  bounded = omega arith;
  distinct = (fresh, v.distinct);
  shaped = (shape, v.shaped);
  indexes_fit = rw update_indexes_lem v.indexes_fit;
}

module _ (env : Env) (g : ℤ) (t : Table) (values : ℕ → Field) where
  -- the guards of the code
  pub insert-Accepted_iff :
      ((table_insert_record env g t (some values)).code ≡ success) ↔ Accepted env g t values
  unfolding table_insert_record
  insert-Accepted_iff = (λ h. ground arith, λ h. ground arith)

  -- An insertion that does not return SUCCESS leaves the table as it was and stores no id.
  pub insert_failure_keeps :
      (table_insert_record env g t (some values)).code ≢ success
      → ((table_insert_record env g t (some values)).table ≡ t)
        × ((table_insert_record env g t (some values)).out_id ≡ none)
  unfolding table_insert_record
  insert_failure_keeps h = ground arith

  pub inserted :
      (table_insert_record env g t (some values)).code ≡ success
      → ((table_insert_record env g t (some values)).table
          ≡ link_record t (new_record env t (choose_id g t values).0 values))
        × ((table_insert_record env g t (some values)).out_id ≡ some (choose_id g t values).0)
  unfolding table_insert_record
  inserted h = ground arith

  -- After SUCCESS the id that is stored was not taken before, the search for it returns the new
  -- record, and the search for any other id returns what it did.
  pub insert-find :
      (table_insert_record env g t (some values)).code ≡ success
      → (id : ℤ) × ((table_insert_record env g t (some values)).out_id ≡ some id)
        × (table_find_record t id ≡ none)
        × ((j : ℤ)
            → table_find_record (table_insert_record env g t (some values)).table j
              ≡ (if eqb_ℤ id j then some (new_record env t id values) else table_find_record t j))
  insert-find h =
      let id : ℤ = (choose_id g t values).0 in
      let accepted : Accepted env g t values = insert-Accepted_iff.0 h in
      let (linked, stored) = inserted h in
      (
        id,
        stored,
        accepted.3,
        λ j. rw linked (unfold new_record in link-find t (new_record env t id values) j),
      )

  -- Insertion keeps a table valid, whatever it returns.
  pub insert-IsValid : IsValid t → IsValid (table_insert_record env g t (some values)).table
  unfolding new_record choose_id
  insert-IsValid v =
      elim (Bool-cases (is_success (table_insert_record env g t (some values)).code)) [
        | inl done ↦
            let h : (table_insert_record env g t (some values)).code ≡ success = ground arith in
            let accepted : Accepted env g t values = insert-Accepted_iff.0 h in
            rw (inserted h).0 (
              link-IsValid t _ v accepted.0 (rw (← find_linear t _) accepted.3)
                (copy_fields-length t.columns 0 values, refl))
        | inr failed ↦ rw (insert_failure_keeps (ground arith)).0 v
      ]

find_id_above : (rs : List Record) (j : ℤ) → All (λ r. r.id <ℤ j) rs → find_id rs j ≡ none
unfolding find_id
find_id_above [] j h = refl
find_id_above (r ∷ rs) j h = ground (arith, find_id_above rs j)

-- what lies above the maximum lies above every id
above_max :
    (rs : List Record) (m j : ℤ) → max_record_id rs m <ℤ j → All (λ r. r.id <ℤ j) rs × (m <ℤ j)
unfolding max_record_id
above_max [] m j h = (tt, h)
above_max (r ∷ rs) m j h = ground (arith, above_max rs (if ltb_ℤ m r.id then r.id else m) j)

max_record_id-lt :
    (rs : List Record) (m b : ℤ) → m <ℤ b → All (λ r. r.id <ℤ b) rs → max_record_id rs m <ℤ b
unfolding max_record_id
max_record_id-lt [] m b h hs = h
max_record_id-lt (r ∷ rs) m b h hs =
    ground (arith, max_record_id-lt rs (if ltb_ℤ m r.id then r.id else m) b)

succ_int-gt : (m : ℤ) → m <ℤ int_max → m <ℤ succ_int m
succ_int-gt (pos n) h = ground arith
succ_int-gt (negsuc zero) h = omega arith
succ_int-gt (negsuc (suc n)) h = omega arith

module _ (g : ℤ) (t : Table) (below : All (λ r. r.id <ℤ int_max) t.records) where
  generate-gt : max_record_id t.records (pos 0) <ℤ (generate_record_id g t).0
  unfolding generate_record_id
  generate-gt =
      let m : ℤ = max_record_id t.records (pos 0) in
      let bounded : m <ℤ int_max = max_record_id-lt t.records (pos 0) int_max (omega arith) below in
      ground (arith, succ_int-gt m bounded)

  -- A generated id is no record's id, as long as no record has the id INT_MAX.
  pub generate_fresh : table_find_record t (generate_record_id g t).0 ≡ none
  generate_fresh =
      rw find_linear (find_id_above t.records _ (above_max t.records (pos 0) _ generate-gt).0)

  -- If every record of the table has an id below INT_MAX, an insertion that is given no id never
  -- fails for a duplicate one.
  pub insert_generated_never_duplicate :
      (env : Env) (values : ℕ → Field)
      → given_id t.columns 0 values ≡ minus_one
      → (table_insert_record env g t (some values)).code ≢ error_duplicate_key
  unfolding table_insert_record choose_id
  insert_generated_never_duplicate env values h e = ground (arith, generate_fresh)
