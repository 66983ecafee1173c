-- ===== src/Table/Delete.antt =====
-- Deletion from a table.
use luminix_experience_platf.Base.{
  ℤ, eqb_ℤ, none, ◌≡◌, arith, if◌then◌else◌, is_some, Option-cases, inl, inr,
}
use luminix_experience_platf.Schema.{success, error_not_found, Table}
use luminix_experience_platf.Indexes.Laws.{remove_indexes_lem}
use luminix_experience_platf.Table.{field_count, find_id, table_find_record, table_delete_record}
use luminix_experience_platf.Table.Find.{
  find_linear, DistinctIds, find_id-remove, DistinctIds-remove, length-remove_id, All-remove_id,
}
use luminix_experience_platf.Table.Invariant.{IsValid, HasFields}

module _ (t : Table) (id : ℤ) where
  -- `table_delete_record` returns SUCCESS if the id is found, and else ERROR_NOT_FOUND with the
  -- table as it was.
  pub delete_code :
      ((table_delete_record t id).0
        ≡ (if is_some (table_find_record t id) then success else error_not_found))
      × ((table_find_record t id ≡ none) → (table_delete_record t id).1 ≡ t)
  unfolding table_delete_record
  delete_code = (ground (arith, find_linear t id), λ h. ground (arith, find_linear t id))

  -- In a table with distinct ids, the deleted id is found no more, and the search for any other id
  -- returns what it did.
  pub delete-find :
      (j : ℤ)
      → DistinctIds t.records
      → table_find_record (table_delete_record t id).1 j
        ≡ (if eqb_ℤ id j then none else table_find_record t j)
  unfolding table_delete_record
  delete-find j d = ground (
    arith,
    find_linear (table_delete_record t id).1 j,
    find_linear t j,
    find_id-remove t.records id j d,
  )

  -- Deletion keeps a table valid, whatever it returns.
  pub delete-IsValid : IsValid t → IsValid (table_delete_record t id).1
  unfolding table_delete_record
  delete-IsValid v = elim (Option-cases (find_id t.records id)) [
    | inl missing ↦ rw missing v
    | inr (r, found) ↦ rw found (record {
      counted = omega (arith, v.counted, length-remove_id t.records id found);
      bounded = omega (arith, v.bounded);
      distinct = DistinctIds-remove t.records id v.distinct;
      shaped = All-remove_id (HasFields (field_count t)) t.records id v.shaped;
      indexes_fit = rw remove_indexes_lem v.indexes_fit;
    })
  ]
