-- ===== src/Table/Invariant.antt =====
-- The well-formedness of a table, which every operation keeps.
use luminix_experience_platf.Base.{ℕ, ◌≤◌, ◌≡◌, length, All}
use luminix_experience_platf.Schema.{Record, Table, max_records_per_table, index_count}
use luminix_experience_platf.Table.{field_count}
use luminix_experience_platf.Table.Find.{DistinctIds}

-- a record holds one field for each column
abbrev pub HasFields : ℕ → Record → Type 0
HasFields n r = (length r.fields ≡ n) × (r.field_count ≡ n)

pub record IsValid (t : Table) : Type 0 where
  pub counted : t.record_count ≡ length t.records
  pub bounded : t.record_count ≤ max_records_per_table
  pub distinct : DistinctIds t.records
  pub shaped : All (HasFields (field_count t)) t.records
  pub indexes_fit : index_count t.index_manager ≤ t.index_manager.capacity
