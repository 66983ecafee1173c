-- ===== src/Table/Frame.antt =====
-- What the operations on records leave alone: the name, the columns and the indexes of the table.
use luminix_experience_platf.Indexes.Laws.{reindex_lem, update_indexes_lem, remove_indexes_lem}
use luminix_experience_platf.Table.{
  write_fields, table_find_record, choose_id, new_record, table_update_record, link_record,
  table_insert_record, table_delete_record,
}
use luminix_experience_platf.Schema.{Field, Table, Env}
use luminix_experience_platf.Base.{
  succ_int, minus_one, Option-cases, ℕ, ℤ, Option, none, some, ◌≡◌, refl, arith, inl, inr,
}

abbrev pub SameSchema : Table → Table → Type 0
SameSchema u t = (u.name ≡ t.name) × (u.columns ≡ t.columns) × (u.index_manager ≡ t.index_manager)

pub insert-SameSchema :
    (env : Env) (g : ℤ) (t : Table) (values : Option (ℕ → Field))
    → SameSchema (table_insert_record env g t values).table t
unfolding table_insert_record link_record
insert-SameSchema env g t none = (refl, refl, refl)
insert-SameSchema env g t (some values) = ground (
  arith,
  update_indexes_lem t.columns t.index_manager (new_record env t (choose_id g t values).0 values)
      minus_one,
)

pub update-SameSchema :
    (env : Env) (t : Table) (id : ℤ) (values : Option (ℕ → Field))
    → SameSchema (table_update_record env t id values).1 t
unfolding table_update_record
update-SameSchema env t id none = (refl, refl, refl)
update-SameSchema env t id (some values) = elim (Option-cases (table_find_record t id)) [
  | inl missing ↦ ground arith
  | inr (old, found) ↦ ground (
    arith,
    reindex_lem t.columns t.index_manager old.fields (record old {
      fields = (write_fields t id values t.columns 0 old.fields).1;
      timestamp = env.now;
      version = succ_int old.version;
    }),
  )
]

pub delete-SameSchema : (t : Table) (id : ℤ) → SameSchema (table_delete_record t id).1 t
unfolding table_delete_record
delete-SameSchema t id = ground (arith, remove_indexes_lem t.index_manager id)
