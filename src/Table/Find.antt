-- ===== src/Table/Find.antt =====
-- What `table_find_record` finds, before and after each change of the list of records.
use luminix_experience_platf.Base.{
  suc, ℤ, eqb_ℤ, Bool, ◌&&◌, List, [], ◌∷◌, none, some, ◌≡◌, refl, arith, if◌then◌else◌, length,
  is_some, get_or, All, Bool-cases, inl, inr,
}
use mathlib.Core.Path.{subst}
use luminix_experience_platf.Schema.{Record, Index, Table, no_column}
use luminix_experience_platf.Indexes.{index_search_simple}
use luminix_experience_platf.Table.{
  search_indexes, find_id, table_find_record, replace_id, remove_id,
}

search_indexes_lem : (b : Bool) (is : List Index) (id : ℤ) → search_indexes b is id ≡ none
unfolding search_indexes index_search_simple
search_indexes_lem b [] id = refl
search_indexes_lem b (x ∷ xs) id = ground (arith, search_indexes_lem b xs id)

-- Whatever indexes a table has, `table_find_record` returns what the linear search alone finds:
-- the first record of that id, or NULL.
pub find_linear : (t : Table) (id : ℤ) → table_find_record t id ≡ find_id t.records id
unfolding table_find_record
find_linear t id =
    let key : Bool = (get_or t.columns 0 no_column).constraint.primary_key in
    rw (table_find_record, search_indexes_lem key t.index_manager.indexes id)

-- no two records share an id
abbrev pub DistinctIds : List Record → Type 0
DistinctIds [] = Unit
DistinctIds (r ∷ rs) = (find_id rs r.id ≡ none) × DistinctIds rs

pub id-find_id : (rs : List Record) (id : ℤ) {r : Record} → find_id rs id ≡ some r → r.id ≡ id
unfolding find_id
id-find_id [] id h = cc
id-find_id (x ∷ xs) id {r} h = ground (arith, id-find_id xs id {r = r})

pub find_id-remove :
    (rs : List Record) (id j : ℤ)
    → DistinctIds rs
    → find_id (remove_id rs id) j ≡ (if eqb_ℤ id j then none else find_id rs j)
unfolding find_id remove_id
find_id-remove [] id j h = ground arith
find_id-remove (r ∷ rs) id j h = ground (arith, find_id-remove rs id j)

pub find_id-replace :
    (rs : List Record) (id j : ℤ) (new : Record)
    → new.id ≡ id
    → find_id (replace_id rs id new) j
      ≡ (if eqb_ℤ id j && is_some (find_id rs id) then some new else find_id rs j)
unfolding find_id replace_id
find_id-replace [] id j new e = ground arith
find_id-replace (r ∷ rs) id j new e = ground (arith, find_id-replace rs id j new e)

pub DistinctIds-remove :
    (rs : List Record) (id : ℤ) → DistinctIds rs → DistinctIds (remove_id rs id)
unfolding remove_id find_id
DistinctIds-remove [] id h = tt
DistinctIds-remove (r ∷ rs) id h =
    ground (arith, DistinctIds-remove rs id, find_id-remove rs id r.id)

pub DistinctIds-replace :
    (rs : List Record) (id : ℤ) (new : Record)
    → new.id ≡ id
    → DistinctIds rs
    → DistinctIds (replace_id rs id new)
unfolding replace_id find_id
DistinctIds-replace [] id new e h = tt
DistinctIds-replace (r ∷ rs) id new e h =
    ground (arith, DistinctIds-replace rs id new e, find_id-replace rs id r.id new e)

pub length-remove_id :
    (rs : List Record) (id : ℤ) {r : Record}
    → find_id rs id ≡ some r
    → suc (length (remove_id rs id)) ≡ length rs
unfolding remove_id find_id
length-remove_id [] id h = cc
length-remove_id (x ∷ xs) id {r} h = ground (arith, length-remove_id xs id {r = r})

pub length-replace_id :
    (rs : List Record) (id : ℤ) (new : Record) → length (replace_id rs id new) ≡ length rs
unfolding replace_id
length-replace_id [] id new = refl
length-replace_id (x ∷ xs) id new = ground (arith, length-replace_id xs id new)

module _ (P : Record → Type 0) where
  pub All-remove_id : (rs : List Record) (id : ℤ) → All P rs → All P (remove_id rs id)
  unfolding remove_id
  All-remove_id [] id h = tt
  All-remove_id (r ∷ rs) id h = ground (arith, All-remove_id rs id)

  pub All-replace_id :
      (rs : List Record) (id : ℤ) (new : Record) → P new → All P rs → All P (replace_id rs id new)
  unfolding replace_id
  All-replace_id [] id new p h = tt
  All-replace_id (r ∷ rs) id new p h = ground (arith, All-replace_id rs id new p)

  pub All-find_id :
      (rs : List Record) (id : ℤ) {r : Record} → find_id rs id ≡ some r → All P rs → P r
  unfolding find_id
  All-find_id [] id e h = cc
  All-find_id (x ∷ xs) id {r} e h = elim (Bool-cases (eqb_ℤ x.id id)) [
    | inl same ↦ let found : x ≡ r = ground arith in subst P found h.0
    | inr other ↦ let later : find_id xs id ≡ some r = ground arith in All-find_id xs id later h.1
  ]
