-- ===== src/IndexStore/Laws.antt =====
-- Finding, counting, adding and removing in the manager of src/index.c.
use luminix_experience_platf.Schema.{error_not_found, success, ErrorCode, Index}
use luminix_experience_platf.Indexes.{is_index_of}
use luminix_experience_platf.IndexStore.{
  index_manager_get_count, index_manager_get_index, index_manager_remove_index,
  index_manager_add_index, Manager, SizedIndex, get_sized, drop_sized,
}
use luminix_experience_platf.Base.{
  length-append, str_eq→eq, str_eq, Option-cases, length, is_some, Bytes, ◌+◌, ◌≤◌, Bool, true,
  false, ◌&&◌, List, [], ◌∷◌, ◌++◌, Option, none, some, ◌≡◌, refl, arith, if◌then◌else◌, inl, inr,
}

get_sized-append :
    (es : List SizedIndex) (e : SizedIndex) (t f : Bytes)
    → get_sized (es ++ e ∷ []) t f ≡ (
        if is_some (get_sized es t f)
        then get_sized es t f
        else if is_index_of t f e.index
        then some e
        else none)
unfolding get_sized
get_sized-append [] e t f = refl
get_sized-append (x ∷ xs) e t f = ground (arith, get_sized-append xs e t f)

drop_found :
    (es : List SizedIndex) (t f : Bytes) → is_some (drop_sized es t f) ≡ is_some (get_sized es t f)
unfolding drop_sized get_sized
drop_found [] t f = refl
drop_found (x ∷ xs) t f = ground (arith, drop_found xs t f)

-- the indexes that are left: all, if nothing is dropped
abbrev left_of : List SizedIndex → Option (List SizedIndex) → List SizedIndex
left_of es none = es
left_of es (some kept) = kept

drop_count :
    (es : List SizedIndex) (t f : Bytes)
    → length (left_of es (drop_sized es t f)) + (if is_some (get_sized es t f) then 1 else 0)
      ≡ length es
unfolding drop_sized get_sized
drop_count [] t f = refl
drop_count (x ∷ xs) t f = elim (Option-cases (drop_sized xs t f)) [
  | inl absent ↦ ground (arith, drop_count xs t f, drop_found xs t f)
  | inr (kept, present) ↦ ground (arith, drop_count xs t f, drop_found xs t f)
]

-- an index has one pair of names
other_names :
    (t f t' f' : Bytes) (x : Index)
    → is_index_of t f x ≡ true
    → str_eq t t' && str_eq f f' ≡ false
    → is_index_of t' f' x ≡ false
other_names t f t' f' x h differ =
    ground (arith, str_eq→eq x.table_name t, str_eq→eq x.field_name f)

drop_others :
    (es : List SizedIndex) (t f t' f' : Bytes)
    → str_eq t t' && str_eq f f' ≡ false
    → get_sized (left_of es (drop_sized es t f)) t' f' ≡ get_sized es t' f'
unfolding drop_sized get_sized
drop_others [] t f t' f' differ = refl
drop_others (x ∷ xs) t f t' f' differ = elim (Option-cases (drop_sized xs t f)) [
  | inl absent ↦ ground (arith, drop_others xs t f t' f' differ, other_names t f t' f' x.index)
  | inr (kept, present) ↦
      ground (arith, drop_others xs t f t' f' differ, other_names t f t' f' x.index)
]

module _ (m : Manager) (t f : Bytes) where
  -- `index_manager_remove_index` returns SUCCESS if the index is found and else ERROR_NOT_FOUND;
  -- the count falls by one in the first case and stays in the other, and what is found under any
  -- other pair of names stays.
  pub remove_index_lem :
      let r : ErrorCode × Manager = index_manager_remove_index m (some t) (some f) in
      let found : Bool = is_some (index_manager_get_index m (some t) (some f)) in
      (r.0 ≡ (if found then success else error_not_found))
      × (index_manager_get_count (some r.1) + (if found then 1 else 0)
          ≡ index_manager_get_count (some m))
      × ((t' f' : Bytes)
          → str_eq t t' && str_eq f f' ≡ false
          → index_manager_get_index r.1 (some t') (some f')
            ≡ index_manager_get_index m (some t') (some f'))
  unfolding index_manager_remove_index index_manager_get_index index_manager_get_count
  remove_index_lem = elim (Option-cases (drop_sized m.indexes t f)) [
    | inl absent ↦ (
      ground (arith, drop_found m.indexes t f),
      ground (arith, drop_found m.indexes t f, drop_count m.indexes t f),
      λ t' f' differ. ground (arith, drop_others m.indexes t f t' f' differ),
    )
    | inr (kept, present) ↦ (
      ground (arith, drop_found m.indexes t f),
      ground (arith, drop_found m.indexes t f, drop_count m.indexes t f),
      λ t' f' differ. ground (arith, drop_others m.indexes t f t' f' differ),
    )
  ]

  -- After SUCCESS of `index_manager_add_index` an index that was found is found as before, and else
  -- the new one is found under its own names; there is one index more, and the array is not overrun
  -- if it was not before.
  pub add_index_lem :
      (granted : Bool) (e : SizedIndex)
      → let r : ErrorCode × Manager = index_manager_add_index granted m (some e) in
        r.0 ≡ success
        → (index_manager_get_index r.1 (some t) (some f) ≡ (
            if is_some (index_manager_get_index m (some t) (some f))
            then index_manager_get_index m (some t) (some f)
            else if is_index_of t f e.index
            then some e
            else none))
          × (index_manager_get_count (some r.1) ≡ index_manager_get_count (some m) + 1)
          × (length m.indexes ≤ m.index_capacity → length r.1.indexes ≤ r.1.index_capacity)
  unfolding index_manager_add_index index_manager_get_index index_manager_get_count
  add_index_lem granted e h =
      ground (arith, get_sized-append m.indexes e t f, length-append m.indexes (e ∷ []))
