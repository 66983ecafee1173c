-- ===== src/Indexes/Laws.antt =====
-- Laws of the index manager.
use luminix_experience_platf.Base.{
  ◌+◌, ◌≤◌, ℤ, Bytes, Bool, List, [], ◌∷◌, ◌++◌, map, none, some, ◌≡◌, refl, ap, arith, length,
  length-append, is_some, if◌then◌else◌,
}
use luminix_experience_platf.Schema.{Column, Record, Field, Index, IndexManager, index_count}
use luminix_experience_platf.Indexes.{
  find_index, add_index_to_manager, remove_index, index_update_simple, index_insert_simple,
  index_delete_simple, update_index, reindex, update_indexes_for_record, remove_indexes_for_record,
  reindex_record, is_index_of,
}

map-id {ℓ} : {A : Type ℓ} (f : A → A) (xs : List A) → ((x : A) → f x ≡ x) → map f xs ≡ xs
map-id f [] h = refl
map-id f (x ∷ xs) h = λ i. h x i ∷ map-id f xs h i

-- The index operations keep no data, so the loops over the indexes leave the manager as it is.
pub update_indexes_lem :
    (cs : List Column) (m : IndexManager) (r : Record) (old : ℤ)
    → update_indexes_for_record cs m r old ≡ m
unfolding update_indexes_for_record
update_indexes_lem cs m r old = ap (λ is. record m { indexes = is }) (map-id _ m.indexes unchanged)
  where
    unchanged : (x : Index) → update_index cs r old x ≡ x
    unchanged x = unfold index_update_simple index_insert_simple in ground arith

pub remove_indexes_lem : (m : IndexManager) (id : ℤ) → remove_indexes_for_record m id ≡ m
unfolding remove_indexes_for_record index_delete_simple
remove_indexes_lem m id = ap (λ is. record m { indexes = is }) (map-id _ m.indexes (λ x. refl))

pub reindex_lem :
    (cs : List Column) (m : IndexManager) (old : List Field) (r : Record)
    → reindex_record cs m old r ≡ m
unfolding reindex_record index_update_simple
reindex_lem cs m old r = ap (λ is. record m { indexes = is }) (map-id _ m.indexes unchanged)
  where
    unchanged : (x : Index) → reindex cs old r x ≡ x
    unchanged x = ground arith

pub find_index-append :
    (xs : List Index) (x : Index) (t f : Bytes)
    → find_index (xs ++ x ∷ []) t f ≡ (
        if is_some (find_index xs t f)
        then find_index xs t f
        else if is_index_of t f x
        then some x
        else none)
unfolding find_index
find_index-append [] x t f = refl
find_index-append (y ∷ ys) x t f = ground (arith, find_index-append ys x t f)

-- Removing an index shortens the array by one exactly if the index is found.
pub length-remove_index :
    (xs : List Index) (t f : Bytes)
    → length (remove_index xs t f) + (if is_some (find_index xs t f) then 1 else 0) ≡ length xs
unfolding remove_index find_index
length-remove_index [] t f = refl
length-remove_index (x ∷ xs) t f = ground (arith, length-remove_index xs t f)

-- The array never holds more than its capacity.
pub add_index-fits :
    (granted : Bool) (m : IndexManager) (x : Index)
    → index_count m ≤ m.capacity
    → index_count (add_index_to_manager granted m x).1
      ≤ (add_index_to_manager granted m x).1.capacity
unfolding add_index_to_manager
add_index-fits granted m x h = ground (arith, length-append m.indexes (x ∷ []))
