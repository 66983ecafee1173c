-- ===== src/IndexStore.antt =====
-- src/index.c: an index manager of its own, with indexes that count their entries. The arrays that
-- `index_manager_create` allocates after the manager are granted.
pub mod Laws
use luminix_experience_platf.Indexes.{is_index_of}
use luminix_experience_platf.Schema.{
  success, max_field_chars, max_table_name_chars, error_memory_allocation, error_not_found,
  error_invalid_parameter, IndexType, Record, Index, ErrorCode,
}
use luminix_experience_platf.Base.{
  ltb, take, leb, length, Bytes, ◌*◌, ◌/◌, ◌%◌, ◌^◌, ◌==◌, ℕ, zero, suc, ◌+◌, ◌-◌, ◌≤◌, ◌<◌, ℤ, pos,
  negsuc, Bool, true, false, not, ◌&&◌, ◌||◌, List, [], ◌∷◌, ◌++◌, Option, none, some, ◌≡◌, ◌≢◌,
  ◌↔◌, refl, arith, if◌then◌else◌, inl, inr,
}

-- the names and the type, and `size`
pub record SizedIndex : Type 0 where
  pub index : Index
  pub size : ℕ

-- `index_count` is the length of the list
pub record Manager : Type 0 where
  pub indexes : List SizedIndex
  pub index_capacity : ℕ
  pub max_indexes : ℤ

unfoldable pub index_manager_create : Bool → Option Manager
index_manager_create granted =
    if granted
    then some (record { indexes = []; index_capacity = 16; max_indexes = pos 100 })
    else none

unfoldable pub index_manager_create_ex : Bool → ℤ → Option Manager
unfolding index_manager_create
index_manager_create_ex granted max_indexes = elim (index_manager_create granted) [
  | none ↦ none
  | some manager ↦ some (record manager { max_indexes = max_indexes })
]

-- `granted` is the answer of realloc, which is asked only if the array is full
unfoldable pub index_manager_add_index : Bool → Manager → Option SizedIndex → ErrorCode × Manager
index_manager_add_index granted manager none = (error_invalid_parameter, manager)
index_manager_add_index granted manager (some index) =
    if leb manager.index_capacity (length manager.indexes)
    then (if not granted then (error_memory_allocation, manager) else (
      success,
      record manager {
        indexes = manager.indexes ++ index ∷ [];
        index_capacity = if manager.index_capacity == 0 then 4 else manager.index_capacity * 2;
      },
    ))
    else (success, record manager { indexes = manager.indexes ++ index ∷ [] })

-- the first index of the table and the field
unfoldable pub get_sized : List SizedIndex → Bytes → Bytes → Option SizedIndex
get_sized [] table_name field_name = none
get_sized (entry ∷ rest) table_name field_name =
    if is_index_of table_name field_name entry.index
    then some entry
    else get_sized rest table_name field_name

unfoldable pub index_manager_get_index : Manager → Option Bytes → Option Bytes → Option SizedIndex
unfolding get_sized
index_manager_get_index manager (some table_name) (some field_name) =
    get_sized manager.indexes table_name field_name
index_manager_get_index manager _ _ = none

-- the array without the first index of the table and the field, or none if there is none
unfoldable pub drop_sized : List SizedIndex → Bytes → Bytes → Option (List SizedIndex)
drop_sized [] table_name field_name = none
drop_sized (entry ∷ rest) table_name field_name =
    let later = drop_sized rest table_name field_name in
    if is_index_of table_name field_name entry.index
    then some rest
    else elim later [ none ↦ none | some kept ↦ some (entry ∷ kept) ]

unfoldable pub index_manager_remove_index :
    Manager → Option Bytes → Option Bytes → ErrorCode × Manager
unfolding drop_sized
index_manager_remove_index manager (some table_name) (some field_name) =
    elim (drop_sized manager.indexes table_name field_name) [
      | none ↦ (error_not_found, manager)
      | some kept ↦ (success, record manager { indexes = kept })
    ]
index_manager_remove_index manager _ _ = (error_invalid_parameter, manager)

unfoldable pub index_manager_get_count : Option Manager → ℕ
index_manager_get_count none = 0
index_manager_get_count (some manager) = length manager.indexes

unfoldable pub index_create : Bool → Bytes → Bytes → IndexType → Option SizedIndex
index_create granted table_name field_name type =
    if granted
    then some (record {
      index = record {
        table_name = take max_table_name_chars table_name;
        field_name = take max_field_chars field_name;
        type = type;
      };
      size = 0;
    })
    else none

unfoldable pub index_insert : Option SizedIndex → ErrorCode × Option SizedIndex
index_insert none = (error_invalid_parameter, none)
index_insert (some index) = (success, some (record index { size = index.size + 1 }))

unfoldable pub index_search : Option SizedIndex → ℤ → Option Record
index_search index key = none

unfoldable pub index_delete : Option SizedIndex → ErrorCode × Option SizedIndex
index_delete none = (error_invalid_parameter, none)
index_delete (some index) =
    (success, some (if ltb 0 index.size then record index { size = index.size - 1 } else index))
