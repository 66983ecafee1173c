-- ===== src/Utils/Arrays.antt =====
-- src/utils.c: the dynamic array. Its `size` is the number of its elements, and memory is granted.
pub mod Laws
use luminix_experience_platf.Base.{
  get_elem?, length, take, leb, Bytes, ◌*◌, ◌/◌, ◌%◌, ◌^◌, ◌==◌, ℕ, zero, suc, ◌+◌, ◌-◌, ◌≤◌, ◌<◌,
  ℤ, pos, negsuc, Bool, true, false, not, ◌&&◌, ◌||◌, List, [], ◌∷◌, ◌++◌, Option, none, some, ◌≡◌,
  ◌≢◌, ◌↔◌, refl, arith, if◌then◌else◌, inl, inr,
}
use luminix_experience_platf.Schema.{initial_capacity}

pub record DynamicArray : Type 0 where
  pub elements : List Bytes
  pub element_size : ℕ
  pub capacity : ℕ

unfoldable pub create_dynamic_array : ℕ → DynamicArray
create_dynamic_array element_size = record {
  elements = [];
  element_size = element_size;
  capacity = initial_capacity;
}

-- copies `element_size` bytes of the element
unfoldable pub dynamic_array_push : DynamicArray → Option Bytes → DynamicArray
dynamic_array_push array none = array
dynamic_array_push array (some element) = record array {
  elements = array.elements ++ take array.element_size element ∷ [];
  capacity =
      if leb array.capacity (length array.elements) then array.capacity * 2 else array.capacity;
}

unfoldable pub dynamic_array_get : DynamicArray → ℕ → Option Bytes
dynamic_array_get array index =
    if leb (length array.elements) index then none else get_elem? array.elements index
