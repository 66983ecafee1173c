-- ===== src/Utils/Arrays/Laws.antt =====
-- src/utils.c: the dynamic array after a push.
use luminix_experience_platf.Base.{
  take_all, length-append, take, get_elem?, length, Bytes, ℕ, zero, suc, ◌≤◌, ◌<◌, List, [], ◌∷◌,
  ◌++◌, some, ◌≡◌, refl, arith,
}
use luminix_experience_platf.Utils.Arrays.{DynamicArray, dynamic_array_push, dynamic_array_get}

get_elem?-append_left :
    (xs : List Bytes) (y : Bytes) (i : ℕ)
    → i < length xs
    → get_elem? (xs ++ y ∷ []) i ≡ get_elem? xs i
get_elem?-append_left [] y i h = absurd (omega arith)
get_elem?-append_left (x ∷ xs) y zero h = refl
get_elem?-append_left (x ∷ xs) y (suc i) h = get_elem?-append_left xs y i (omega arith)

get_elem?-append_last :
    (xs : List Bytes) (y : Bytes) (i : ℕ) → i ≡ length xs → get_elem? (xs ++ y ∷ []) i ≡ some y
get_elem?-append_last [] y zero h = refl
get_elem?-append_last [] y (suc i) h = absurd (omega arith)
get_elem?-append_last (x ∷ xs) y zero h = absurd (omega arith)
get_elem?-append_last (x ∷ xs) y (suc i) h = get_elem?-append_last xs y i (omega arith)

-- An array that has room for its elements and a capacity that is not 0 has both after a push, the
-- new element is the last, and the others stay.
pub dynamic_array_get-dynamic_array_push :
    (array : DynamicArray) (element : Bytes)
    → length array.elements ≤ array.capacity
    → 0 < array.capacity
    → length element ≡ array.element_size
    → let pushed : DynamicArray = dynamic_array_push array (some element) in
      (length pushed.elements ≤ pushed.capacity)
      × (0 < pushed.capacity)
      × (dynamic_array_get pushed (length array.elements) ≡ some element)
      × ((i : ℕ)
          → i < length array.elements
          → dynamic_array_get pushed i ≡ dynamic_array_get array i)
unfolding dynamic_array_push dynamic_array_get
dynamic_array_get-dynamic_array_push array element room p same =
    let n : ℕ = length array.elements in
    let kept : Bytes = take array.element_size element in
    (
      ground (arith, length-append array.elements (kept ∷ [])),
      ground arith,
      ground (
        arith,
        length-append array.elements (kept ∷ []),
        get_elem?-append_last array.elements kept n,
        take_all array.element_size element,
      ),
      λ i h. ground (
        arith,
        length-append array.elements (kept ∷ []),
        get_elem?-append_left array.elements kept i,
      ),
    )
