-- ===== src/Table/Clashes.antt =====
-- When an update is refused: what it means that a primary key is given another record's id.
use luminix_experience_platf.Base.{
  ℕ, ◌+◌, ℤ, pos, true, false, not, ◌&&◌, List, [], ◌∷◌, ◌≡◌, ◌≢◌, refl, arith, if◌then◌else◌, inl,
  inr,
}
use luminix_experience_platf.Base.{◌⊎◌, eqb_ℤ, is_some, Bool-cases}
use luminix_experience_platf.Schema.{
  field_type_eq, FieldType, type_unknown, type_int, type_string, type_float, type_double, type_bool,
  type_datetime, type_blob, type_null, Field, Column, Record, Table,
}
use luminix_experience_platf.Table.{find_id, key_conflict}
use luminix_experience_platf.Table.Find.{find_linear}
use luminix_experience_platf.Table.Writes.{key_taken}

-- some record has the id
abbrev pub HasId : List Record → ℤ → Type 0
HasId [] n = ⊥
HasId (r ∷ rs) n = (r.id ≡ n) ⊎ HasId rs n

-- the id that a value stands for: an `int` for itself, any other value for 0
abbrev pub meant_id : FieldType → ℤ → ℤ
meant_id type_int n = n
meant_id type n = pos 0

-- a primary key that is given, not as NULL, the id of a record other than `id`
abbrev pub ClashesAt : List Record → ℤ → Column → Field → Type 0
ClashesAt rs id c f =
    (c.constraint.primary_key ≡ true)
    × (f.type ≢ type_null)
    × (meant_id f.type f.value.int_value ≢ id)
    × HasId rs (meant_id f.type f.value.int_value)

-- some column from number `i` on clashes
abbrev pub Clashes : List Record → ℤ → (ℕ → Field) → List Column → ℕ → Type 0
Clashes rs id values [] i = ⊥
Clashes rs id values (c ∷ cs) i = ClashesAt rs id c (values i) ⊎ Clashes rs id values cs (i + 1)

pub HasId-find_id : (rs : List Record) (n : ℤ) → HasId rs n → is_some (find_id rs n) ≡ true
unfolding find_id
HasId-find_id [] n h = absurd h
HasId-find_id (r ∷ rs) n (inl e) = ground arith
HasId-find_id (r ∷ rs) n (inr h) = ground (arith, HasId-find_id rs n h)

pub find_id-HasId : (rs : List Record) (n : ℤ) → is_some (find_id rs n) ≡ true → HasId rs n
unfolding find_id
find_id-HasId [] n h = cc
find_id-HasId (r ∷ rs) n h = elim (Bool-cases (eqb_ℤ r.id n)) [
  | inl same ↦ inl (ground arith)
  | inr other ↦ inr (find_id-HasId rs n (ground arith))
]

meant_id_lem :
    (type : FieldType) (n : ℤ)
    → (if field_type_eq type type_int then n else pos 0) ≡ meant_id type n
meant_id_lem type_unknown n = refl
meant_id_lem type_int n = refl
meant_id_lem type_string n = refl
meant_id_lem type_float n = refl
meant_id_lem type_double n = refl
meant_id_lem type_bool n = refl
meant_id_lem type_datetime n = refl
meant_id_lem type_blob n = refl
meant_id_lem type_null n = refl

module _ (t : Table) (id : ℤ) where
  conflict_of :
      (f : Field)
      → key_conflict t id f ≡ (
          not (field_type_eq f.type type_null)
          && (not (eqb_ℤ (meant_id f.type f.value.int_value) id)
              && is_some (find_id t.records (meant_id f.type f.value.int_value))))
  unfolding key_conflict
  conflict_of f =
      rw (← meant_id_lem f.type f.value.int_value) (
        rw (find_linear t (if field_type_eq f.type type_int then f.value.int_value else pos 0))
          refl)

  conflict-ClashesAt :
      (c : Column) (f : Field)
      → c.constraint.primary_key ≡ true
      → key_conflict t id f ≡ true
      → ClashesAt t.records id c f
  conflict-ClashesAt c f key h =
      let same = conflict_of f in
      (
        key,
        λ e. ground arith,
        λ e. ground arith,
        find_id-HasId t.records (meant_id f.type f.value.int_value) (ground arith),
      )

  ClashesAt-conflict :
      (c : Column) (f : Field) → ClashesAt t.records id c f → key_conflict t id f ≡ true
  ClashesAt-conflict c f (key, typed, other, has) =
      ground (arith, conflict_of f, HasId-find_id t.records (meant_id f.type f.value.int_value) has)

  pub key_taken-Clashes :
      (values : ℕ → Field) (cs : List Column) (i : ℕ)
      → key_taken t id values cs i ≡ true
      → Clashes t.records id values cs i
  key_taken-Clashes values [] i h = cc
  key_taken-Clashes values (c ∷ cs) i h =
      elim (Bool-cases (c.constraint.primary_key && key_conflict t id (values i))) [
        | inl taken ↦ inl (conflict-ClashesAt c (values i) (ground arith) (ground arith))
        | inr free ↦ inr (key_taken-Clashes values cs (i + 1) (ground arith))
      ]

  pub Clashes-key_taken :
      (values : ℕ → Field) (cs : List Column) (i : ℕ)
      → Clashes t.records id values cs i
      → key_taken t id values cs i ≡ true
  Clashes-key_taken values [] i h = absurd h
  Clashes-key_taken values (c ∷ cs) i (inl at) = ground (arith, ClashesAt-conflict c (values i) at)
  Clashes-key_taken values (c ∷ cs) i (inr later) =
      ground (arith, Clashes-key_taken values cs (i + 1) later)

  pub no_clash :
      (values : ℕ → Field) (cs : List Column) (i : ℕ)
      → ¬ Clashes t.records id values cs i
      → key_taken t id values cs i ≡ false
  no_clash values cs i free = elim (Bool-cases (key_taken t id values cs i)) [
    | inl taken ↦ absurd (free (key_taken-Clashes values cs i taken))
    | inr h ↦ h
  ]
