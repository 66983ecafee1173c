-- ===== src/Table/Accepts.antt =====
-- When an insertion is accepted, said of the columns, the values and the records.
use luminix_experience_platf.Base.{
  ◌∙◌, sym, ap, ℕ, ◌+◌, ◌<◌, ℤ, true, false, ◌&&◌, List, [], ◌∷◌, none, some, ◌≡◌, ◌≢◌, ◌↔◌, refl,
  arith, inl, inr,
}
use luminix_experience_platf.Base.{
  ◌⊎◌, All, eqb_ℤ, minus_one, Bool-cases, Option-cases, ◌<ℤ◌, int_max,
}
use luminix_experience_platf.Schema.{
  success, max_records_per_table, field_type_eq, type_unknown, type_int, type_null, Field, Column,
  Record, Table, Env,
}
use luminix_experience_platf.Table.{
  find_id, table_find_record, null_violation, given_id, choose_id, generate_record_id,
  table_insert_record,
}
use luminix_experience_platf.Table.Find.{find_linear}
use luminix_experience_platf.Table.Insert.{insert-Accepted_iff, generate_fresh}
use luminix_experience_platf.Table.Clashes.{HasId, HasId-find_id, find_id-HasId}

-- no NULL for a column that is not nullable, from number `i` on
abbrev pub NoNulls : (ℕ → Field) → List Column → ℕ → Type 0
NoNulls values [] i = Unit {0}
NoNulls values (c ∷ cs) i =
    (c.constraint.nullable ≡ false → (values i).type ≢ type_null) × NoNulls values cs (i + 1)

-- the value is an `int` for a primary key
abbrev pub IsKey : Column → Field → Type 0
IsKey c f = (c.constraint.primary_key ≡ true) × (f.type ≡ type_int)

-- the first such value, from number `i` on, is `n`
abbrev pub Gives : (ℕ → Field) → List Column → ℕ → ℤ → Type 0
Gives values [] i n = ⊥
Gives values (c ∷ cs) i n =
    (IsKey c (values i) × ((values i).value.int_value ≡ n))
    ⊎ ((¬ IsKey c (values i)) × Gives values cs (i + 1) n)

null_violation-NoNulls :
    (values : ℕ → Field) (cs : List Column) (i : ℕ)
    → null_violation cs i values ≡ false
    → NoNulls values cs i
unfolding null_violation
null_violation-NoNulls values [] i h = tt
null_violation-NoNulls values (c ∷ cs) i h =
    (λ strict e. ground arith, null_violation-NoNulls values cs (i + 1) (ground arith))

NoNulls-null_violation :
    (values : ℕ → Field) (cs : List Column) (i : ℕ)
    → NoNulls values cs i
    → null_violation cs i values ≡ false
unfolding null_violation
NoNulls-null_violation values [] i h = refl
NoNulls-null_violation values (c ∷ cs) i (first, others) =
    let rest = NoNulls-null_violation values cs (i + 1) others in
    elim (Bool-cases (field_type_eq (values i).type type_null)) [
      | inl is_null ↦ elim (Bool-cases c.constraint.nullable) [
        | inl nullable ↦ ground arith
        | inr strict ↦ absurd (first strict (ground arith))
      ]
      | inr typed ↦ ground arith
    ]

is_key :
    (c : Column) (f : Field)
    → (c.constraint.primary_key && field_type_eq f.type type_int) ≡ true
    → IsKey c f
is_key c f h = (ground arith, ground arith)

no-IsKey :
    (c : Column) (f : Field)
    → (c.constraint.primary_key && field_type_eq f.type type_int) ≡ false
    → ¬ IsKey c f
no-IsKey c f h (key, int) = ground arith

Gives-given_id :
    (values : ℕ → Field) (cs : List Column) (i : ℕ) (n : ℤ)
    → Gives values cs i n
    → given_id cs i values ≡ n
unfolding given_id
Gives-given_id values [] i n h = absurd h
Gives-given_id values (c ∷ cs) i n (inl ((key, int), same)) = ground arith
Gives-given_id values (c ∷ cs) i n (inr (other, later)) =
    let rest = Gives-given_id values cs (i + 1) n later in
    elim (Bool-cases (c.constraint.primary_key && field_type_eq (values i).type type_int)) [
      | inl key ↦ absurd (other (is_key c (values i) key))
      | inr free ↦ ground arith
    ]

given_id-Gives :
    (values : ℕ → Field) (cs : List Column) (i : ℕ) (n : ℤ)
    → given_id cs i values ≡ n
    → n ≢ minus_one
    → Gives values cs i n
unfolding given_id
given_id-Gives values [] i n e h = absurd (h (sym e))
given_id-Gives values (c ∷ cs) i n e h =
    elim (Bool-cases (c.constraint.primary_key && field_type_eq (values i).type type_int)) [
      | inl key ↦ inl (is_key c (values i) key, ground arith)
      | inr free ↦
          inr (no-IsKey c (values i) free, given_id-Gives values cs (i + 1) n (ground arith) h)
    ]

missing_id : (rs : List Record) (n : ℤ) → ¬ HasId rs n → find_id rs n ≡ none
missing_id rs n free = elim (Option-cases (find_id rs n)) [
  | inl missing ↦ missing
  | inr (r, found) ↦ absurd (free (find_id-HasId rs n (ground arith)))
]

found_id : (rs : List Record) (n : ℤ) → find_id rs n ≡ none → ¬ HasId rs n
found_id rs n missing has = absurd (ground (arith, HasId-find_id rs n has))

module _ (env : Env) (g : ℤ) (t : Table) (values : ℕ → Field) where
  -- what an insertion needs
  abbrev pub IsAccepted : Type 0
  IsAccepted =
      (t.record_count < max_records_per_table)
      × ((values 0).type ≢ type_unknown)
      × NoNulls values t.columns 0
      × ((n : ℤ) → Gives values t.columns 0 n → n ≢ minus_one → ¬ HasId t.records n)
      × (env.alloc 0 ≡ true)
      × (env.alloc 1 ≡ true)

  given_chosen :
      (n : ℤ) → given_id t.columns 0 values ≡ n → n ≢ minus_one → (choose_id g t values).0 ≡ n
  unfolding choose_id
  given_chosen n e h = ground arith

  generated :
      given_id t.columns 0 values ≡ minus_one
      → (choose_id g t values).0 ≡ (generate_record_id g t).0
  unfolding choose_id
  generated e = ground arith

  chosen_free :
      All (λ r. r.id <ℤ int_max) t.records
      → ((n : ℤ) → Gives values t.columns 0 n → n ≢ minus_one → ¬ HasId t.records n)
      → table_find_record t (choose_id g t values).0 ≡ none
  chosen_free below free =
      let given : ℤ = given_id t.columns 0 values in
      elim (Bool-cases (eqb_ℤ given minus_one)) [
        | inl absent ↦ rw (generated (ground arith)) (generate_fresh g t below)
        | inr chosen ↦
            let other : given ≢ minus_one = λ e. ground arith in
            rw (given_chosen given refl other, find_linear t given)
              (missing_id t.records given
                (free given (given_id-Gives values t.columns 0 given refl other) other))
      ]

  -- If every record of the table has an id below INT_MAX, `table_insert_record` returns SUCCESS
  -- exactly if the table has room, the first value has a type, no value is NULL for a column that
  -- is not nullable, no record has the id that is given, if one is, and both allocations are
  -- granted. The id that is given is the first `int` for a primary key, and -1 stands for none.
  pub insert_succeeds_iff :
      All (λ r. r.id <ℤ int_max) t.records
      → ((table_insert_record env g t (some values)).code ≡ success) ↔ IsAccepted
  insert_succeeds_iff below = (
    λ done.
        let (room, typed, nulls, free, a, b) = (insert-Accepted_iff env g t values).0 done in
        (
          room,
          typed,
          null_violation-NoNulls values t.columns 0 nulls,
          λ n gives other. found_id t.records n (
              sym (find_linear t n)
              ∙ ap (table_find_record t)
                  (sym (given_chosen n (Gives-given_id values t.columns 0 n gives) other))
              ∙ free),
          a,
          b,
        ),
    λ (room, typed, nulls, free, a, b). (insert-Accepted_iff env g t values).1 (
      room,
      typed,
      NoNulls-null_violation values t.columns 0 nulls,
      chosen_free below free,
      a,
      b,
    ),
  )
