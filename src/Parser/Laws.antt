-- ===== src/Parser/Laws.antt =====
-- The texts that the functions of src/parser.c return.
use luminix_experience_platf.Database.Maintenance.{QueryType}
use luminix_experience_platf.Parser.{
  white, query_select, parse_statement, lower, has_char, find_sub, trim_spaces, trim_end,
  take_until, skip_spaces, extract_token,
}
use luminix_experience_platf.Base.{
  is_prefix, codes, drop, ◌∙◌, length, is_space, if_elim, ap, Option-cases, All, Bytes, ◌==◌, ℕ,
  ◌+◌, Bool, true, false, not, ◌&&◌, List, [], ◌∷◌, ◌++◌, Option, none, some, ◌≡◌, ◌≢◌, refl, arith,
  inl, inr,
}

abbrev pub starts_clean : Bytes → Bool
starts_clean [] = true
starts_clean (c ∷ cs) = not (is_space c)

abbrev pub ends_clean : Bytes → Bool
ends_clean [] = true
ends_clean (c ∷ []) = not (is_space c)
ends_clean (c ∷ d ∷ cs) = ends_clean (d ∷ cs)

skip_starts : (s : Bytes) → starts_clean (skip_spaces s) ≡ true
unfolding skip_spaces
skip_starts [] = refl
skip_starts (c ∷ cs) = ground (arith, skip_starts cs)

trim_end_starts : (s : Bytes) → starts_clean s ≡ true → starts_clean (trim_end s) ≡ true
unfolding trim_end
trim_end_starts [] h = refl
trim_end_starts (c ∷ cs) h = ground arith

ends_cons :
    (c : ℕ) (s : Bytes)
    → ends_clean s ≡ true
    → is_space c && length s == 0 ≡ false
    → ends_clean (c ∷ s) ≡ true
ends_cons c [] h k = ground arith
ends_cons c (d ∷ s) h k = h

trim_end_ends : (s : Bytes) → ends_clean (trim_end s) ≡ true
unfolding trim_end
trim_end_ends [] = refl
trim_end_ends (c ∷ cs) =
    if_elim (λ r. ends_clean r ≡ true) (is_space c && length (trim_end cs) == 0) (λ blank. refl)
      (λ kept. ends_cons c (trim_end cs) (trim_end_ends cs) kept)

skip_clean : (s : Bytes) → starts_clean s ≡ true → skip_spaces s ≡ s
unfolding skip_spaces
skip_clean [] h = refl
skip_clean (c ∷ cs) h = ground arith

trim_end_keep : (c d : ℕ) (cs ds : Bytes) → trim_end cs ≡ d ∷ ds → trim_end (c ∷ cs) ≡ c ∷ d ∷ ds
unfolding trim_end
trim_end_keep c d cs ds h = rw (h, trim_end) (ground arith)

trim_end_clean : (s : Bytes) → ends_clean s ≡ true → trim_end s ≡ s
unfolding trim_end
trim_end_clean [] h = refl
trim_end_clean (c ∷ []) h = ground arith
trim_end_clean (c ∷ d ∷ cs) h = trim_end_keep c d (d ∷ cs) cs (trim_end_clean (d ∷ cs) h)

-- A trimmed text neither begins nor ends with white space, and trimming it again changes nothing.
pub trim_spaces_lem :
    (s : Bytes)
    → (starts_clean (trim_spaces s) ≡ true)
      × (ends_clean (trim_spaces s) ≡ true)
      × (trim_spaces (trim_spaces s) ≡ trim_spaces s)
unfolding trim_spaces
trim_spaces_lem s =
    let starts = trim_end_starts (skip_spaces s) (skip_starts s) in
    let ends = trim_end_ends (skip_spaces s) in
    (
      starts,
      ends,
      ap trim_end (skip_clean (trim_end (skip_spaces s)) starts) ∙ trim_end_clean _ ends,
    )

-- no byte of the text is among `ends`
abbrev pub Without : Bytes → Bytes → Type 0
Without ends = All (λ c. has_char ends c ≡ false)

take_until-Without : (ends s : Bytes) → Without ends (take_until ends s)
unfolding take_until
take_until-Without ends [] = tt
take_until-Without ends (c ∷ cs) = ground (arith, take_until-Without ends cs)

skip-Without : (ends s : Bytes) → Without ends s → Without ends (skip_spaces s)
unfolding skip_spaces
skip-Without ends [] h = tt
skip-Without ends (c ∷ cs) h = ground (arith, skip-Without ends cs)

trim_end-Without : (ends s : Bytes) → Without ends s → Without ends (trim_end s)
unfolding trim_end
trim_end-Without ends [] h = tt
trim_end-Without ends (c ∷ cs) h = ground (arith, trim_end-Without ends cs)

-- what `extract_token` returns if the keyword is found at `n`
extract_at :
    (str start_keyword ends : Bytes) (n : ℕ)
    → find_sub (lower str) (lower start_keyword) ≡ some n
    → extract_token str start_keyword ends
      ≡ some (trim_spaces (take_until ends (skip_spaces (drop (n + length start_keyword) str))))
unfolding extract_token
extract_at str start_keyword ends n h = rw (h, extract_token) refl

extract_none :
    (str start_keyword ends : Bytes)
    → find_sub (lower str) (lower start_keyword) ≡ none
    → extract_token str start_keyword ends ≡ none
unfolding extract_token
extract_none str start_keyword ends h = rw (h, extract_token) refl

-- A token that `extract_token` returns has none of its end characters, and neither begins nor ends
-- with white space.
pub extract_token_lem :
    (str start_keyword ends : Bytes) {token : Bytes}
    → extract_token str start_keyword ends ≡ some token
    → Without ends token × (starts_clean token ≡ true) × (ends_clean token ≡ true)
extract_token_lem str start_keyword ends {token} h =
    elim (Option-cases (find_sub (lower str) (lower start_keyword))) [
      | inl absent ↦ absurd (ground (arith, extract_none str start_keyword ends absent))
      | inr (n, present) ↦
          let s : Bytes = take_until ends (skip_spaces (drop (n + length start_keyword) str)) in
          let same : token ≡ trim_spaces s =
            ground (arith, extract_at str start_keyword ends n present) in
          let clean = trim_spaces_lem s in
          rw same (
            unfold trim_spaces in
                trim_end-Without ends (skip_spaces s)
                  (skip-Without ends s (take_until-Without ends _)),
            clean.0,
            clean.1,
          )
    ]

letters :
    (s : Bytes)
    → All (λ c. has_char (white ++ codes "(Ww") c ≡ false) s
    → All (λ c. (c ≢ 87) × (c ≢ 119)) s
unfolding has_char
letters [] h = tt
letters (c ∷ s) h = (
  (
    λ e. false≢true (ap (has_char (white ++ codes "(Ww")) e) h.0,
    λ e. false≢true (ap (has_char (white ++ codes "(Ww")) e) h.0,
  ),
  letters s h.1,
)
  where
    false≢true : {b : Bool} → b ≡ true → b ≡ false → ⊥
    false≢true p q = cc

statement_table :
    (query : Bytes) {table : Bytes}
    → (parse_statement query).0 ≡ query_select
    → (parse_statement query).1 ≡ some table
    → extract_token query (codes "from") (white ++ codes "(Ww") ≡ some table
unfolding parse_statement
statement_table query {table} =
    let q : Bytes = lower query in
    let P : QueryType × Option Bytes × List Bytes → Type 0 = λ r.
      r.0 ≡ query_select
      → r.1 ≡ some table
      → extract_token query (codes "from") (white ++ codes "(Ww") ≡ some table in
    if_elim P (is_prefix (codes "select") q) (λ is. λ h k. k)
      (λ _.
        if_elim P (is_prefix (codes "insert") q) (λ is. λ h k. cc)
          (λ _.
            if_elim P (is_prefix (codes "update") q) (λ is. λ h k. cc)
              (λ _.
                if_elim P (is_prefix (codes "delete") q) (λ is. λ h k. cc)
                  (λ _.
                    if_elim P (is_prefix (codes "create") q) (λ is. λ h k. cc)
                      (λ _.
                        if_elim P (is_prefix (codes "drop") q) (λ is. λ h k. cc)
                          (λ _. λ h k. cc))))))

-- If a query is parsed as a SELECT with a table, the name of the table holds no W or w, whatever
-- the query says.
pub select_table_lem :
    (query : Bytes) {table : Bytes}
    → (parse_statement query).0 ≡ query_select
    → (parse_statement query).1 ≡ some table
    → All (λ c. (c ≢ 87) × (c ≢ 119)) table
select_table_lem query {table} h k =
    letters table
      (extract_token_lem query (codes "from") (white ++ codes "(Ww") {token = table}
        (statement_table query h k)).0
