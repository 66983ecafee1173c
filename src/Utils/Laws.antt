-- ===== src/Utils/Laws.antt =====
-- The tests of the ends of a text, and the test of a name with regard to its case.
use luminix_experience_platf.Utils.{
  is_name_char, is_alpha, validate_table_name, to_upper, all_name_chars, string_ends_with,
  string_starts_with,
}
use luminix_experience_platf.Base.{
  map, str_eq_refl, str_eq→eq, ◌∙◌, sym, length-append, is_prefix_append, append_drop, ap, drop,
  take, length, Bytes, ◌==◌, ℕ, zero, suc, ◌+◌, ◌-◌, pos, [], ◌∷◌, ◌++◌, some, ◌≡◌, ◌↔◌, refl,
  arith,
}

drop_exact : (p s : Bytes) (n : ℕ) → n ≡ length p → drop n (p ++ s) ≡ s
drop_exact [] s n h = ap (λ k. drop k s) h
drop_exact (c ∷ p) s zero h = absurd (omega arith)
drop_exact (c ∷ p) s (suc n) h = drop_exact p s n (omega arith)

take-drop : (n : ℕ) (s : Bytes) → take n s ++ drop n s ≡ s
take-drop zero s = refl
take-drop (suc n) [] = refl
take-drop (suc n) (c ∷ s) = ap (λ r. c ∷ r) (take-drop n s)

-- `string_starts_with` returns 1 exactly if the text is the prefix followed by something, and
-- `string_ends_with` exactly if it is something followed by the suffix.
pub string_ends_iff :
    (str affix : Bytes)
    → ((string_starts_with (some str) (some affix) ≡ pos 1)
        ↔ ((rest : Bytes) × (str ≡ affix ++ rest)))
      × ((string_ends_with (some str) (some affix) ≡ pos 1)
          ↔ ((front : Bytes) × (str ≡ front ++ affix)))
unfolding string_starts_with string_ends_with
string_ends_iff str affix =
    let n : ℕ = length str - length affix in
    (
      (
        λ h. (drop (length affix) str, append_drop affix str (ground arith)),
        λ (rest, same).
            rw (same, is_prefix_append affix rest) (ground (arith, length-append affix rest)),
      ),
      (
        λ h. (
          take n str,
          sym (take-drop n str)
              ∙ ap (λ s. take n str ++ s) (str_eq→eq (drop n str) affix (ground arith)),
        ),
        λ (front, same).
            let long : length str ≡ length front + length affix =
              ap (length {A = ℕ}) same ∙ length-append front affix in
            let last : drop n str ≡ affix =
              ap (drop n) same ∙ drop_exact front affix n (omega arith) in
            ground (arith, str_eq_refl affix),
      ),
    )

-- the letters of one case are those of the other
same_kind :
    (a b : ℕ)
    → to_upper a ≡ to_upper b
    → (is_alpha a ≡ is_alpha b) × (is_name_char a ≡ is_name_char b) × ((a == 95) ≡ (b == 95))
same_kind a b h = ground arith

same_chars :
    (as' bs : Bytes)
    → map to_upper as' ≡ map to_upper bs
    → (all_name_chars as' ≡ all_name_chars bs) × (length as' ≡ length bs)
unfolding all_name_chars
same_chars [] [] h = (refl, refl)
same_chars [] (b ∷ bs) h = absurd (cc)
same_chars (a ∷ as') [] h = absurd (cc)
same_chars (a ∷ as') (b ∷ bs) h =
    let first : to_upper a ≡ to_upper b = cc in
    let rest : map to_upper as' ≡ map to_upper bs = cc in
    let kind = same_kind a b first in
    let (chars, count) = same_chars as' bs rest in (rw (kind.1, chars) refl, ap suc count)

-- `validate_table_name` accepts both or neither of two names that differ in case alone.
pub validate_table_name_any_case :
    (a b : Bytes)
    → map to_upper a ≡ map to_upper b
    → validate_table_name (some a) ≡ validate_table_name (some b)
unfolding validate_table_name
validate_table_name_any_case [] [] h = refl
validate_table_name_any_case [] (b ∷ bs) h = absurd (cc)
validate_table_name_any_case (a ∷ as') [] h = absurd (cc)
validate_table_name_any_case (a ∷ as') (b ∷ bs) h =
    let first : to_upper a ≡ to_upper b = cc in
    let rest : map to_upper as' ≡ map to_upper bs = cc in
    let kind = same_kind a b first in
    let (chars, count) = same_chars as' bs rest in
    rw (count, kind.0, kind.2, chars, first, rest) refl
