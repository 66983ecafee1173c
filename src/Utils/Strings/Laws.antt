-- ===== src/Utils/Strings/Laws.antt =====
-- src/utils.c: what string_replace, string_split and join_strings return.
use luminix_experience_platf.Base.{
  ◌∙◌, map, append_assoc, append-nil, sym, length, ap, Bytes, ℕ, suc, ◌<◌, false, List, [], ◌∷◌,
  ◌++◌, some, ◌≡◌, refl, arith,
}
use luminix_experience_platf.Parser.{trim_spaces, has_char}
use luminix_experience_platf.Utils.Strings.{
  replace_from, occurrences, split_at, string_split, join_strings,
}

module _ (o : ℕ) (old new : Bytes) (c : ℕ) (cs : Bytes) where
  -- after an occurrence, with the number of its bytes that are still to be passed
  abbrev StepsOver : ℕ → Type 0
  StepsOver k =
      (replace_from (o ∷ old) new 0 (c ∷ cs) ≡ new ++ replace_from (o ∷ old) new k cs)
      × (occurrences (o ∷ old) 0 (c ∷ cs) ≡ suc (occurrences (o ∷ old) k cs))

-- A list of tokens: none is empty, has the delimiter, or begins or ends with white space.
abbrev pub AreTokens : ℕ → List Bytes → Type 0
AreTokens d [] = Unit {0}
AreTokens d (t ∷ ts) =
    (0 < length t) × (has_char t d ≡ false) × (trim_spaces t ≡ t) × AreTokens d ts

split_at-word :
    (d : ℕ) (word t rest : Bytes)
    → has_char t d ≡ false
    → split_at (d ∷ []) word (t ++ rest) ≡ split_at (d ∷ []) (word ++ t) rest
unfolding split_at has_char
split_at-word d word [] rest h = ap (λ w. split_at (d ∷ []) w rest) (sym (append-nil word))
split_at-word d word (c ∷ t) rest h =
    ground (arith, split_at-word d (word ++ c ∷ []) t rest, append_assoc word (c ∷ []) t)

at_end : (d : ℕ) (w : Bytes) → 0 < length w → split_at (d ∷ []) w [] ≡ w ∷ []
unfolding split_at
at_end d w q = ground arith

at_delimiter :
    (d : ℕ) (w rest : Bytes)
    → 0 < length w
    → split_at (d ∷ []) w (d ∷ rest) ≡ w ∷ split_at (d ∷ []) [] rest
unfolding split_at has_char
at_delimiter d w rest q = ground arith

split_at-end :
    (d : ℕ) (t : Bytes) → 0 < length t → has_char t d ≡ false → split_at (d ∷ []) [] t ≡ t ∷ []
unfolding split_at
split_at-end d t p h =
    ap (split_at (d ∷ []) []) (sym (append-nil t)) ∙ split_at-word d [] t [] h ∙ at_end d t p

split_at-delimiter :
    (d : ℕ) (t rest : Bytes)
    → 0 < length t
    → has_char t d ≡ false
    → split_at (d ∷ []) [] (t ++ d ∷ rest) ≡ t ∷ split_at (d ∷ []) [] rest
split_at-delimiter d t rest p h = split_at-word d [] t (d ∷ rest) h ∙ at_delimiter d t rest p

split_at-join_strings :
    (d : ℕ) (t : Bytes) (ts : List Bytes)
    → AreTokens d (t ∷ ts)
    → split_at (d ∷ []) [] (join_strings (t ∷ ts) (d ∷ [])) ≡ t ∷ ts
unfolding join_strings
split_at-join_strings d t [] h = split_at-end d t h.0 h.1
split_at-join_strings d t (u ∷ us) h =
    split_at-delimiter d t (join_strings (u ∷ us) (d ∷ [])) h.0 h.1
    ∙ ap (λ r. t ∷ r) (split_at-join_strings d u us h.3)

trims : (d : ℕ) (ts : List Bytes) → AreTokens d ts → map trim_spaces ts ≡ ts
trims d [] h = refl
trims d (t ∷ ts) h = ground (arith, trims d ts h.3)

-- If no string of a list that is not empty is empty, has the delimiter, or begins or ends with
-- white space, `string_split` of their `join_strings` at a delimiter of one byte gives the list
-- back.
pub string_split-join_strings :
    (d : ℕ) (t : Bytes) (ts : List Bytes)
    → AreTokens d (t ∷ ts)
    → string_split (some (join_strings (t ∷ ts) (d ∷ []))) (some (d ∷ [])) ≡ some (t ∷ ts)
unfolding string_split
string_split-join_strings d t ts h =
    rw (split_at-join_strings d t ts h, string_split) (ap some (trims d (t ∷ ts) h))
