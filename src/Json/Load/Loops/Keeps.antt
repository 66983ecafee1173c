-- ===== src/Json/Load/Loops/Keeps.antt =====
-- src/json_io.c: a property of the state that every round of a loop keeps is kept by the loop.
use mathlib.Core.Path.{subst}
use luminix_experience_platf.Base.{if_elim, sym, Bytes, ℕ, zero, suc, none, some}
use luminix_experience_platf.Json.{TokenType, json_parse_token, token_object_end, token_array_end}
use luminix_experience_platf.Json.Skip.{Next, again, finished, refused, comma_or_end}
use luminix_experience_platf.Json.Load.{is_token}
use luminix_experience_platf.Json.Load.Loops.{
  KeyHead, object_ends, bad_key, key_follows, key_head, stopped, parsed, entered, Parsed, members,
  items,
}
use luminix_experience_platf.Json.Load.Loops.Total.{
  by_next, by_outcome, by_key, members_lem, items_lem,
}

module _ {ℓ} {S : Type ℓ} (P : S → Type 0) where
  -- the state that the outcome has, an error's too
  abbrev pub Holds : Parsed S → Type 0
  Holds none = Unit {0}
  Holds (some (stopped code s)) = P s
  Holds (some (parsed s rest)) = P s
  Holds (some (entered s rest)) = P s

  by_next-Holds :
      (loop : S → Bytes → Parsed S) (s : S) (next : Next)
      → P s
      → ((s : S) (rest : Bytes) → P s → Holds (loop s rest))
      → Holds (by_next loop s next)
  by_next-Holds loop s (again rest) h k = k s rest h
  by_next-Holds loop s (finished rest) h k = h
  by_next-Holds loop s (refused rest) h k = h

  by_outcome-Holds :
      (loop : S → Bytes → Parsed S) (close : TokenType) (o : Parsed S)
      → Holds o
      → ((s : S) (rest : Bytes) → P s → Holds (loop s rest))
      → Holds (by_outcome loop close o)
  by_outcome-Holds loop close none h k = tt
  by_outcome-Holds loop close (some (stopped code s)) h k = h
  by_outcome-Holds loop close (some (entered s rest)) h k = k s rest h
  by_outcome-Holds loop close (some (parsed s rest)) h k =
      by_next-Holds loop s (comma_or_end close rest) h k

  module _ (on_key : S → Bytes → Bytes → Parsed S)
      (round : (s : S) (k rest : Bytes) → P s → Holds (on_key s k rest)) where
    by_key-Holds :
        (f : ℕ) (s : S) (h : KeyHead)
        → P s
        → ((s : S) (rest : Bytes) → P s → Holds (members f on_key s rest))
        → Holds (by_key on_key f s h)
    by_key-Holds f s (object_ends rest) p loop = p
    by_key-Holds f s (bad_key rest) p loop = p
    by_key-Holds f s (key_follows k rest) p loop =
        by_outcome-Holds (members f on_key) token_object_end (on_key s k rest) (round s k rest p)
          loop

    pub members-Holds : (f : ℕ) (s : S) (json : Bytes) → P s → Holds (members f on_key s json)
    unfolding members
    members-Holds zero s json p = tt
    members-Holds (suc f) s json p =
        subst Holds (sym (members_lem on_key f s json))
          (by_key-Holds f s (key_head json) p (λ s' rest q. members-Holds f s' rest q))

  module _ (on_object : S → Bytes → Parsed S)
      (round : (s : S) (rest : Bytes) → P s → Holds (on_object s rest)) where
    pub items-Holds : (f : ℕ) (s : S) (json : Bytes) → P s → Holds (items f on_object s json)
    unfolding items
    items-Holds zero s json p = tt
    items-Holds (suc f) s json p = subst Holds (sym (items_lem on_object f s json)) (
        if_elim Holds (is_token (json_parse_token json).0 4) (λ _. p)
          (λ _.
            if_elim Holds (is_token (json_parse_token json).0 1)
              (λ t.
                by_outcome-Holds (items f on_object) token_array_end
                  (on_object s (json_parse_token json).1) (round s (json_parse_token json).1 p)
                  (λ s' rest q. items-Holds f s' rest q))
              (λ _. p)))
