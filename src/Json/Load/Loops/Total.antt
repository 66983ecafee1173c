-- ===== src/Json/Load/Loops/Total.antt =====
-- src/json_io.c: the loops end, with no more text than they began with, if what they do in a round
-- does.
use mathlib.Core.Path.{subst}
use luminix_experience_platf.Base.{
  if_elim, sym, length, Bytes, ◌*◌, ℕ, zero, suc, ◌+◌, ◌≤◌, ◌<◌, none, some, ◌≡◌, arith,
  if◌then◌else◌,
}
use luminix_experience_platf.Schema.{error_invalid_input}
use luminix_experience_platf.Json.{TokenType, json_parse_token, token_object_end, token_array_end}
use luminix_experience_platf.Json.Lexer.{json_parse_token-advances}
use luminix_experience_platf.Json.Skip.{Next, again, finished, refused, comma_or_end}
use luminix_experience_platf.Json.Skip.Laws.{json_skip_token_value-returns}
use luminix_experience_platf.Json.Load.{is_token}
use luminix_experience_platf.Json.Load.Loops.{
  failure, KeyHead, object_ends, bad_key, key_follows, key_head, stopped, parsed, entered, Parsed,
  members, items, skip_ignoring,
}

module _ {ℓ} {S : Type ℓ} where
  -- it ends, and leaves at most n bytes
  abbrev pub Leaves : ℕ → Parsed S → Type 0
  Leaves n none = ⊥
  Leaves n (some (stopped code s)) = Unit {0}
  Leaves n (some (parsed s rest)) = length rest ≤ n
  Leaves n (some (entered s rest)) = length rest ≤ n

  pub Leaves-mono : (m n : ℕ) (o : Parsed S) → m ≤ n → Leaves m o → Leaves n o
  Leaves-mono m n none le h = h
  Leaves-mono m n (some (stopped code s)) le h = tt
  Leaves-mono m n (some (parsed s rest)) le h = omega arith
  Leaves-mono m n (some (entered s rest)) le h = omega arith

abbrev KeyLeaves : ℕ → KeyHead → Type 0
KeyLeaves n (object_ends rest) = length rest ≤ n
KeyLeaves n (bad_key rest) = length rest ≤ n
KeyLeaves n (key_follows k rest) = length rest < n

key_head-KeyLeaves : (json : Bytes) → KeyLeaves (length json) (key_head json)
unfolding key_head
key_head-KeyLeaves json =
    ground
      (arith, json_parse_token-advances json, json_parse_token-advances (json_parse_token json).1)

abbrev NextLeaves : ℕ → Next → Type 0
NextLeaves n (again rest) = length rest ≤ n
NextLeaves n (finished rest) = length rest ≤ n
NextLeaves n (refused rest) = length rest ≤ n

comma_or_end-NextLeaves :
    (t : TokenType) (json : Bytes) → NextLeaves (length json) (comma_or_end t json)
unfolding comma_or_end
comma_or_end-NextLeaves t json = ground (arith, json_parse_token-advances json)

module _ {ℓ} {S : Type ℓ} where
  -- the rest of a round, with the loop that follows
  abbrev pub by_next : (S → Bytes → Parsed S) → S → Next → Parsed S
  by_next loop s (again rest) = loop s rest
  by_next loop s (finished rest) = some (parsed s rest)
  by_next loop s (refused rest) = some (stopped (failure error_invalid_input) s)

  abbrev pub by_outcome : (S → Bytes → Parsed S) → TokenType → Parsed S → Parsed S
  by_outcome loop close none = none
  by_outcome loop close (some (stopped code s)) = some (stopped code s)
  by_outcome loop close (some (entered s rest)) = loop s rest
  by_outcome loop close (some (parsed s rest)) = by_next loop s (comma_or_end close rest)

  by_next-Leaves :
      (loop : S → Bytes → Parsed S) (s : S) (n m : ℕ) (next : Next)
      → n < m
      → NextLeaves n next
      → ((s : S) (rest : Bytes) → length rest < m → Leaves (length rest) (loop s rest))
      → Leaves m (by_next loop s next)
  by_next-Leaves loop s n m (again rest) lt h k =
      Leaves-mono (length rest) m (loop s rest) (omega arith) (k s rest (omega arith))
  by_next-Leaves loop s n m (finished rest) lt h k = omega arith
  by_next-Leaves loop s n m (refused rest) lt h k = tt

  by_outcome-Leaves :
      (loop : S → Bytes → Parsed S) (close : TokenType) (n m : ℕ) (o : Parsed S)
      → n < m
      → Leaves n o
      → ((s : S) (rest : Bytes) → length rest < m → Leaves (length rest) (loop s rest))
      → Leaves m (by_outcome loop close o)
  by_outcome-Leaves loop close n m none lt h k = h
  by_outcome-Leaves loop close n m (some (stopped code s)) lt h k = tt
  by_outcome-Leaves loop close n m (some (entered s rest)) lt h k =
      Leaves-mono (length rest) m (loop s rest) (omega arith) (k s rest (omega arith))
  by_outcome-Leaves loop close n m (some (parsed s rest)) lt h k =
      by_next-Leaves loop s (length rest) m (comma_or_end close rest) (omega arith)
        (comma_or_end-NextLeaves close rest) k

  module _ (on_key : S → Bytes → Bytes → Parsed S) where
    abbrev pub by_key : ℕ → S → KeyHead → Parsed S
    by_key f s (object_ends rest) = some (parsed s rest)
    by_key f s (bad_key rest) = some (stopped (failure error_invalid_input) s)
    by_key f s (key_follows k rest) =
        by_outcome (members f on_key) token_object_end (on_key s k rest)

    pub members_lem :
        (f : ℕ) (s : S) (json : Bytes) → members (suc f) on_key s json ≡ by_key f s (key_head json)
    unfolding members
    members_lem f s json = ground arith

  module _ (on_key : S → Bytes → Bytes → Parsed S)
      (round : (s : S) (k rest : Bytes) → Leaves (length rest) (on_key s k rest)) where
    by_key-Leaves :
        (f : ℕ) (s : S) (n : ℕ) (h : KeyHead)
        → KeyLeaves n h
        → ((s : S) (rest : Bytes)
            → length rest < n
            → Leaves (length rest) (members f on_key s rest))
        → Leaves n (by_key on_key f s h)
    by_key-Leaves f s n (object_ends rest) h k = h
    by_key-Leaves f s n (bad_key rest) h k = tt
    by_key-Leaves f s n (key_follows k rest) h loop =
        by_outcome-Leaves (members f on_key) token_object_end (length rest) n (on_key s k rest) h
          (round s k rest) loop

    pub members-Leaves :
        (f : ℕ) (s : S) (json : Bytes)
        → length json < f
        → Leaves (length json) (members f on_key s json)
    members-Leaves zero s json h = absurd (omega arith)
    members-Leaves (suc f) s json h =
        subst (Leaves (length json)) (sym (members_lem on_key f s json)) (
          by_key-Leaves f s (length json) (key_head json) (key_head-KeyLeaves json)
            (λ s' rest l. members-Leaves f s' rest (omega arith)))

  module _ (on_object : S → Bytes → Parsed S) where
    pub items_lem :
        (f : ℕ) (s : S) (json : Bytes)
        → items (suc f) on_object s json ≡ (
            if is_token (json_parse_token json).0 4
            then some (parsed s (json_parse_token json).1)
            else if is_token (json_parse_token json).0 1
            then by_outcome
                (items f on_object)
                token_array_end
                (on_object s (json_parse_token json).1)
            else some (stopped (failure error_invalid_input) s))
    unfolding items
    items_lem f s json = ground arith

  module _ (on_object : S → Bytes → Parsed S)
      (round : (s : S) (rest : Bytes) → Leaves (length rest) (on_object s rest)) where
    pub items-Leaves :
        (f : ℕ) (s : S) (json : Bytes)
        → length json < f
        → Leaves (length json) (items f on_object s json)
    items-Leaves zero s json h = absurd (omega arith)
    items-Leaves (suc f) s json h =
        let moved = json_parse_token-advances json in
        subst (Leaves (length json)) (sym (items_lem on_object f s json)) (
          if_elim (Leaves (length json)) (is_token (json_parse_token json).0 4) (λ _. moved.0)
            (λ _.
              if_elim (Leaves (length json)) (is_token (json_parse_token json).0 1)
                (λ t.
                  by_outcome-Leaves (items f on_object) token_array_end
                    (length (json_parse_token json).1) (length json)
                    (on_object s (json_parse_token json).1) (moved.1 (ground arith))
                    (round s (json_parse_token json).1)
                    (λ s' rest l. items-Leaves f s' rest (omega arith)))
                (λ _. tt)))

  pub skip_ignoring-Leaves : (s : S) (json : Bytes) → Leaves (length json) (skip_ignoring s json)
  unfolding skip_ignoring
  skip_ignoring-Leaves s json =
      let (code, rest, e, n) =
        json_skip_token_value-returns (2 * length (json_parse_token json).1 + 2)
          (json_parse_token json).0.type (json_parse_token json).1 (omega arith) in
      rw (e, skip_ignoring) (omega (arith, (json_parse_token-advances json).0))
