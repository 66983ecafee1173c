-- ===== src/Parser/Conditions.antt =====
-- `parse_condition` of src/parser.c on a condition that is written out.
use luminix_experience_platf.Parser.{unquote, trim_spaces, parse_condition, ops, find_sub, find_op}
use luminix_experience_platf.Base.{
  ◌∙◌, take, drop, ap, Option-cases, length, codes, All, leb, is_prefix, Bytes, ◌==◌, ℕ, zero, suc,
  ◌+◌, Bool, true, false, ◌&&◌, ◌||◌, List, [], ◌∷◌, ◌++◌, Option, none, some, ◌≡◌, refl, arith,
  inl, inr,
}

-- one of the bytes that operators consist of: ! < = >
abbrev pub is_op_char : ℕ → Bool
is_op_char c = c == 33 || (leb 60 c && leb c 62)

abbrev pub IsFree : Bytes → Type 0
IsFree = All (λ c. is_op_char c ≡ false)

free_prefix :
    (c p : ℕ) (cs ps : Bytes)
    → is_op_char c ≡ false
    → is_op_char p ≡ true
    → is_prefix (p ∷ ps) (c ∷ cs) ≡ false
unfolding is_prefix
free_prefix c p cs ps h k = ground arith

-- no operator begins in a text without their bytes
find_sub_free :
    (cs : Bytes) (p : ℕ) (ps : Bytes)
    → IsFree cs
    → is_op_char p ≡ true
    → find_sub cs (p ∷ ps) ≡ none
unfolding find_sub
find_sub_free [] p ps h k = unfold is_prefix in refl
find_sub_free (c ∷ cs) p ps h k =
    ground (arith, free_prefix c p cs ps h.0 k, find_sub_free cs p ps h.1 k)

abbrev pub shift : ℕ → Option ℕ → Option ℕ
shift n none = none
shift n (some m) = some (n + m)

find_sub_after :
    (f rest : Bytes) (p : ℕ) (ps : Bytes)
    → IsFree f
    → is_op_char p ≡ true
    → find_sub (f ++ rest) (p ∷ ps) ≡ shift (length f) (find_sub rest (p ∷ ps))
unfolding find_sub
find_sub_after [] rest p ps h k = elim (Option-cases (find_sub rest (p ∷ ps))) [
  | inl absent ↦ rw absent refl
  | inr (n, present) ↦ rw present (ap (λ m. some m) (omega arith))
]
find_sub_after (c ∷ f) rest p ps h k = elim (Option-cases (find_sub rest (p ∷ ps))) [
  | inl absent ↦
      ground (arith, free_prefix c p (f ++ rest) ps h.0 k, find_sub_after f rest p ps h.1 k)
  | inr (n, present) ↦
      ground (arith, free_prefix c p (f ++ rest) ps h.0 k, find_sub_after f rest p ps h.1 k)
]

-- an operator that the parser knows
pub data Operator : Type 0 where
  ne ge le eq gt lt : Operator

abbrev pub text : Operator → Bytes
text ne = codes "!="
text ge = codes ">="
text le = codes "<="
text eq = codes "="
text gt = codes ">"
text lt = codes "<"

at_op : (op : Operator) (v : Bytes) → IsFree v → find_op ops (text op ++ v) ≡ some (text op, 0)
unfolding find_op find_sub is_prefix
at_op ne v h = refl
at_op ge v h = ground (arith, find_sub_free v 33 (codes "=") h)
at_op le v h = ground (arith, find_sub_free v 33 (codes "=") h, find_sub_free v 62 (codes "=") h)
at_op eq v h = ground (
  arith,
  find_sub_free v 33 (codes "=") h,
  find_sub_free v 62 (codes "=") h,
  find_sub_free v 60 (codes "=") h,
)
at_op gt v h = ground (
  arith,
  find_sub_free v 33 (codes "=") h,
  find_sub_free v 62 (codes "=") h,
  find_sub_free v 60 (codes "=") h,
  find_sub_free v 61 [] h,
)
at_op lt v h = ground (
  arith,
  find_sub_free v 33 (codes "=") h,
  find_sub_free v 62 (codes "=") h,
  find_sub_free v 60 (codes "=") h,
  find_sub_free v 61 [] h,
  find_sub_free v 62 [] h,
)

abbrev shift_found : ℕ → Option (Bytes × ℕ) → Option (Bytes × ℕ)
shift_found n none = none
shift_found n (some (op, m)) = some (op, n + m)

-- a list of operators, each with a first byte that marks it
abbrev AreOps : List Bytes → Type 0
AreOps = All (λ (op : Bytes). (p : ℕ) × (ps : Bytes) × (op ≡ p ∷ ps) × (is_op_char p ≡ true))

find_op_after :
    (os : List Bytes) (f rest : Bytes)
    → AreOps os
    → IsFree f
    → find_op os (f ++ rest) ≡ shift_found (length f) (find_op os rest)
unfolding find_op
find_op_after [] f rest h free = refl
find_op_after (op ∷ os) f rest ((p, ps, same, mark), h) free =
    let at_op : find_sub (f ++ rest) op ≡ shift (length f) (find_sub rest op) =
      rw same (find_sub_after f rest p ps free mark) in
    elim (Option-cases (find_sub rest op)) [
      | inl absent ↦ ground (arith, find_op_after os f rest h free)
      | inr (n, present) ↦ ground (arith, find_op_after os f rest h free)
    ]

ops-AreOps : AreOps ops
ops-AreOps = (
  (33, codes "=", refl, refl),
  (
    (62, codes "=", refl, refl),
    (
      (60, codes "=", refl, refl),
      ((61, [], refl, refl), ((62, [], refl, refl), ((60, [], refl, refl), tt))),
    ),
  ),
)

take_front : (f rest : Bytes) → take (length f) (f ++ rest) ≡ f
take_front [] rest = refl
take_front (c ∷ f) rest = ap (λ r. c ∷ r) (take_front f rest)

drop_front : (f rest : Bytes) (n m : ℕ) → m ≡ length f + n → drop m (f ++ rest) ≡ drop n rest
drop_front [] rest n m h = ap (λ k. drop k rest) (omega arith)
drop_front (c ∷ f) rest n zero h = absurd (omega arith)
drop_front (c ∷ f) rest n (suc m) h = drop_front f rest n m (omega arith)

drop_op : (op : Operator) (v : Bytes) → drop (length (text op)) (text op ++ v) ≡ v
drop_op ne v = refl
drop_op ge v = refl
drop_op le v = refl
drop_op eq v = refl
drop_op gt v = refl
drop_op lt v = refl

-- A condition is read back: if neither the text before the operator nor the text after it has one
-- of the bytes ! < = >, the field is the one, trimmed, and the value is the other, trimmed and
-- without its quotes, for each of the six operators.
pub parse_condition_lem :
    (op : Operator) (f v : Bytes)
    → IsFree f
    → IsFree v
    → parse_condition (some (f ++ (text op ++ v)))
      ≡ some (record { field = trim_spaces f; op = text op; value = unquote (trim_spaces v) })
unfolding parse_condition
parse_condition_lem op f v free_f free_v =
    let found : find_op ops (f ++ (text op ++ v)) ≡ some (text op, length f + 0) =
      find_op_after ops f (text op ++ v) ops-AreOps free_f
      ∙ ap (shift_found (length f)) (at_op op v free_v) in
    let front : take (length f + 0) (f ++ (text op ++ v)) ≡ f =
      ap (λ k. take k (f ++ (text op ++ v))) (omega arith) ∙ take_front f (text op ++ v) in
    let back : drop (length f + 0 + length (text op)) (f ++ (text op ++ v)) ≡ v =
      drop_front f (text op ++ v) (length (text op)) (length f + 0 + length (text op)) (omega arith)
      ∙ drop_op op v in
    rw (found, front, back, parse_condition) refl
