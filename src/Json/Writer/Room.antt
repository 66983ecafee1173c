-- ===== src/Json/Writer/Room.antt =====
-- src/json_io.c: the buffer grows until the text fits.
use luminix_experience_platf.Base.{
  ◌∙◌, ltb, Bool-cases, ◌*◌, ◌%◌, ◌^◌, ℕ, zero, suc, ◌+◌, ◌≤◌, ◌<◌, true, some, ◌≡◌, refl, arith,
  inl, inr,
}
use luminix_experience_platf.Json.Writer.{
  JsonSerializeState, size, double_capacity, json_serialize_ensure_capacity,
}

double_capacity_step :
    (f c needed : ℕ)
    → c < needed
    → needed ≤ 2 ^ 63
    → double_capacity (suc f) c needed ≡ double_capacity f (c * 2) needed
unfolding double_capacity
double_capacity_step f c needed h le = ground arith

double_capacity_done : (f c needed : ℕ) → needed ≤ c → double_capacity (suc f) c needed ≡ some c
unfolding double_capacity
double_capacity_done f c needed h = ground arith

-- the capacity after f doublings
doubled : ℕ → ℕ → ℕ
doubled zero c = c
doubled (suc f) c = doubled f (c * 2)

-- f doublings are enough if they reach what is needed
double_capacity_reaches :
    (f c needed : ℕ)
    → needed ≤ doubled f c
    → needed ≤ 2 ^ 63
    → c ≤ 2 * needed
    → (c' : ℕ) × (double_capacity (suc f) c needed ≡ some c') × (needed ≤ c') × (c' ≤ 2 * needed)
unfolding doubled
double_capacity_reaches zero c needed h le most =
    (c, double_capacity_done zero c needed (omega arith), omega arith, omega arith)
double_capacity_reaches (suc f) c needed h le most = elim (Bool-cases (ltb c needed)) [
  | inl small ↦
      let (c', e, enough, most') = double_capacity_reaches f (c * 2) needed h le (ground arith) in
      (c', double_capacity_step (suc f) c needed (ground arith) le ∙ e, enough, most')
  | inr large ↦ (c, double_capacity_done (suc f) c needed (ground arith), ground arith, most)
]

doubled_63 : (c : ℕ) → doubled 63 c ≡ c * 2 ^ 63
unfolding doubled
doubled_63 c = omega arith

-- If the capacity is not 0 and less than what is needed, which is at most 2 ^ 62, the doubling of
-- `json_serialize_ensure_capacity` ends within 64 rounds, at a capacity that is enough and at most
-- twice what is needed.
pub double_capacity-ends :
    (capacity needed : ℕ)
    → 0 < capacity
    → capacity < needed
    → needed ≤ 2 ^ 62
    → (c : ℕ) × (double_capacity 64 (capacity * 2 % 2 ^ 64) needed ≡ some c)
      × (needed ≤ c)
      × (c ≤ 2 * needed)
double_capacity-ends capacity needed p small le = rw (no_wrap capacity (omega arith)) (
    double_capacity_reaches 63 (capacity * 2) needed (omega (arith, doubled_63 (capacity * 2)))
      (omega arith) (omega arith))
  where
    no_wrap : (c : ℕ) → c < 2 ^ 62 → c * 2 % 2 ^ 64 ≡ c * 2
    no_wrap c h = omega arith

-- A state with room for its text and the NUL, in memory that is granted.
pub record IsReady (s : JsonSerializeState) : Type 0 where
  pub room : size s + 1 ≤ s.capacity
  pub bounded : s.capacity ≤ 4096 + 2 * (size s + 1)
  pub granted : (n : ℕ) → s.grants n ≡ true

-- what a text may grow to in the theorems, far above what memory holds
abbrev pub text_limit : ℕ
text_limit = 2 ^ 60

-- There is room for `additional` bytes and the NUL, and nothing but the capacity has changed.
pub ensure_capacity_lem :
    (additional : ℕ) (s : JsonSerializeState)
    → IsReady s
    → size s + additional ≤ text_limit
    → (c : ℕ) × (json_serialize_ensure_capacity additional s ≡ some (record s { capacity = c }))
      × (size s + additional + 1 ≤ c)
      × (c ≤ 4096 + 2 * (size s + additional + 1))
unfolding json_serialize_ensure_capacity
ensure_capacity_lem additional s r h =
    elim (Bool-cases (ltb s.capacity (size s + additional + 1))) [
      | inl small ↦
          let (c, e, enough, most) =
            double_capacity-ends s.capacity (size s + additional + 1) (ground arith) (ground arith)
              (omega arith) in
          (c, rw (small, e, r.granted c) refl, enough, omega arith)
      | inr large ↦ (s.capacity, rw large refl, ground arith, ground arith)
    ]
