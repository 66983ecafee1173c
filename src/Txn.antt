-- ===== src/Txn.antt =====
-- src/transaction.c: a transaction as an object with a state. The counter of the ids is an argument,
-- and the operations are the addresses that the code frees.
pub mod Laws
use luminix_experience_platf.Base.{
  succ_int, minus_one, length, ◌*◌, ◌/◌, ◌%◌, ◌^◌, ◌==◌, ℕ, zero, suc, ◌+◌, ◌-◌, ◌≤◌, ◌<◌, ℤ, pos,
  negsuc, Bool, true, false, not, ◌&&◌, ◌||◌, List, [], ◌∷◌, ◌++◌, Option, none, some, ◌≡◌, ◌≢◌,
  ◌↔◌, refl, arith, if◌then◌else◌, inl, inr,
}

pub data TransactionState : Type 0 where
  txn_active txn_committed txn_aborted : TransactionState

-- `operations` is none for NULL, and `op_count` is its length; an operation may be NULL
pub record Transaction : Type 0 where
  pub id : ℤ
  pub state : TransactionState
  pub operations : Option (List (Option ℕ))

abbrev pub op_count : Transaction → ℕ
op_count txn = elim txn.operations [ none ↦ 0 | some operations ↦ length operations ]

abbrev pub is_active : TransactionState → Bool
is_active txn_active = true
is_active _ = false

-- the id, and the next value of `g_next_txn_id`
unfoldable pub generate_txn_id : ℤ → ℤ × ℤ
generate_txn_id g_next_txn_id = (g_next_txn_id, succ_int g_next_txn_id)

unfoldable pub transaction_begin : Bool → ℤ → Option Transaction × ℤ
unfolding generate_txn_id
transaction_begin granted g_next_txn_id =
    if granted
    then (let (id, next) = generate_txn_id g_next_txn_id in
        (some (record { id = id; state = txn_active; operations = none }), next))
    else (none, g_next_txn_id)

-- the addresses that the loop over the operations frees
unfoldable pub freed_by : List (Option ℕ) → List ℕ
freed_by [] = []
freed_by (none ∷ rest) = freed_by rest
freed_by (some operation ∷ rest) = operation ∷ freed_by rest

unfoldable pub free_operations : Transaction → List ℕ
unfolding freed_by
free_operations txn = elim txn.operations [ none ↦ [] | some operations ↦ freed_by operations ]

-- the return value, the transaction, and the addresses of operations that are freed
unfoldable pub transaction_commit : Option Transaction → ℤ × Option Transaction × List ℕ
unfolding free_operations
transaction_commit none = (minus_one, none, [])
transaction_commit (some txn) = if not (is_active txn.state) then (minus_one, some txn, []) else (
  pos 0,
  some (record txn { operations = none; state = txn_committed }),
  free_operations txn,
)

unfoldable pub transaction_rollback : Option Transaction → Option Transaction × List ℕ
unfolding free_operations
transaction_rollback none = (none, [])
transaction_rollback (some txn) =
    if not (is_active txn.state)
    then (some txn, [])
    else (some (record txn { operations = none; state = txn_aborted }), free_operations txn)

unfoldable pub transaction_free : Option Transaction → List ℕ
unfolding free_operations
transaction_free none = []
transaction_free (some txn) = free_operations txn
