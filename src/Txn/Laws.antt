-- ===== src/Txn/Laws.antt =====
-- Sequences of calls on a transaction of src/transaction.c.
use luminix_experience_platf.Txn.{
  txn_aborted, free_operations, txn_committed, transaction_rollback, is_active, transaction_free,
  transaction_commit, TransactionState, Transaction,
}
use luminix_experience_platf.Base.{
  append-nil, ℕ, true, false, List, [], ◌∷◌, ◌++◌, Option, none, some, ◌≡◌, refl, arith,
}

pub data Call : Type 0 where
  commit rollback : Call

abbrev pub call : Call → Option Transaction → Option Transaction × List ℕ
call commit txn = let (_, txn', freed) = transaction_commit txn in (txn', freed)
call rollback txn = transaction_rollback txn

-- The calls in order: the transaction they leave, and the addresses that they free.
pub run : List Call → Option Transaction → Option Transaction × List ℕ
run [] txn = (txn, [])
run (c ∷ cs) txn =
    let (txn', freed) = call c txn in let (last, later) = run cs txn' in (last, freed ++ later)

abbrev pub target : Call → TransactionState
target commit = txn_committed
target rollback = txn_aborted

closed_run :
    (cs : List Call) (txn : Transaction)
    → is_active txn.state ≡ false
    → run cs (some txn) ≡ (some txn, [])
unfolding run transaction_commit transaction_rollback
closed_run [] txn h = refl
closed_run (commit ∷ cs) txn h = ground (arith, closed_run cs txn h)
closed_run (rollback ∷ cs) txn h = ground (arith, closed_run cs txn h)

-- The first commit or rollback of an active transaction decides: however many calls follow, it
-- stays committed or aborted, with its id and no operations, and its operations have been freed
-- once, in order.
pub run_active :
    (c : Call) (cs : List Call) (txn : Transaction)
    → is_active txn.state ≡ true
    → run (c ∷ cs) (some txn)
      ≡ (some (record txn { operations = none; state = target c }), free_operations txn)
unfolding run transaction_commit transaction_rollback
run_active commit cs txn h = ground (
  arith,
  closed_run cs (record txn { operations = none; state = txn_committed }) refl,
  append-nil (free_operations txn),
)
run_active rollback cs txn h = ground (
  arith,
  closed_run cs (record txn { operations = none; state = txn_aborted }) refl,
  append-nil (free_operations txn),
)

-- Whatever commits and rollbacks are made on an active transaction before `transaction_free`, they
-- and it free the operations of the transaction once each, in order.
pub freed_once :
    (cs : List Call) (txn : Transaction)
    → is_active txn.state ≡ true
    → (run cs (some txn)).1 ++ transaction_free (run cs (some txn)).0 ≡ free_operations txn
freed_once [] txn h = unfold run transaction_free in refl
freed_once (c ∷ cs) txn h =
    rw (run_active c cs txn h)
      (unfold transaction_free free_operations in append-nil (free_operations txn))
