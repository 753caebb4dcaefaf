-- ===== src/Journal/Operations.antt =====
-- Every method of the journal that writes, as one step, and any sequence of them.
use forgeharness.Common.{ℕ, String, Bool, List, [], ◌∷◌}
use forgeharness.Domain.{ToolOutput}
use forgeharness.Journal.Records.{
  InvocationState, RecoveryDecision, InvocationRecord, AttemptRecord,
}
use forgeharness.Journal.Rows.{Db, Codec}
use forgeharness.Journal.Store.{claim, mark_started, restart, settle, record_recovery_decision}
use forgeharness.Journal.Attempts.{start_attempt, finish_attempt, reconcile_in_transaction}
use forgeharness.Journal.Invariant.{
  IsValid, claim-Safe, mark_started-Safe, restart-Safe, settle-Safe, reconcile-Safe,
  record_recovery_decision-Safe, start_attempt-Safe, finish_attempt-Safe,
}

pub data Op : Type 0 where
  claim_op : InvocationRecord → Op
  mark_started_op : ℕ → String → ℕ → Op
  restart_op : ℕ → InvocationRecord → ℕ → Op
  settle_op : ℕ → InvocationRecord → Op
  decide_op : ℕ → String → InvocationState → RecoveryDecision → Op
  start_attempt_op : AttemptRecord → Op
  finish_attempt_op : ℕ → AttemptRecord → Op
  reconcile_op : Bool → ℕ → InvocationRecord → ToolOutput → Op

module _ (codec : Codec) where
  -- The tables after one call, whether it returns or raises.
  unfoldable pub apply : Op → Db → Db
  apply (claim_op r) db = (claim r db).1
  apply (mark_started_op now id revision) db = (mark_started codec now id revision db).1
  apply (restart_op now rec revision) db = (restart codec now rec revision db).1
  apply (settle_op now rec) db = (settle codec now rec db).1
  apply (decide_op now id state decision) db = (record_recovery_decision now id state decision db).1
  apply (start_attempt_op a) db = (start_attempt a db).1
  apply (finish_attempt_op now a) db = (finish_attempt now a db).1
  apply (reconcile_op same now rec output) db =
      (reconcile_in_transaction codec same now rec output db).1

  unfoldable pub run : List Op → Db → Db
  unfolding apply
  run [] db = db
  run (op ∷ ops) db = run ops (apply op db)

  apply-IsValid : (op : Op) (db : Db) → IsValid db → IsValid (apply op db)
  unfolding apply
  apply-IsValid (claim_op r) db v = (claim-Safe r).at db v
  apply-IsValid (mark_started_op now id revision) db v =
      (mark_started-Safe codec now id revision).at db v
  apply-IsValid (restart_op now rec revision) db v = (restart-Safe codec now rec revision).at db v
  apply-IsValid (settle_op now rec) db v = (settle-Safe codec now rec).at db v
  apply-IsValid (decide_op now id state decision) db v =
      (record_recovery_decision-Safe now id state decision).at db v
  apply-IsValid (start_attempt_op a) db v = (start_attempt-Safe a).at db v
  apply-IsValid (finish_attempt_op now a) db v = (finish_attempt-Safe now a).at db v
  apply-IsValid (reconcile_op same now rec output) db v =
      (reconcile-Safe codec same now rec output).at db v

  -- From valid tables, any sequence of journal calls, succeeding or raising, leaves tables in
  -- which invocation ids, logical calls, attempt ids and attempt numbers are unique and every
  -- attempt belongs to a stored invocation.
  pub run-IsValid : (ops : List Op) (db : Db) → IsValid db → IsValid (run ops db)
  unfolding run
  run-IsValid [] db v = v
  run-IsValid (op ∷ ops) db v = run-IsValid ops (apply op db) (apply-IsValid op db v)
