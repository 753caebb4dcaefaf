-- ===== src/Journal/Final.antt =====
-- Which rows of the journal no longer change.
use forgeharness.Common.{
  ℕ, String, ◌≡◌, refl, Bool, true, false, ◌⊎◌, Keeps-guard, some, List, [], ◌∷◌, arith, ◌==◌,
  String_discrete, Keeps, keeps_rules, Keeps-guarded, Keeps-then, Keeps-bind, Keeps-or_raise, All,
}
use forgeharness.Table.{find_key-append}
use forgeharness.Domain.{
  unsafe_restart, changed_during_restart, vanished_during_restart, not_reconcilable, wrong_database,
  result_too_large, changed_during_reconciliation, Error, ToolOutput,
}
use forgeharness.Journal.Records.{
  InvocationState, claimed, completed, failed, InvocationState_eq, terminal, InvocationRecord,
  AttemptRecord, decide_recovery,
}
use forgeharness.Journal.Rows.{InvocationRow, Db, Codec, row_of, update_one, load_by_id}
use forgeharness.Journal.Store.{
  claim, mark_started, restart, settle, claimed_row, started_row, restarted_row, settled_row,
  settle_invocation, is_unsettled, may_restart, unchanged,
}
use forgeharness.Journal.Attempts.{
  is_reconcilable, start_attempt, finish_attempt, reconcile_in_transaction, reconciled_row,
}
use forgeharness.Journal.Invariant.{row_key}
use forgeharness.Journal.Operations.{
  Op, claim_op, mark_started_op, restart_op, settle_op, decide_op, start_attempt_op,
  finish_attempt_op, reconcile_op, apply, run,
}
use forgeharness.Journal.Updates.{update_one-other}

abbrev pub Stands : String → InvocationRow → Db → Type 0
Stands i r db = row_of i db ≡ some r

module _ (codec : Codec) (i : String) (r : InvocationRow) where
  load_by_id-Keeps : (P : Db → Type 0) (id : String) → Keeps P (load_by_id codec id)
  unfolding load_by_id
  load_by_id-Keeps P id = record { at = λ db h. ground arith }

  update_one-Stands :
      (f : InvocationRow → InvocationRow)
      (keeps_id : (r : InvocationRow) → row_key (f r) ≡ row_key r) (id : String)
      (test : InvocationRow → Bool) (e : Error)
      → test r ≡ false
      → Keeps (Stands i r) (update_one id test f e)
  update_one-Stands f keeps_id id test e fails = record {
    at = λ db h. update_one-other f keeps_id id test e db i r h (ground arith);
  }

  module _ (final : terminal r.state ≡ true) where
    mark_started-Stands :
        (now : ℕ) (id : String) (revision : ℕ)
        → Keeps (Stands i r) (mark_started codec now id revision)
    unfolding mark_started
    mark_started-Stands now id revision = search (
      keeps_rules,
      update_one-Stands (started_row now revision) (λ r. refl) id (λ r. r.state == claimed) _
          (ground arith),
      load_by_id-Keeps (Stands i r),
    )

    unchanged-false :
        (rec : InvocationRecord)
        → may_restart (decide_recovery rec) ≡ true
        → unchanged rec r ≡ false
    unfolding decide_recovery
    unchanged-false rec safe = ground arith

    restart-Stands :
        (now : ℕ) (rec : InvocationRecord) (revision : ℕ)
        → Keeps (Stands i r) (restart codec now rec revision)
    unfolding restart
    restart-Stands now rec revision =
        Keeps-guarded (may_restart (decide_recovery rec)) unsafe_restart _ λ safe.
          Keeps-then _ _
            (update_one-Stands (restarted_row now revision) (λ r. refl) rec.invocation_id
              (unchanged rec) changed_during_restart (unchanged-false rec safe))
            (Keeps-bind _ _ (load_by_id-Keeps (Stands i r) rec.invocation_id)
              (λ o. Keeps-or_raise vanished_during_restart o))

    settle-Stands : (now : ℕ) (rec : InvocationRecord) → Keeps (Stands i r) (settle codec now rec)
    unfolding settle
    settle-Stands now rec = search (
      keeps_rules,
      update_one-Stands (settled_row codec now rec) (λ r. refl) rec.invocation_id (is_unsettled) _
          (ground arith),
    )

  claim-Stands : (rec : InvocationRecord) → Keeps (Stands i r) (claim rec)
  unfolding claim
  claim-Stands rec = record {
    at = λ db h.
        ground (arith, find_key-append String_discrete row_key i db.invocations (claimed_row rec));
  }

  pub start_attempt-Stands : (a : AttemptRecord) → Keeps (Stands i r) (start_attempt a)
  unfolding start_attempt
  start_attempt-Stands a = record { at = λ db h. ground arith }

  pub finish_attempt-Stands :
      (now : ℕ) (a : AttemptRecord) → Keeps (Stands i r) (finish_attempt now a)
  unfolding finish_attempt
  finish_attempt-Stands now a = record { at = λ db h. ground arith }

  reconcile-Stands :
      (same : Bool) (now : ℕ) (rec : InvocationRecord) (output : ToolOutput)
      → r.state ≡ completed ⊎ r.state ≡ failed
      → Keeps (Stands i r) (reconcile_in_transaction codec same now rec output)
  unfolding reconcile_in_transaction
  reconcile-Stands same now rec output final =
      Keeps-guarded (is_reconcilable rec) not_reconcilable _ λ open_state.
        Keeps-then _ _ (Keeps-guard same wrong_database) (
          Keeps-then _ _ (Keeps-guard _ result_too_large) (
            update_one-Stands
              (reconciled_row codec output (settle_invocation codec rec output now failed) now)
              (λ r. refl) rec.invocation_id (λ r. r.state == rec.state)
              changed_during_reconciliation (ground arith)))

-- Which rows a call cannot change, by the state of the row.
abbrev pub IsFinalFor : Op → InvocationState → Type 0
IsFinalFor (decide_op now id state decision) s = ⊥
IsFinalFor (reconcile_op same now rec output) s = (s ≡ completed) ⊎ (s ≡ failed)
IsFinalFor _ s = terminal s ≡ true

module _ (codec : Codec) (i : String) (r : InvocationRow) where
  apply-Stands :
      (op : Op) → IsFinalFor op r.state → (db : Db) → Stands i r db → Stands i r (apply codec op db)
  unfolding apply
  apply-Stands (claim_op rec) f db h = (claim-Stands codec i r rec).at db h
  apply-Stands (mark_started_op now id revision) f db h =
      (mark_started-Stands codec i r f now id revision).at db h
  apply-Stands (restart_op now rec revision) f db h =
      (restart-Stands codec i r f now rec revision).at db h
  apply-Stands (settle_op now rec) f db h = (settle-Stands codec i r f now rec).at db h
  apply-Stands (decide_op now id state decision) f db h = absurd f
  apply-Stands (start_attempt_op a) f db h = (start_attempt-Stands codec i r a).at db h
  apply-Stands (finish_attempt_op now a) f db h = (finish_attempt-Stands codec i r now a).at db h
  apply-Stands (reconcile_op same now rec output) f db h =
      (reconcile-Stands codec i r same now rec output f).at db h

  -- A row in a terminal state is unchanged, with its result, by any sequence of journal calls
  -- none of which records a recovery decision, and which reconcile only where the state is
  -- completed or failed.
  pub run-Stands :
      (ops : List Op) (db : Db)
      → All (λ op. IsFinalFor op r.state) ops
      → row_of i db ≡ some r
      → row_of i (run codec ops db) ≡ some r
  unfolding run
  run-Stands [] db f h = h
  run-Stands (op ∷ ops) db f h = run-Stands ops (apply codec op db) f.1 (apply-Stands op f.0 db h)
