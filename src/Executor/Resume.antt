-- ===== src/Executor/Resume.antt =====
-- A dispatched call and its recovery: what `recover_call` decides after `dispatch_journalled` has
-- returned, and after the process has died inside the tool (runtime/tool_executor.py).
use Prim.Native.String.{String}
use forgeharness.Common.{
  ℕ, ◌≡◌, ◌≢◌, refl, sym, Bool, true, false, Option, none, some, arith, if◌then◌else◌, Outcome, ok,
  raise, subst, ◌∙◌, ◌==◌, [], ◌∷◌, ◌++◌, Bool-cases, inl, inr, ◌⊎◌,
}
use forgeharness.Domain.{
  ToolEffectClass_eq, read_only, idempotent, ToolOutput, ToolCall, Usage, already_claimed,
  process_crashed,
}
use forgeharness.Journal
use forgeharness.Journal.{
  InvocationRow, InvocationRecord, RoundTrips, claimed_row, started_row, started, settled_row,
  is_known, RecoveryDecision, reuse_result, replay_read_only, replay_idempotent, refuse_replay,
  decide_recovery, to_record, row_of, settle_invocation, row_to_record, terminal, InvocationState,
  completed, failed, indeterminate, InvocationState_eq, load,
}
use forgeharness.Journal.Invariant.{IsValid}
use forgeharness.Journal.Settling.{
  Holds, claim-ok, mark_started-ok, row_to_record-settled, row_to_record-fresh, load-row,
}
use forgeharness.Executor.Setting.{
  Executor, starting, settling, World, invocation_claimed, invocation_started,
}
use forgeharness.Executor.Attempt.{Job, settled_record, run_attempts}
use forgeharness.Executor.Calls.{
  effect_of, invocation_id_for, call_subject, new_record, job_for, dispatch_journalled,
  recover_call, recover_loaded, recover_record, recovered_state, announce,
}
use forgeharness.Executor.Outcome.{final_decision, IsSettled, Running, run_attempts-Ends}

module _ (x : Executor) (task_id : String) (call : ToolCall) (workspace : Option String)
    (usage : Usage) (revision : ℕ) where
  abbrev pub the_record : InvocationRecord
  the_record = new_record x task_id call revision

  -- the row once the call has started
  abbrev pub the_row : InvocationRow
  the_row = started_row (x.clock starting) revision (claimed_row the_record)

  abbrev pub the_job : Job
  the_job = job_for x task_id call workspace usage revision (to_record the_row none)

  -- A call that the journal knows is refused before anything is dispatched.
  known_call :
      (w : World)
      → is_known the_record w.db ≡ true
      → dispatch_journalled x task_id call workspace usage revision w ≡ (raise already_claimed, w)
  unfolding dispatch_journalled Journal.claim
  known_call w known = ground arith

  -- A new call is claimed and started before its attempts run.
  new_call :
      (w : World)
      → IsValid w.db
      → is_known the_record w.db ≡ false
      → (w' : World) × (dispatch_journalled x task_id call workspace usage revision w
          ≡ run_attempts x the_job w')
        × Running x the_job the_row w'
  unfolding dispatch_journalled
  new_call w v fresh =
      let (db1, claimed, h1) = claim-ok the_record w.db v fresh in
      let (db2, begun, h2) =
        mark_started-ok x.codec (x.clock starting) (invocation_id_for task_id call.id) revision
          (claimed_row the_record) db1 refl refl refl h1 in
      (
        record {
          db = db2;
          trace =
              (w.trace ++ invocation_claimed (call_subject x task_id call) ∷ [])
              ++ invocation_started (call_subject x task_id call) 1 ∷ [];
        },
        rw claimed (rw begun refl),
        h2,
      )

  abbrev pub outcome_of : InvocationRecord → InvocationRecord × RecoveryDecision
  outcome_of rec = (
    record rec { state = recovered_state x rec; recovery_decision = some (decide_recovery rec) },
    decide_recovery rec,
  )

  announce_returns :
      (rec : InvocationRecord) (b : Bool) (w : World) → (announce x rec b w).0 ≡ ok tt
  unfolding announce
  announce_returns rec true w = refl
  announce_returns rec false w = refl

  recover_record_returns :
      (rec : InvocationRecord) (w : World) → (recover_record x rec w).0 ≡ ok (outcome_of rec)
  unfolding recover_record Journal.record_recovery_decision
  recover_record_returns rec w = rw announce_returns

  -- `recover_call` on a row that can be read decides by the record that the row makes.
  recover_row :
      (r : InvocationRow) (rec : InvocationRecord) (w : World)
      → Holds (invocation_id_for task_id call.id) r w.db
      → r.run_id ≡ task_id
      → r.logical_call_id ≡ call.id
      → row_to_record x.codec r ≡ ok rec
      → (recover_call x task_id call.id w).0 ≡ ok (some (outcome_of rec))
  unfolding recover_call recover_loaded
  recover_row r rec w h e f readable =
      rw
        (load-row x.codec (invocation_id_for task_id call.id) task_id call.id r rec w.db h e f
          readable)
        (rw (recover_record_returns rec w))

  abbrev recovery_after_crash : RecoveryDecision
  recovery_after_crash =
      if effect_of x call == read_only
      then replay_read_only
      else (if effect_of x call == idempotent then replay_idempotent else refuse_replay)

  decide_started : decide_recovery (to_record the_row none) ≡ recovery_after_crash
  unfolding decide_recovery
  decide_started = ground arith

  -- From valid tables, if the process dies while the tool of a journalled call runs, then what `recover_call` decides
  -- afterwards depends on the tool's effect class alone: a read-only call may be replayed, an
  -- idempotent one may be replayed under its key, and any other is refused.
  pub recover_call-crashed :
      (w w' : World)
      → IsValid w.db
      → dispatch_journalled x task_id call workspace usage revision w ≡ (raise process_crashed, w')
      → (rec : InvocationRecord) × ((recover_call x task_id call.id w').0
          ≡ ok (some (rec, recovery_after_crash)))
  recover_call-crashed w w' v e = elim (Bool-cases (is_known the_record w.db)) [
    | inl known ↦ cc (known_call w known)
    | inr fresh ↦
        let (w1, runs, h1) = new_call w v fresh in
        let h =
          subst (Outcome (Running x the_job the_row) (IsSettled x the_job the_row)) (sym runs ∙ e)
            ((run_attempts-Ends x the_job the_row refl (ground arith)).at w1 h1) in
        let rec = to_record the_row none in
        (
          (outcome_of rec).0,
          rw
              (recover_row the_row rec w' h refl refl
                (row_to_record-fresh x.codec the_row refl refl))
              (rw decide_started),
        )
  ]

  abbrev recovery_after_return : ToolOutput → RecoveryDecision
  recovery_after_return o = if o.is_ok then reuse_result else refuse_replay

  module _ (o : ToolOutput) (n : ℕ) where
    abbrev last_row : InvocationRow
    last_row =
        settled_row x.codec (x.clock settling)
          (settled_record x the_job o n (final_decision x the_job o n)) the_row

    last_row-state :
        (last_row.state ≡ completed) × (o.is_ok ≡ true)
        ⊎ (terminal last_row.state ≡ true) × (last_row.state ≢ completed) × (o.is_ok ≡ false)
    unfolding settle_invocation
    last_row-state = elim (Bool-cases o.is_ok) [
      | inl e ↦ inl (ground arith)
      | inr e ↦ inr (ground arith)
    ]

    decide_settled : decide_recovery (to_record last_row (some o)) ≡ recovery_after_return o
    unfolding decide_recovery
    decide_settled = ground (arith, last_row-state)

  -- From valid tables, if a journalled call returns an output, then a later `recover_call` never has the tool run
  -- again: it finds that very output in the journal, and decides to reuse it if it was a success
  -- and to refuse a replay if it was a failure. The output must survive being written as JSON and
  -- read back.
  pub recover_call-returned :
      (o : ToolOutput) (w w' : World)
      → IsValid w.db
      → RoundTrips x.codec o
      → dispatch_journalled x task_id call workspace usage revision w ≡ (ok o, w')
      → (rec : InvocationRecord) × ((recover_call x task_id call.id w').0
          ≡ ok (some (rec, recovery_after_return o)))
        × (rec.result ≡ some o)
  unfolding settle_invocation
  recover_call-returned o w w' v text e = elim (Bool-cases (is_known the_record w.db)) [
    | inl known ↦ cc (known_call w known)
    | inr fresh ↦
        let (w1, runs, h1) = new_call w v fresh in
        let done =
          subst (Outcome (Running x the_job the_row) (IsSettled x the_job the_row)) (sym runs ∙ e)
            ((run_attempts-Ends x the_job the_row refl (ground arith)).at w1 h1) in
        let rec = to_record (last_row o done.last) (some o) in
        (
          (outcome_of rec).0,
          rw
              (recover_row (last_row o done.last) rec w' done.settled refl refl
                (row_to_record-settled x.codec (last_row o done.last) o refl refl refl text))
              (rw (decide_settled o done.last)),
          refl,
        )
  ]
