-- ===== src/Agent/Snapshots.antt =====
-- The snapshots that the loop saves: `_snapshot`, `_checkpoint`, `_save_running`, `_finish` and
-- `_assert_current` of runtime/loop.py.
use forgeharness.Common.{
  ℕ, String, Bool, false, not, ◌||◌, Option, none, some, List, [], ◌∷◌, Result, ok, raise, Action,
  pure, gets, guard, ◌>>=◌, ◌>>◌, if◌then◌else◌, ◌==◌, ℕ_eq, ltb,
}
use forgeharness.Domain.{RunResult, RunStatus, running, Message, assistant, Usage, ToolCall}
use forgeharness.Checkpoint
use forgeharness.Checkpoint.{CheckpointConflict, Checkpoints}
use forgeharness.Agent.Setting.{
  Runtime, Run, World, log, AgentError, conflict, incompatible, stale, checkpoint_saved,
  run_finished,
}

abbrev pub current_recovery_version : ℕ
current_recovery_version = 3

-- A `RunResult` with the fields that the runtime gives, and pydantic's defaults for the others.
abbrev pub result_of : String → RunStatus → List Message → Usage → ℕ → RunResult
result_of task status messages usage revision = record {
  task_id = task;
  status = status;
  messages = messages;
  usage = usage;
  checkpoint_revision = revision;
  final_output = none;
  error = none;
  pending_approval = none;
  recovery_semantics_version = 0;
  state_version = 1;
  run_context = none;
  tool_evidence = [];
  authorized_call_id = none;
}

abbrev pub lift_conflict : {A : Type 0} → Result CheckpointConflict A → Result AgentError A
lift_conflict (ok a) = ok a
lift_conflict (raise e) = raise (conflict e)

abbrev pub on_store : {A : Type 0} → Action Checkpoints CheckpointConflict A → Run A
on_store m w = let (r, rows) = m w.checkpoints in (lift_conflict r, record w { checkpoints = rows })

module _ (x : Runtime) where
  -- `_snapshot`
  abbrev pub snapshot_of : World → RunResult → RunResult
  snapshot_of w r = record r {
    run_context = w.context;
    tool_evidence = w.evidence;
    authorized_call_id = w.authorized;
    recovery_semantics_version = if x.has_journal then current_recovery_version else 0;
  }

  unfoldable pub store_snapshot : RunResult → Run RunResult
  store_snapshot r = do
    saved ← on_store (Checkpoint.save r)
    log (checkpoint_saved saved.checkpoint_revision saved.status)
    pure saved

  -- `_checkpoint`
  unfoldable pub checkpoint : RunResult → Run RunResult
  checkpoint r = do
    snapshot ← gets (λ w. snapshot_of w r)
    (if x.has_checkpoints then store_snapshot snapshot else pure snapshot)

  unfoldable pub save_running : String → List Message → Usage → ℕ → Run ℕ
  save_running task messages usage revision = do
    saved ← checkpoint (result_of task running messages usage revision)
    pure saved.checkpoint_revision

  -- `_finish`
  unfoldable pub finish_run :
      String → RunStatus → List Message → Usage → ℕ → Option String → Option String → Run RunResult
  finish_run task status messages usage revision final_output error = do
    log (run_finished status error)
    checkpoint (record (result_of task status messages usage revision) {
      final_output = final_output;
      error = error;
    })

  abbrev pub is_current_revision : RunResult → Option RunResult → Bool
  is_current_revision r none = false
  is_current_revision r (some c) = c.checkpoint_revision == r.checkpoint_revision

  -- `_assert_current`
  unfoldable pub assert_current : RunResult → Run (Unit {0})
  assert_current r = do
    guard (r.state_version == 1) incompatible
    guard (not (ltb current_recovery_version r.recovery_semantics_version)) incompatible
    stored ← gets (λ (w : World). Checkpoint.load r.task_id w.checkpoints)
    guard (not x.has_checkpoints || is_current_revision r stored) stale

-- `last.tool_calls[0]` of an assistant message, where there is one
abbrev pub requested_call : Message → Option ToolCall
requested_call m = elim m.role [
  | assistant ↦ elim m.tool_calls [ [] ↦ none | c ∷ l ↦ some c ]
  | _ ↦ none
]

-- `_outstanding_call`
abbrev pub outstanding_call : List Message → Option ToolCall
outstanding_call [] = none
outstanding_call (m ∷ []) = requested_call m
outstanding_call (m ∷ n ∷ l) = outstanding_call (n ∷ l)
