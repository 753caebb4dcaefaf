-- ===== src/Kernel/Setting.antt =====
-- What a `RunKernel` is built from and what it changes (sdk/kernel.py). The evidence transform of
-- the bridges is the identity here, and the lock that admits one call at a time is the order of
-- the calls.
use forgeharness.Common.{
  ℕ, ◌+◌, String, Bool, true, false, not, Option, none, some, List, [], ◌∷◌, ◌++◌, Result, ok,
  raise, Action, pure, gets, guard, modify, ◌>>=◌, ◌>>◌, if◌then◌else◌, leb,
}
use forgeharness.Domain.{
  RunResult, RunStatus, running, Message, user, Usage, ToolCall, ToolEvidence, RunContext, Error,
}
use forgeharness.Checkpoint
use forgeharness.Checkpoint.{Checkpoints, CheckpointConflict}
use forgeharness.Agent.{
  Runtime, AgentEvent, VerificationRequest, VerificationResult, result_of, said, run_started,
  checkpoint_saved,
}

pub data KernelEvent : Type 0 where
  shared : AgentEvent → KernelEvent
  tool_started : ToolCall → KernelEvent
  tool_ended : ToolCall → Bool → KernelEvent
  emitted : String → String → KernelEvent

-- `OrchestrationError`, its two subclasses, and what the stores and the tools raise.
pub data KernelError : Type 0 where
  misused budget_exceeded tool_denied : String → KernelError
  conflicted : CheckpointConflict → KernelError
  tool_raised : Error → KernelError

pub record Host : Type 0 where
  -- the model, the registry, the policy, the dispatcher and the budget
  pub runtime : Runtime
  -- a verdict, or the name of an exception's type
  pub verifier : VerificationRequest → Result String VerificationResult
  pub context : RunContext
  pub task_id : String
  pub workspace : Option String

pub record Kernel : Type 0 where
  pub checkpoints : Checkpoints
  pub trace : List KernelEvent
  pub usage : Usage
  pub messages : List Message
  pub evidence : List ToolEvidence
  pub started : Bool
  pub finished : Bool
  pub checkpoint_revision : ℕ
  pub deadline : Option ℕ

abbrev pub Run : Type 0 → Type 0
Run A = Action Kernel KernelError A

abbrev pub log : KernelEvent → Run (Unit {0})
log e k = (ok tt, record k { trace = k.trace ++ e ∷ [] })

abbrev pub lift_conflict : {A : Type 0} → Result CheckpointConflict A → Result KernelError A
lift_conflict (ok a) = ok a
lift_conflict (raise e) = raise (conflicted e)

abbrev pub on_store : {A : Type 0} → Action Checkpoints CheckpointConflict A → Run A
on_store m k = let (r, rows) = m k.checkpoints in (lift_conflict r, record k { checkpoints = rows })

abbrev pub is_past : Option ℕ → ℕ → Bool
is_past none now = false
is_past (some deadline) now = leb deadline now

-- `_ensure_active`
unfoldable pub ensure_active : Run (Unit {0})
ensure_active = do
  started ← gets (λ (k : Kernel). k.started)
  guard started (misused "kernel not started")
  finished ← gets (λ (k : Kernel). k.finished)
  guard (not finished) (misused "kernel already finished")

-- `_check_deadline`, at the time `now`
unfoldable pub check_deadline : ℕ → Run (Unit {0})
check_deadline now = do
  deadline ← gets (λ (k : Kernel). k.deadline)
  guard (not (is_past deadline now)) (budget_exceeded "deadline exceeded")

module _ (h : Host) where
  abbrev pub state_of : RunStatus → Option String → Option String → Kernel → RunResult
  state_of status final_output error k =
      record (result_of h.task_id status k.messages k.usage k.checkpoint_revision) {
        final_output = final_output;
        error = error;
        run_context = some h.context;
        tool_evidence = k.evidence;
      }

  unfoldable pub save_to_store : RunResult → Run RunResult
  save_to_store result = do
    saved ← on_store (Checkpoint.save result)
    modify (λ (k : Kernel). record k { checkpoint_revision = saved.checkpoint_revision })
    log (shared (checkpoint_saved saved.checkpoint_revision saved.status))
    pure saved

  abbrev pub count_save : RunResult → Run RunResult
  count_save result = do
    modify (λ (k : Kernel). record k { checkpoint_revision = k.checkpoint_revision + 1 })
    pure result

  -- `_save`
  unfoldable pub save : RunStatus → Option String → Option String → Run RunResult
  save status final_output error = do
    result ← gets (state_of status final_output error)
    (if h.runtime.has_checkpoints then save_to_store result else count_save result)

  abbrev deadline_at : ℕ → Option ℕ → Option ℕ
  deadline_at now none = none
  deadline_at now (some wall) = some (now + wall)

  -- `start`
  unfoldable pub start : ℕ → String → List Message → Run (Unit {0})
  start now task instructions = do
    started ← gets (λ (k : Kernel). k.started)
    guard (not started) (misused "kernel already started")
    modify (λ (k : Kernel). record k {
      started = true;
      messages = instructions ++ said user task ∷ [];
      deadline = deadline_at now h.runtime.budget.max_wall_ms;
    })
    log (shared (run_started h.workspace))
    first ← save running none none
    pure tt

  -- `checkpoint`
  unfoldable pub checkpoint : Run RunResult
  checkpoint = do ensure_active; save running none none

  -- `emit`
  unfoldable pub emit : String → String → Run (Unit {0})
  emit event_type payload = do
    started ← gets (λ (k : Kernel). k.started)
    guard started (misused "kernel not started")
    log (emitted event_type payload)
