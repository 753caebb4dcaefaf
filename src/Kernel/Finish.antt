-- ===== src/Kernel/Finish.antt =====
-- `verify` and `finish` of sdk/kernel.py, and the calls of an orchestrator in any order.
use forgeharness.Common.{
  ℕ, String, Bool, true, not, ◌||◌, Option, none, some, List, [], ◌∷◌, Result, ok, raise, pure,
  gets, guard, modify, throw, ◌>>=◌, ◌>>◌, if◌then◌else◌, ◌==◌, or_else, join,
}
use forgeharness.Domain.{
  RunResult, RunStatus, created, running, awaiting_approval, succeeded, run_failed, RunStatus_eq,
  Message, ToolCall, ToolEvidence,
}
use forgeharness.Agent.{
  VerificationRequest, VerificationResult, verification_failed, verification_passed,
  verification_rejected, run_finished,
}
use forgeharness.Kernel.Setting.{
  Host, Kernel, shared, misused, Run, log, ensure_active, save, start, checkpoint, emit,
}
use forgeharness.Kernel.Calls.{call_model, call_tool}

-- How a run ends.
pub record Ending : Type 0 where
  pub status : RunStatus
  pub final_output : Option String
  pub error : Option String

-- A call of the kernel's methods.
pub data KernelCall : Type 0 where
  start_call : ℕ → String → List Message → KernelCall
  checkpoint_call : KernelCall
  emit_call : String → String → KernelCall
  model_call : ℕ → Option (List Message) → KernelCall
  tool_call : ℕ → ToolCall → KernelCall
  verify_call : String → KernelCall
  finish_call : Option String → RunStatus → Option String → KernelCall

module _ (h : Host) where
  abbrev pub question : String → List ToolEvidence → VerificationRequest
  question final evidence = record {
    task_id = h.task_id;
    final = final;
    workspace = h.workspace;
    tool_results = evidence;
    run_context = some h.context;
  }

  abbrev pub report : Result String VerificationResult → Run VerificationResult
  report (raise name) = do
    log (shared (verification_failed name))
    throw (misused (join ": " "verification failed" name))
  report (ok v) = do
    log (shared (if v.passed then verification_passed v.reason else verification_rejected v.reason))
    pure v

  -- `verify`
  unfoldable pub verify : String → Run VerificationResult
  verify final = do
    ensure_active
    request ← gets (λ (k : Kernel). question final k.evidence)
    report (h.verifier request)

  abbrev pub verdict : String → Option String → VerificationResult → Ending
  verdict final error v =
      if v.passed
      then record { status = succeeded; final_output = some final; error = error }
      else record {
        status = run_failed;
        final_output = none;
        error = some (join ": " "verification rejected" v.reason);
      }

  abbrev pub judge_success : Option String → Option String → Run Ending
  judge_success none error = pure (record {
    status = run_failed;
    final_output = none;
    error = some "orchestrator reported success without a final action";
  })
  judge_success (some final) error = do v ← verify final; pure (verdict final error v)

  abbrev pub judge : Option String → RunStatus → Option String → Run Ending
  judge final status error =
      if status == succeeded
      then judge_success final error
      else pure (record { status = status; final_output = none; error = error })

  abbrev pub stated_error : Ending → Option String
  stated_error e =
      if e.status == run_failed then some (or_else e.error "orchestrator failed") else e.error

  abbrev pub is_open : RunStatus → Bool
  is_open status = status == created || status == running || status == awaiting_approval

  -- what `finish` does with the ending that it has reached
  unfoldable pub close : Ending → Run RunResult
  close e = do
    log (shared (run_finished e.status (stated_error e)))
    result ← save h e.status e.final_output (stated_error e)
    modify (λ (k : Kernel). record k { finished = true })
    pure result

  -- `finish`
  unfoldable pub finish : Option String → RunStatus → Option String → Run RunResult
  finish final status error = do
    ensure_active
    guard (not (is_open status)) (misused "invalid terminal status")
    ending ← judge final status error
    close ending

  -- the kernel after the call, whether it returns or raises
  unfoldable pub after_call : KernelCall → Kernel → Kernel
  after_call (start_call now task instructions) k = (start h now task instructions k).1
  after_call checkpoint_call k = (checkpoint h k).1
  after_call (emit_call event_type payload) k = (emit h event_type payload k).1
  after_call (model_call now messages) k = (call_model h now messages k).1
  after_call (tool_call now call) k = (call_tool h now call k).1
  after_call (verify_call final) k = (verify final k).1
  after_call (finish_call final status error) k = (finish final status error k).1

  unfoldable pub after_calls : List KernelCall → Kernel → Kernel
  after_calls [] k = k
  after_calls (c ∷ calls) k = after_calls calls (after_call c k)
