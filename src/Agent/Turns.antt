-- ===== src/Agent/Turns.antt =====
-- The parts of a round that run no tool (runtime/loop.py): they are quiet, and where the loop goes
-- on after them the usage is known.
use forgeharness.Common.{
  ℕ, ◌≡◌, refl, String, Bool, true, false, Option, none, some, Result, ok, raise, pure, continue,
  ◌>>=◌, ◌>>◌, if◌then◌else◌,
}
use forgeharness.Domain.{assistant, RunResult, RunStatus, Usage, ToolCall, ToolSpec, ToolOutput}
use forgeharness.Executor
use forgeharness.Todos.{TodoSnapshot}
use forgeharness.Agent.Setting.{
  log, verification_passed, verification_rejected, Runtime, Run, World, AgentError, lift_error,
  ModelFault, PolicyDecision, VerificationRequest, VerificationResult,
}
use forgeharness.Agent.Pieces.{
  Progress, Turn, ended, again, trace_todo_update, absorb, report_decision, saying, said,
  blocking_board,
}
use forgeharness.Agent.Loop.{
  authorize_call, finish, save_again, handle_violation, reject_final, handle_verdict, verify_final,
  gate_final, take_final, suspend, refuse_reused,
}
use forgeharness.Agent.Quiet.{
  Quiet, quiet_rules, Raises, IsBenign, checkpoint-Quiet, save_running-Quiet, finish_run-Quiet,
  request_count, dispatch_count, Quiet-bind, Quiet-gets,
}

abbrev pub GoesOn : (Progress → Type 0) → Result AgentError Turn → Type 0
GoesOn Q (ok (again q)) = Q q
GoesOn Q _ = Unit

module _ (x : Runtime) where
  pub trace_todo_update-Quiet :
      (call : ToolCall) (o : ToolOutput) → Quiet (trace_todo_update x call o)
  unfolding trace_todo_update request_count dispatch_count
  trace_todo_update-Quiet call o = search quiet_rules

  pub absorb-Quiet : (call : ToolCall) (o : ToolOutput) (p : Progress) → Quiet (absorb x call o p)
  unfolding absorb request_count dispatch_count
  absorb-Quiet call o p = search quiet_rules

  report_decision-Quiet :
      (emit : Bool) (call : ToolCall) (d : PolicyDecision) → Quiet (report_decision x emit call d)
  unfolding report_decision request_count dispatch_count
  report_decision-Quiet true call d = search quiet_rules
  report_decision-Quiet false call d = search quiet_rules

-- A quiet part of a round, after which the loop goes on with the usage `u` only.
pub record QuietTurn (u : Usage) (m : Run Turn) : Type 0 where
  pub quiet : Quiet m
  pub goes_on : (w : World) → GoesOn (λ q. q.usage ≡ u) (m w).0

module _ {A : Type 0} (u : Usage) where
  continue-GoesOn :
      (r : Result AgentError A) (f : A → Run Turn)
      → ((a : A) → QuietTurn u (f a))
      → (w : World) → GoesOn (λ q. q.usage ≡ u) (continue r f w).0
  continue-GoesOn (ok a) f h w = (h a).goes_on w
  continue-GoesOn (raise e) f h w = tt

  pub QuietTurn-bind :
      (m : Run A) (f : A → Run Turn)
      → Quiet m
      → ((a : A) → QuietTurn u (f a))
      → QuietTurn u (m >>= f)
  QuietTurn-bind m f q h = record {
    quiet = Quiet-bind m f q (λ a. (h a).quiet);
    goes_on = λ w. continue-GoesOn (m w).0 f h (m w).1;
  }

  pub QuietTurn-then : (m : Run A) (k : Run Turn) → Quiet m → QuietTurn u k → QuietTurn u (m >> k)
  QuietTurn-then m k q h = QuietTurn-bind m (λ _. k) q (λ _. h)

module _ (u : Usage) where
  pub QuietTurn-if :
      (b : Bool) (m n : Run Turn) → QuietTurn u m → QuietTurn u n → QuietTurn u (if b then m else n)
  QuietTurn-if true m n p q = p
  QuietTurn-if false m n p q = q

  pub QuietTurn-ended : (r : RunResult) → QuietTurn u (pure (ended r))
  QuietTurn-ended r = record { quiet = search quiet_rules; goes_on = λ w. tt }

  pub QuietTurn-again : (p : Progress) → p.usage ≡ u → QuietTurn u (pure (again p))
  QuietTurn-again p e = record { quiet = search quiet_rules; goes_on = λ w. e }

pub ruleset turn_rules =
    (quiet_rules, QuietTurn-bind, QuietTurn-then, QuietTurn-if, QuietTurn-ended, QuietTurn-again)

module _ (x : Runtime) (task : String) (workspace : Option String) where
  authorize-Raises :
      (e : Executor.Executor) (evaluate : String → ToolSpec → ToolCall → PolicyDecision)
      (call : ToolCall)
      → Raises (lift_error (Executor.authorize e evaluate call task false))
  unfolding Executor.authorize
  authorize-Raises e evaluate call = by_spec (e.registry call.name) refl
    where
      by_spec :
          (o : Option ToolSpec)
          → e.registry call.name ≡ o
          → Raises (lift_error (Executor.authorize e evaluate call task false))
      by_spec none q = rw (q, Raises) ((λ p. cc), (λ p. cc))
      by_spec (some spec) q = rw (q, Raises) tt

  pub authorize_call-Quiet :
      (steps : ℕ) (emit : Bool) (call : ToolCall)
      → Quiet (authorize_call x task workspace steps emit call)
  unfolding authorize_call
  authorize_call-Quiet steps emit call =
      search (quiet_rules, authorize-Raises, report_decision-Quiet)

  module _ (p : Progress) where
    pub finish-QuietTurn :
        (u : Usage) (status : RunStatus) (final_output error : Option String)
        → QuietTurn u (finish x task workspace p status final_output error)
    unfolding finish
    finish-QuietTurn u status final_output error = search (turn_rules, finish_run-Quiet)

    pub save_again-QuietTurn :
        (u : Usage) → p.usage ≡ u → QuietTurn u (save_again x task workspace p)
    unfolding save_again
    save_again-QuietTurn u e = search (turn_rules, save_running-Quiet)

  module _ (p : Progress) where
    pub handle_violation-QuietTurn :
        (e : ModelFault) → QuietTurn p.usage (handle_violation x task workspace p e)
    unfolding handle_violation request_count dispatch_count
    handle_violation-QuietTurn e = search (turn_rules, finish-QuietTurn, save_again-QuietTurn)

    reject_final-QuietTurn :
        (s : TodoSnapshot) (n : ℕ) → QuietTurn p.usage (reject_final x task workspace p s n)
    unfolding reject_final request_count dispatch_count
    reject_final-QuietTurn s n = search (turn_rules, finish-QuietTurn, save_again-QuietTurn)

    verdict_logged :
        (v : VerificationResult)
        → Quiet (
            log (if v.passed then verification_passed v.reason else verification_rejected v.reason))
    unfolding request_count dispatch_count
    verdict_logged v = by_verdict v.passed
      where
        by_verdict :
            (b : Bool)
            → Quiet
                (log (if b then verification_passed v.reason else verification_rejected v.reason))
        by_verdict true = search quiet_rules
        by_verdict false = search quiet_rules

    handle_verdict-QuietTurn :
        (text : String) (r : Result String VerificationResult)
        → QuietTurn p.usage (handle_verdict x task workspace p text r)
    unfolding handle_verdict request_count dispatch_count
    handle_verdict-QuietTurn text (raise e) = search (turn_rules, finish-QuietTurn)
    handle_verdict-QuietTurn text (ok v) =
        search (turn_rules, verdict_logged, finish-QuietTurn, save_again-QuietTurn)

    verify_final-QuietTurn :
        (text : String) (v : Option (ℕ → VerificationRequest → Result String VerificationResult))
        → QuietTurn p.usage (verify_final x task workspace p text v)
    unfolding verify_final
    verify_final-QuietTurn text none = search finish-QuietTurn
    verify_final-QuietTurn text (some v) = search (turn_rules, handle_verdict-QuietTurn)

    gate_final-QuietTurn :
        (text : String) (o : Option TodoSnapshot)
        → QuietTurn p.usage (gate_final x task workspace p text o)
    unfolding gate_final
    gate_final-QuietTurn text none = search verify_final-QuietTurn
    gate_final-QuietTurn text (some s) = search (turn_rules, reject_final-QuietTurn)

  module _ (p : Progress) where
    pub take_final-QuietTurn :
        (text : String) → QuietTurn p.usage (take_final x task workspace p text)
    unfolding take_final
    take_final-QuietTurn text =
        QuietTurn-bind p.usage _ _ (Quiet-gets (λ (w : World). blocking_board w.todos))
          (gate_final-QuietTurn (saying (said assistant text) p) text)

    pub suspend-QuietTurn :
        (call : ToolCall) (reason : String)
        → QuietTurn p.usage (suspend x task workspace p call reason)
    unfolding suspend request_count dispatch_count
    suspend-QuietTurn call reason = search (turn_rules, checkpoint-Quiet)

    pub refuse_reused-QuietTurn :
        (call : ToolCall) → QuietTurn p.usage (refuse_reused x task workspace p call)
    unfolding refuse_reused request_count dispatch_count
    refuse_reused-QuietTurn call = search (turn_rules, finish-QuietTurn)
