-- ===== src/Agent/Rounds.antt =====
-- One round of the loop, whatever the model decides (runtime/loop.py).
use forgeharness.Common.{
  ◌<◌, ◌≡◌, refl, ◌∙◌, arith, String, Bool, true, false, Option, none, some, Result, ok, raise,
  continue, ◌>>=◌, if◌then◌else◌, leb,
}
use forgeharness.Domain.{run_failed, exhausted, Usage, ToolCall, ToolSpec}
use forgeharness.Agent.Setting.{
  Runtime, Run, World, AgentError, PolicyDecision, PolicyDecisionType, allow, deny,
  require_approval, tool_unknown, log, AgentAction, tool_action, final_action,
}
use forgeharness.Agent.Snapshots.{outstanding_call}
use forgeharness.Agent.ModelCall.{
  ModelCallKind, success, overflowed, preparation_failed, failed, violated,
}
use forgeharness.Agent.Pieces.{Progress, Turn, saying, requesting, is_reused, tokens_exhausted}
use forgeharness.Agent.Loop.{
  by_policy, admit_call, authorize_call, take_tool, take_action, handle_outcome, finish,
  refuse_reused,
}
use forgeharness.Agent.Quiet.{
  Quiet, Raises, requests, dispatched, IsKeyed, request_count, dispatch_count, Quiet-log,
}
use forgeharness.Agent.Turns.{
  QuietTurn, QuietTurn-then, authorize_call-Quiet, save_again-QuietTurn, suspend-QuietTurn,
  refuse_reused-QuietTurn, finish-QuietTurn, handle_violation-QuietTurn, take_final-QuietTurn,
}
use forgeharness.Agent.Turning.{Turning, quiet-Turning}
use forgeharness.Agent.Dispatching.{outstanding_call-append}
use forgeharness.Agent.Admitting.{run_admitted-Turning, Turned, Turned-Turning, one_more}

-- The parts of a round, from the outcome of the model on.
module _ (x : Runtime) (task : String) (workspace : Option String) where
  quiet_part : (p : Progress) (m : Run Turn) → QuietTurn p.usage m → Turning x task p.usage m
  quiet_part p m q = quiet-Turning x task p.usage p.usage (omega arith) (omega arith) m q

  charged_part :
      (p : Progress) (m : Run Turn) → QuietTurn (one_more p.usage) m → Turning x task p.usage m
  charged_part p m q =
      quiet-Turning x task p.usage (one_more p.usage) (omega arith) (omega arith) m q

  module _ {A : Type 0} (u : Usage) (f : A → Run Turn) (t : (a : A) → Turning x task u (f a)) where
    continue-Turning :
        (r : Result AgentError A) (w0 w : World)
        → requests w ≡ requests w0
        → dispatched w ≡ dispatched w0
        → (IsKeyed w0 → IsKeyed w)
        → Raises r
        → Turned x task u w0 (continue r f w)
    continue-Turning (ok a) w0 w asked ran keyed g = record {
      asks = (t a).asks w ∙ asked;
      paid = omega (arith, (t a).paid w, ran);
      steps = (t a).steps w;
      keyed = λ k. (t a).keyed w (keyed k);
      bounded = (t a).bounded w;
      crashed = λ has k c. (t a).crashed w has (keyed k) c;
    }
    continue-Turning (raise e) w0 w asked ran keyed g = record {
      asks = asked;
      paid = omega (arith, ran);
      steps = tt;
      keyed = keyed;
      bounded = λ b. g.0 cc;
      crashed = λ has k c. absurd (g.1 cc);
    }

    after-Turning : (m : Run A) → Quiet m → Turning x task u (m >>= f)
    after-Turning m q =
        Turned-Turning x task u (m >>= f)
          λ w. continue-Turning (m w).0 w (m w).1 (q.asks w) (q.runs w) (q.keyed w) (q.raises w)

  module _ (p : Progress) (call : ToolCall) (lt : p.usage.tool_calls < x.budget.max_tool_calls)
      (out : outstanding_call p.messages ≡ some call) where
    by_policy-Turning :
        (d : PolicyDecisionType) (reason : String)
        → Turning x task p.usage (by_policy x task workspace p call d reason)
    unfolding by_policy
    by_policy-Turning allow reason = run_admitted-Turning x task workspace p call lt out
    by_policy-Turning deny reason =
        charged_part p _ (save_again-QuietTurn x task workspace _ (one_more p.usage) refl)
    by_policy-Turning require_approval reason =
        quiet_part p _ (suspend-QuietTurn x task workspace p call reason)

    admit_call-Turning :
        (o : Option ToolSpec) → Turning x task p.usage (admit_call x task workspace p call o)
    unfolding admit_call request_count dispatch_count
    admit_call-Turning none = charged_part p _ (
        QuietTurn-then (one_more p.usage) (log (tool_unknown call)) _
          (Quiet-log (tool_unknown call) refl refl)
          (save_again-QuietTurn x task workspace _ (one_more p.usage) refl))
    admit_call-Turning (some spec) =
        after-Turning p.usage
          (λ (d : PolicyDecision). by_policy x task workspace p call d.type d.reason)
          (λ d. by_policy-Turning d.type d.reason)
          (authorize_call x task workspace p.usage.steps true call)
          (authorize_call-Quiet x task workspace p.usage.steps true call)

  if-Turning :
      (u : Usage) (b : Bool) (m n : Run Turn)
      → (b ≡ true → Turning x task u m)
      → (b ≡ false → Turning x task u n)
      → Turning x task u (if b then m else n)
  if-Turning u true m n p q = p refl
  if-Turning u false m n p q = q refl

  module _ (p : Progress) where
    abbrev within_calls : ToolCall → Run Turn
    within_calls call =
        if leb x.budget.max_tool_calls p.usage.tool_calls
        then finish x task workspace p exhausted none (some "tool-call budget exhausted")
        else admit_call x task workspace (saying (requesting call) p) call (x.registry call.name)

    take_tool-Turning :
        (call : ToolCall) → Turning x task p.usage (take_tool x task workspace p call)
    unfolding take_tool
    take_tool-Turning call =
        if-Turning p.usage (is_reused call.id p.messages) (refuse_reused x task workspace p call)
          (within_calls call)
          (λ _. quiet_part p _ (refuse_reused-QuietTurn x task workspace p call))
          λ _.
            if-Turning p.usage (leb x.budget.max_tool_calls p.usage.tool_calls)
              (finish x task workspace p exhausted none (some "tool-call budget exhausted"))
              (admit_call x task workspace (saying (requesting call) p) call (x.registry call.name))
              (λ _. quiet_part p _ (
                finish-QuietTurn x task workspace p p.usage exhausted none
                  (some "tool-call budget exhausted")))
              λ some_left.
                admit_call-Turning (saying (requesting call) p) call (ground (arith, some_left))
                  (outstanding_call-append p.messages call) (x.registry call.name)

    take_action-Turning :
        (a : AgentAction) → Turning x task p.usage (take_action x task workspace p a)
    unfolding take_action
    take_action-Turning (final_action text) =
        quiet_part p _ (take_final-QuietTurn x task workspace p text)
    take_action-Turning (tool_action call) = take_tool-Turning call

    pub handle_outcome-Turning :
        (k : ModelCallKind) → Turning x task p.usage (handle_outcome x task workspace p k)
    unfolding handle_outcome
    handle_outcome-Turning (overflowed e) =
        quiet_part p _ (finish-QuietTurn x task workspace p p.usage run_failed none _)
    handle_outcome-Turning (preparation_failed e) =
        quiet_part p _ (finish-QuietTurn x task workspace p p.usage run_failed none _)
    handle_outcome-Turning (failed e) =
        quiet_part p _ (finish-QuietTurn x task workspace p p.usage run_failed none _)
    handle_outcome-Turning (violated e) =
        quiet_part p _ (handle_violation-QuietTurn x task workspace p e)
    handle_outcome-Turning (success r) =
        if-Turning p.usage (tokens_exhausted x p.usage)
          (finish x task workspace p exhausted none (some "token budget exhausted"))
          (take_action x task workspace p r.action)
          (λ _. quiet_part p _ (
            finish-QuietTurn x task workspace p p.usage exhausted none
              (some "token budget exhausted")))
          λ _. take_action-Turning r.action
