-- ===== src/Kernel/Calls.antt =====
-- `call_model` and `call_tool` of sdk/kernel.py. A call begins at the time `now`.
use forgeharness.Common.{
  ℕ, Bool, true, false, not, ◌&&◌, Option, none, some, List, [], ◌∷◌, ◌++◌, map, Result, ok, raise,
  pure, gets, guard, modify, throw, or_raise, ◌>>=◌, ◌>>◌, leb, ltb, ◌==◌, or_else, join,
}
use forgeharness.Domain.{Message, Usage, ToolCall, ToolOutput, Error}
use forgeharness.Executor
use forgeharness.Executor.{account_usage}
use forgeharness.Agent
use forgeharness.Agent.{
  Runtime, AgentEvent, AgentError, ModelResult, ModelRequest, ModelCallKind, success, overflowed,
  preparation_failed, failed, violated, ModelCallOutcome, invoke_model_once, tokens_exhausted,
  PolicyDecision, allow, PolicyDecisionType_eq, policy_decided, evidence_of, executor, fault_code,
}
use forgeharness.Kernel.Setting.{
  Host, Kernel, shared, tool_started, tool_ended, KernelError, misused, budget_exceeded,
  tool_denied, tool_raised, Run, log, ensure_active, check_deadline,
}

-- The runtime's model call works on a trace of its own.
abbrev model_world : Kernel → Agent.World
model_world k = record {
  journal = record { invocations = []; attempts = [] };
  checkpoints = k.checkpoints;
  trace = [];
  todos = none;
  todo_rejections = 0;
  context = none;
  evidence = [];
  authorized = none;
}

abbrev model_error : {A : Type 0} → Result AgentError A → Result KernelError A
model_error (ok a) = ok a
model_error (raise e) = raise (misused "model call returned no result")

abbrev pub on_model : {A : Type 0} → Agent.Run A → Run A
on_model m k =
    let (r, w) = m (model_world k) in
    (model_error r, record k { trace = k.trace ++ map shared w.trace })

abbrev tool_error : {A : Type 0} → Result Error A → Result KernelError A
tool_error (ok a) = ok a
tool_error (raise e) = raise (tool_raised e)

-- An executor without a journal keeps no state and traces nothing.
abbrev pub on_tool : {A : Type 0} → Executor.Run A → Run A
on_tool m k =
    let w : Executor.World = record {
      db = record { invocations = []; attempts = [] };
      trace = [];
    } in
    (tool_error (m w).0, k)

module _ (h : Host) where
  abbrev pub settle_kind : ModelCallKind → Run ModelResult
  settle_kind (overflowed text) = throw (budget_exceeded "context budget exceeded")
  settle_kind (preparation_failed text) = throw (misused "model request preparation failed")
  settle_kind (failed e) = throw (misused (join ": " "model call failed" e.name))
  settle_kind (violated e) = throw (misused (join ": " "model protocol violation" (fault_code e)))
  settle_kind (success r) = do
    usage ← gets (λ (k : Kernel). k.usage)
    guard (not (tokens_exhausted h.runtime usage)) (budget_exceeded "token budget exhausted")
    pure r

  abbrev request_for : Option (List Message) → Kernel → ModelRequest
  request_for messages k = record { task_id = h.task_id; messages = or_else messages k.messages }

  -- `_call_model`
  unfoldable pub call_model : ℕ → Option (List Message) → Run ModelResult
  call_model now messages = do
    ensure_active
    check_deadline now
    usage ← gets (λ (k : Kernel). k.usage)
    guard (ltb usage.steps h.runtime.budget.max_steps) (budget_exceeded "step budget exhausted")
    request ← gets (request_for messages)
    outcome ← on_model (invoke_model_once h.runtime usage request)
    modify (λ (k : Kernel). record k { usage = outcome.usage })
    settle_kind outcome.kind

  abbrev pub kernel_executor : ToolCall → Executor.Executor
  kernel_executor call = executor h.runtime (some h.context) call.id

  -- `authorize` with `read_only=True`, at the steps charged so far
  abbrev pub read_only_decision : Usage → ToolCall → Result Error PolicyDecision
  read_only_decision usage call =
      Executor.authorize (kernel_executor call) (h.runtime.evaluate usage.steps) call h.task_id true

  abbrev pub decide : Result Error PolicyDecision → Run PolicyDecision
  decide (raise e) = throw (tool_denied "custom orchestrators may only call read-only tools")
  decide (ok d) = pure d

  abbrev pub is_within : Usage → Bool
  is_within usage =
      let budget = h.runtime.budget in
      leb usage.steps budget.max_steps
      && leb usage.tool_calls budget.max_tool_calls
      && leb usage.input_tokens budget.max_input_tokens
      && leb usage.output_tokens budget.max_output_tokens

  -- what `_call_tool` does once the call is allowed
  unfoldable pub run_tool : ToolCall → Usage → Run ToolOutput
  run_tool call usage = do
    log (tool_started call)
    output ←
        on_tool
          (Executor.dispatch (kernel_executor call) false h.task_id call h.workspace usage 0 none)
    modify (λ (k : Kernel). record k {
      usage = account_usage k.usage output.usage;
      evidence = k.evidence ++ evidence_of call output ∷ [];
    })
    log (tool_ended call output.is_ok)
    after ← gets (λ (k : Kernel). k.usage)
    guard (is_within after) (budget_exceeded "nested tool budget exhausted")
    pure output

  -- the calls that the kernel runs: the decision is on a read-only tool
  unfoldable pub run_decided : ToolCall → Usage → Result Error PolicyDecision → Run ToolOutput
  run_decided call usage r = do
    d ← decide r
    log (shared (policy_decided call d))
    guard (d.type == allow) (tool_denied (join ": " "tool not allowed" d.reason))
    run_tool call usage

  -- `_call_tool`
  unfoldable pub call_tool : ℕ → ToolCall → Run ToolOutput
  call_tool now call = do
    ensure_active
    check_deadline now
    usage ← gets (λ (k : Kernel). k.usage)
    guard (ltb usage.tool_calls h.runtime.budget.max_tool_calls)
        (budget_exceeded "tool-call budget exhausted")
    spec ← or_raise (misused (join ": " "unknown tool" call.name)) (h.runtime.registry call.name)
    run_decided call usage (read_only_decision usage call)
