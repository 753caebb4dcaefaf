-- ===== src/Executor/Setting.antt =====
-- What a `ToolExecutor` is built from, the events it traces, and the context that it gives a tool
-- (runtime/tool_executor.py).
use forgeharness.Common.{
  ℕ, ◌-◌, ◌+◌, String, Bool, Option, none, some, List, [], ◌∷◌, ◌++◌, ok, Action,
}
use forgeharness.Domain.{
  ToolEffectClass, ToolErrorCode, ToolOutput, ToolCall, ToolSpec, ToolContext, RunContext,
  RunBudget, Usage, Error,
}
use forgeharness.Journal.{Db, Codec, Exec, RecoveryDecision, InvocationState}
use forgeharness.Retry.{RetryDecision}

-- The points at which the executor reads the clock.
pub data Moment : Type 0 where
  claiming starting settling recovering : Moment
  attempt_begins attempt_ends : ℕ → Moment

pub record Executor : Type 0 where
  pub codec : Codec
  -- `args_digest` of the call's arguments: JSON, then SHA-256
  pub args_digest : String → String
  -- a number as Python prints it
  pub decimal : ℕ → String
  pub registry : String → Option ToolSpec
  pub dispatch : ToolCall → ToolContext → Option ToolOutput
  pub budget : RunBudget
  pub step_limit : ℕ
  pub run_context : Option RunContext
  -- whether `before_attempt`, where there is one, returns before this attempt
  pub before_attempt : ℕ → Bool
  -- `attempt_usage`, where there is one, before this attempt
  pub attempt_usage : ℕ → Option Usage
  pub clock : Moment → ℕ

-- The fields that name the call in every event's payload.
pub record Subject : Type 0 where
  pub invocation_id : String
  pub logical_call_id : String
  pub tool : String
  pub effect_class : ToolEffectClass

pub data Event : Type 0 where
  invocation_claimed : Subject → Event
  invocation_started : Subject → ℕ → Event
  retry_backoff : Subject → ℕ → ℕ → Event
  attempt_started : Subject → ℕ → ℕ → Event
  attempt_completed : Subject → ℕ → Event
  attempt_failed : Subject → ℕ → Option ToolErrorCode → Event
  retry_decided : Subject → ℕ → Option ToolErrorCode → RetryDecision → ℕ → Event
  invocation_settled : Subject → InvocationState → ℕ → Option ToolErrorCode → Event
  recovery_decided : Subject → ℕ → InvocationState → RecoveryDecision → Event
  recovery_indeterminate : Subject → ℕ → Event

-- The journal's tables and the trace.
pub record World : Type 0 where
  pub db : Db
  pub trace : List Event

abbrev pub Run : Type 0 → Type 0
Run A = Action World Error A

abbrev pub on_journal : {A : Type 0} → Exec A → Run A
on_journal m w = let (r, db') = m w.db in (r, record w { db = db' })

abbrev pub emit : Event → Run (Unit {0})
emit e w = (ok tt, record w { trace = w.trace ++ e ∷ [] })

-- `ToolExecutor.account_usage`
abbrev pub account_usage : Usage → Option Usage → Usage
account_usage usage none = record usage { tool_calls = usage.tool_calls + 1 }
account_usage usage (some child) = record {
  steps = usage.steps + child.steps;
  tool_calls = usage.tool_calls + 1 + child.tool_calls;
  input_tokens = usage.input_tokens + child.input_tokens;
  output_tokens = usage.output_tokens + child.output_tokens;
}

-- `_tool_context`; each allowance stops at 0.
abbrev pub tool_context :
    Executor → String → Option String → Usage → Option String → Option String → ToolContext
tool_context x task_id workspace usage logical_call_id idempotency_key = record {
  task_id = task_id;
  workspace = workspace;
  run_context = x.run_context;
  attempt_id = none;
  allowance = record {
    remaining_steps = x.step_limit - usage.steps;
    remaining_tool_calls = x.budget.max_tool_calls - usage.tool_calls - 1;
    remaining_input_tokens = x.budget.max_input_tokens - usage.input_tokens;
    remaining_output_tokens = x.budget.max_output_tokens - usage.output_tokens;
  };
  logical_call_id = logical_call_id;
  idempotency_key = idempotency_key;
}
