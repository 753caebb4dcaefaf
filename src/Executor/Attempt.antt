-- ===== src/Executor/Attempt.antt =====
-- `_run_attempts` and `_settle_invocation` of runtime/tool_executor.py.
use forgeharness.Common.{
  ℕ, zero, suc, ◌-◌, String, ◌||◌, Option, none, some, pure, throw, guard, ◌>>=◌, ◌>>◌, ltb, max_by,
  is_some, or_else, join, if◌then◌else◌, ◌==◌,
}
use forgeharness.Domain.{
  ToolEffectClass, ToolErrorCode, timeout, tool_execution_error, ToolErrorCode_eq, ToolOutput,
  ToolCall, ToolContext, Usage, attempts_exhausted, hook_failed, process_crashed, out_of_rounds,
}
use forgeharness.Journal.{
  failed, InvocationRecord, AttemptRecord, AttemptOutcome, attempt_completed, attempt_failed,
  timed_out, settle_invocation, settle, start_attempt, finish_attempt, attempts_for, error_code_of,
}
use forgeharness.Retry.{
  RetryDecision, retry, fail, uncertain, RetryDecision_eq, terminal_state, decide_retry, backoff_ms,
}
use forgeharness.Executor.Setting
use forgeharness.Executor.Setting.{
  Executor, Moment, attempt_begins, attempt_ends, settling, Subject, World, Run, on_journal, emit,
  account_usage, tool_context, retry_backoff, retry_decided, invocation_settled,
}

-- `_error_code_of`
abbrev pub failure_code : ToolOutput → ToolErrorCode
failure_code o = or_else (error_code_of o) tool_execution_error

-- `_attempt_outcome`
abbrev pub attempt_outcome : ToolOutput → AttemptOutcome
attempt_outcome o =
    if o.is_ok
    then attempt_completed
    else (if failure_code o == timeout then timed_out else attempt_failed)

-- What one logical call is run with.
pub record Job : Type 0 where
  pub call : ToolCall
  pub invocation : InvocationRecord
  pub started : InvocationRecord
  pub workspace : Option String
  pub usage : Usage
  pub task_id : String
  pub effect_class : ToolEffectClass

module _ (x : Executor) (job : Job) where
  abbrev pub subject : Subject
  subject = record {
    invocation_id = job.invocation.invocation_id;
    logical_call_id = job.call.id;
    tool = job.call.name;
    effect_class = job.effect_class;
  }

  -- `_effective_tool_timeout`
  abbrev pub effective_timeout : ℕ
  effective_timeout = elim (x.registry job.call.name) [
    | some spec ↦ spec.timeout_ms
    | none ↦ x.budget.tool_timeout_ms
  ]

  -- the delay before attempt `n`; there is none before the first
  abbrev pub delay_before : ℕ → ℕ
  delay_before n =
      if ltb 1 n
      then or_else
          (backoff_ms (n - 1) x.budget.initial_backoff_ms x.budget.backoff_numerator
            x.budget.backoff_denominator x.budget.max_backoff_ms)
          0
      else 0

  -- `f"{record.invocation_id}#{attempt_no}"`
  abbrev pub attempt_id : ℕ → String
  attempt_id n = join "#" job.invocation.invocation_id (x.decimal n)

  abbrev pub attempt_context : ℕ → ToolContext
  attempt_context n =
      record (tool_context x job.task_id job.workspace (or_else (x.attempt_usage n) job.usage)
        (some job.call.id) (some job.invocation.idempotency_key)) {
          attempt_id = some (attempt_id n);
        }

  abbrev pub attempt_record : ℕ → AttemptRecord
  attempt_record n = record {
    attempt_id = attempt_id n;
    invocation_id = job.invocation.invocation_id;
    attempt_no = n;
    started_at = x.clock (attempt_begins n);
    finished_at = none;
    outcome = none;
    error_code = none;
    timeout_ms = effective_timeout;
    backoff_before_ms = delay_before n;
    usage = none;
  }

  abbrev pub finished_attempt : ℕ → ToolOutput → AttemptRecord
  finished_attempt n o = record (attempt_record n) {
    finished_at = some (x.clock (attempt_ends n));
    outcome = some (attempt_outcome o);
    error_code = error_code_of o;
    usage =
        if o.is_ok || is_some o.usage
        then some (
            account_usage
              (record { steps = 0; tool_calls = 0; input_tokens = 0; output_tokens = 0 }) o.usage)
        else none;
  }

  unfoldable pub emit_backoff : ℕ → ℕ → Run (Unit {0})
  emit_backoff n zero = pure tt
  emit_backoff n (suc delay) = emit (retry_backoff subject n (suc delay))

  -- from the delay to the call of the dispatcher
  unfoldable pub begin_attempt : ℕ → Run (Unit {0})
  begin_attempt n = do
    emit_backoff n (delay_before n)
    guard (x.before_attempt n) hook_failed
    on_journal (start_attempt (attempt_record n))
    emit (Setting.attempt_started subject n effective_timeout)

  -- what the attempt's row gets once the tool has returned
  unfoldable pub finish : ℕ → Option ToolOutput → Run ToolOutput
  finish n none = throw process_crashed
  finish n (some o) = do
    on_journal (finish_attempt (x.clock (attempt_ends n)) (finished_attempt n o))
    pure o

  unfoldable pub perform : ℕ → Run ToolOutput
  perform n = finish n (x.dispatch job.call (attempt_context n))

  -- `settle_invocation` on the decision's terminal state, with the number of the last attempt
  abbrev pub settled_record : ToolOutput → ℕ → Option RetryDecision → InvocationRecord
  settled_record o n decision =
      record (settle_invocation x.codec job.started o (x.clock settling)
        (elim decision [ none ↦ failed | some d ↦ or_else (terminal_state d) failed ])) {
          attempt_count = n;
        }

  unfoldable pub settle_call : ToolOutput → ℕ → Option RetryDecision → Run (Unit {0})
  settle_call o n decision = do
    settled ← on_journal (settle x.codec (x.clock settling) (settled_record o n decision))
    emit (invocation_settled subject settled.state n settled.error_code)

  abbrev pub decision_for : ToolOutput → ℕ → RetryDecision
  decision_for o n = decide_retry job.effect_class (failure_code o) n x.budget.max_attempts_per_call

  unfoldable pub settle_unless_retry : ToolOutput → ℕ → RetryDecision → Run (Option ToolOutput)
  settle_unless_retry o n retry = pure none
  settle_unless_retry o n fail = do settle_call o n (some fail); pure (some o)
  settle_unless_retry o n uncertain = do settle_call o n (some uncertain); pure (some o)

  unfoldable pub conclude_ok : ℕ → ToolOutput → Run (Option ToolOutput)
  conclude_ok n o = do
    emit (Setting.attempt_completed subject n)
    settle_call o n none
    pure (some o)

  unfoldable pub conclude_failed : ℕ → ToolOutput → Run (Option ToolOutput)
  conclude_failed n o = do
    emit (Setting.attempt_failed subject n (error_code_of o))
    emit (
        retry_decided subject n (error_code_of o) (decision_for o n) x.budget.max_attempts_per_call)
    settle_unless_retry o n (decision_for o n)

  -- After the tool has returned: the output that ends the call, or nothing for another round.
  unfoldable pub conclude : ℕ → ToolOutput → Run (Option ToolOutput)
  conclude n o = if o.is_ok then conclude_ok n o else conclude_failed n o

  unfoldable pub round : ℕ → Run (Option ToolOutput)
  round n = do begin_attempt n; o ← perform n; conclude n o

  -- The `while True` after the attempt of number `n`. `rounds` is only there for the recursion: the
  -- loop starts with more rounds than the budget has attempts.
  unfoldable pub attempts_from : ℕ → ℕ → Run ToolOutput
  attempts_from zero n = throw out_of_rounds
  attempts_from (suc rounds) n = do
    result ← round (suc n)
    elim result [ some o ↦ pure o | none ↦ attempts_from rounds (suc n) ]

  unfoldable pub run_attempts : Run ToolOutput
  run_attempts = do
    existing ← on_journal (attempts_for job.invocation.invocation_id)
    let last = max_by (λ (a : AttemptRecord). a.attempt_no) existing
    guard (ltb last x.budget.max_attempts_per_call) attempts_exhausted
    attempts_from (suc x.budget.max_attempts_per_call) last
