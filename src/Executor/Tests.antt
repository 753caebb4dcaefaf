-- ===== src/Executor/Tests.antt =====
-- Small inputs for the journal and the executor, what the program does on them, and the theorems
-- at them.
use native.Mathlib.Decide.{ℕ_discrete}
use text.Mathlib.TextEquality.{eq_iff}
use forgeharness.Common.{
  ◌+◌, ◌≤◌, ◌≡◌, ◌≢◌, refl, true, false, Option, none, some, [], arith, if◌then◌else◌, ok, raise,
  ◌==◌, String_discrete, String_eq, ℕ_eq, Result,
}
use forgeharness.Domain.{
  ToolEffectClass, ToolEffectClass-discrete, ToolErrorCode-discrete, idempotent, non_idempotent,
  ToolOutput, timeout, ToolCall, Usage, write, RunBudget, process_crashed, out_of_rounds, Error,
}
use forgeharness.Journal.{
  Codec, RoundTrips, claim, mark_started, settle, settle_invocation, update_one, row_to_record,
  load_by_id, logical_call-discrete, numbered-discrete, start_attempt, finish_attempt, attempts_for,
  InvocationState-discrete, InvocationRecord, reuse_result, refuse_replay,
}
use forgeharness.Journal.Invariant.{IsValid}
use forgeharness.Retry.{decide_retry, backoff_ms}
use forgeharness.Executor.Setting.{Executor, World}
use forgeharness.Executor.Attempt.{
  Job, emit_backoff, begin_attempt, finish, perform, settle_call, settle_unless_retry, conclude_ok,
  conclude_failed, conclude, round, attempts_from, run_attempts,
}
use forgeharness.Executor.Calls.{job_for, new_record, dispatch_journalled, recover_call}
use forgeharness.Executor.Adding.{dispatches, is_dispatch}
use forgeharness.Executor.Bounds.{dispatches-le-budget, dispatches-once}
use forgeharness.Executor.Termination.{run_attempts-ends}
use forgeharness.Executor.Resume.{recover_call-crashed, recover_call-returned}

abbrev done : ToolOutput
done = record {
  is_ok = true;
  content = "written";
  error = none;
  metadata = "{}";
  usage = none;
  receipt = none;
}

abbrev timed_out : ToolOutput
timed_out = record done {
  is_ok = false;
  error = some (record {
    code = timeout;
    message = "slow";
    recoverable = false;
    details = [];
    suggestion = none;
  });
}

abbrev codec : ToolOutput → Codec
codec o = record {
  sha256 = λ s. s;
  dump = λ _. "{}";
  parse = λ s. if s == "{}" then some o else none;
}

abbrev budget : RunBudget
budget = record {
  max_steps = 12;
  max_tool_calls = 20;
  max_input_tokens = 100000;
  max_output_tokens = 20000;
  max_context_tokens = 32000;
  reserve_output_tokens = 0;
  request_overhead_tokens = 0;
  max_protocol_violations = 3;
  max_attempts_per_call = 3;
  initial_backoff_ms = 100;
  backoff_numerator = 2;
  backoff_denominator = 1;
  max_backoff_ms = 1000;
  max_wall_ms = none;
  tool_timeout_ms = 30000;
  max_planner_retries = 1;
}

-- every tool has the given effect class, and yields the given outcome
abbrev executor : ToolEffectClass → Option ToolOutput → Executor
executor effect outcome = record {
  codec = codec done;
  args_digest = λ s. s;
  decimal = λ n. if n == 1 then "1" else (if n == 2 then "2" else "3");
  registry =
      λ name. some (record { name = name; risk = write; effect_class = effect; timeout_ms = 1000 });
  dispatch = λ _ _. outcome;
  budget = budget;
  step_limit = 12;
  run_context = none;
  before_attempt = λ _. true;
  attempt_usage = λ _. none;
  clock = λ _. 7;
}

abbrev call : ToolCall
call = record { id = "c1"; name = "write_file"; arguments = "{}" }

abbrev nothing_used : Usage
nothing_used = record { steps = 0; tool_calls = 0; input_tokens = 0; output_tokens = 0 }

abbrev start : World
start = record { db = record { invocations = []; attempts = [] }; trace = [] }

abbrev after : ToolEffectClass → Option ToolOutput → Result Error ToolOutput × World
after effect outcome =
    dispatch_journalled (executor effect outcome) "t1" call none nothing_used 0 start

start-IsValid : IsValid start.db
start-IsValid = omega arith

done-RoundTrips : RoundTrips (codec done) done
unfolding String_discrete
done-RoundTrips = record { parses = refl; is_text = λ e. ground (arith, eq_iff "{}" "") }

after-done : after non_idempotent (some done) ≡ (ok done, (after non_idempotent (some done)).1)
unfolding dispatch_journalled run_attempts attempts_from round conclude conclude_ok conclude_failed
    settle_unless_retry settle_call perform finish begin_attempt emit_backoff decide_retry claim
    mark_started settle settle_invocation update_one load_by_id row_to_record String_discrete
    ℕ_discrete logical_call-discrete numbered-discrete start_attempt finish_attempt attempts_for
    InvocationState-discrete ToolErrorCode-discrete ToolEffectClass-discrete
after-done = refl

recover_call-returned_example :
    let (result, w) = after non_idempotent (some done) in
    (rec : InvocationRecord) × ((recover_call (executor non_idempotent (some done)) "t1" "c1" w).0
      ≡ ok (some (rec, reuse_result)))
    × (rec.result ≡ some done)
recover_call-returned_example =
    recover_call-returned (executor non_idempotent (some done)) "t1" call none nothing_used 0 done
      start (after non_idempotent (some done)).1 start-IsValid done-RoundTrips after-done

after-crash : after non_idempotent none ≡ (raise process_crashed, (after non_idempotent none).1)
unfolding dispatch_journalled run_attempts attempts_from round perform finish begin_attempt
    emit_backoff claim mark_started update_one load_by_id row_to_record String_discrete ℕ_discrete
    logical_call-discrete numbered-discrete start_attempt attempts_for InvocationState-discrete
after-crash = refl

recover_call-crashed_example :
    (rec : InvocationRecord) × ((recover_call
        (executor non_idempotent none)
        "t1"
        "c1"
        (after non_idempotent none).1).0
      ≡ ok (some (rec, refuse_replay)))
unfolding ToolEffectClass-discrete
recover_call-crashed_example =
    recover_call-crashed (executor non_idempotent none) "t1" call none nothing_used 0 start
      (after non_idempotent none).1 start-IsValid after-crash

abbrev many_times : Result Error ToolOutput × World
many_times = after idempotent (some timed_out)

dispatches-le-budget_example : dispatches many_times.1.trace ≤ dispatches start.trace + 3
dispatches-le-budget_example =
    dispatches-le-budget (executor idempotent (some timed_out)) "t1" call none nothing_used 0 start

dispatches-once_example :
    dispatches (after non_idempotent (some timed_out)).1.trace ≤ dispatches start.trace + 1
unfolding ToolEffectClass-discrete
dispatches-once_example =
    dispatches-once (executor non_idempotent (some timed_out)) "t1" call none nothing_used 0 refl
      start

three_dispatches : dispatches many_times.1.trace ≡ 3
unfolding dispatch_journalled run_attempts attempts_from round conclude conclude_failed
    settle_unless_retry settle_call perform finish begin_attempt emit_backoff decide_retry
    backoff_ms claim mark_started settle settle_invocation update_one load_by_id row_to_record
    String_discrete ℕ_discrete logical_call-discrete numbered-discrete start_attempt finish_attempt
    attempts_for InvocationState-discrete ToolErrorCode-discrete ToolEffectClass-discrete
    is_dispatch dispatches
three_dispatches = refl

abbrev job : Job
job =
    job_for (executor idempotent (some timed_out)) "t1" call none nothing_used 0
      (new_record (executor idempotent (some timed_out)) "t1" call 0)

run_attempts-ends_example :
    (run_attempts (executor idempotent (some timed_out)) job start).0 ≢ raise out_of_rounds
run_attempts-ends_example = run_attempts-ends (executor idempotent (some timed_out)) job start
