-- ===== src/Agent/Tests.antt =====
-- A small runtime, what its loop does, and the theorems at it.
use native.Mathlib.Decide.{ℕ_discrete}
use forgeharness.Common.{
  ℕ, ◌+◌, ◌*◌, ◌≤◌, ◌≡◌, ◌≢◌, refl, true, Option, none, some, List, [], ◌∷◌, Result, ok, raise,
  if◌then◌else◌, ◌==◌, ℕ_eq, String_discrete,
}
use forgeharness.Domain.{
  RunResult, succeeded, Usage, ToolCall, ToolOutput, RunBudget, Message, user, write,
  non_idempotent, process_crashed, ToolEffectClass-discrete,
}
use forgeharness.Domain.{RiskLevel-discrete}
use forgeharness.Checkpoint
use forgeharness.Checkpoint.{write_snapshot}
use forgeharness.Journal.{
  claim, mark_started, settle, settle_invocation, update_one, row_to_record, load_by_id,
  logical_call-discrete, numbered-discrete, start_attempt, finish_attempt, attempts_for,
  InvocationState-discrete,
}
use forgeharness.Executor
use forgeharness.Executor.{
  authorize, dispatch_journalled, run_attempts, attempts_from, round, begin_attempt, emit_backoff,
  perform, conclude, conclude_ok, settle_call,
}
use forgeharness.Agent.ModelCall.{
  invoke_model_once, invoke_prepared, dispatch_model_once, settle_reply,
}
use forgeharness.Agent.Snapshots.{result_of, save_running, checkpoint, store_snapshot, finish_run}
use forgeharness.Agent.Setting.{
  Runtime, World, AgentError, tool_error, out_of_rounds, AgentAction, tool_action, final_action,
  prepared, allow,
}
use forgeharness.Agent.Pieces.{said, report_decision, absorb, trace_todo_update}
use forgeharness.Agent.Loop.{
  drive, rounds, turn, step, handle_outcome, take_action, take_tool, admit_call, authorize_call,
  by_policy, run_admitted, dispatch_tool, take_output, save_again, take_final, gate_final,
  verify_final, handle_verdict, finish,
}
use forgeharness.Agent.Quiet.{requests, dispatched}
use forgeharness.Agent.Turning.{IsAdmitted}
use forgeharness.Agent.Bounds.{drive-ends, requests-le-steps, dispatched-le-attempts, drive-crashed}
use forgeharness.Agent.Earning.{IsEarned}
use forgeharness.Agent.Success.{drive-succeeded}

abbrev pub written : ToolOutput
written = record {
  is_ok = true;
  content = "written";
  error = none;
  metadata = "{}";
  usage = none;
  receipt = none;
}

abbrev budget : RunBudget
budget = record {
  max_steps = 3;
  max_tool_calls = 2;
  max_input_tokens = 1000;
  max_output_tokens = 1000;
  max_context_tokens = 32000;
  reserve_output_tokens = 0;
  request_overhead_tokens = 0;
  max_protocol_violations = 3;
  max_attempts_per_call = 2;
  initial_backoff_ms = 100;
  backoff_numerator = 2;
  backoff_denominator = 1;
  max_backoff_ms = 1000;
  max_wall_ms = none;
  tool_timeout_ms = 30000;
  max_planner_retries = 1;
}

abbrev pub call : ToolCall
call = record { id = "c1"; name = "write_file"; arguments = "{}" }

-- The model calls a tool at its first step, and then ends the run.
abbrev decisions : ℕ → AgentAction
decisions steps = if steps == 0 then tool_action call else final_action "all done"

abbrev pub runtime : Option ToolOutput → Runtime
runtime outcome = record {
  budget = budget;
  prepare = λ _ _ request. prepared request;
  decide =
      λ steps _. ok (record { action = decisions steps; input_tokens = 10; output_tokens = 5 });
  verifier = some (λ _ _. ok (record { passed = true; reason = "ok"; evidence = [] }));
  registry = λ name.
      some (record { name = name; risk = write; effect_class = non_idempotent; timeout_ms = 1000 });
  evaluate = λ _ _ _ _. record { type = allow; reason = "" };
  dispatch = λ _ _. outcome;
  board_after = λ _ _ b. b;
  replay_board = λ _ _. ok (record { todos = []; revision = 0 });
  has_checkpoints = true;
  has_journal = true;
  max_todo_rejections = 3;
  compress = λ s. s;
  pinned_messages = λ _. [];
  codec = record { sha256 = λ s. s; dump = λ _. "{}"; parse = λ _. some written };
  args_digest = λ s. s;
  decimal = λ n. if n == 1 then "1" else "2";
  seconds = λ _. "1";
  journal_text = λ _. "journal";
  as_observation = λ f. f.message;
  clock = λ _. 7;
  tool_clock = λ _ _. 7;
}

abbrev pub start : World
start = record {
  journal = record { invocations = []; attempts = [] };
  checkpoints = [];
  trace = [];
  todos = none;
  todo_rejections = 0;
  context = none;
  evidence = [];
  authorized = none;
}

abbrev pub unused : Usage
unused = record { steps = 0; tool_calls = 0; input_tokens = 0; output_tokens = 0 }

abbrev pub task_messages : List Message
task_messages = said user "write the file" ∷ []

abbrev pub after : Option ToolOutput → Result AgentError RunResult × World
after outcome = drive (runtime outcome) "t1" none task_messages unused 0 [] start

abbrev no_result : RunResult
no_result = result_of "" succeeded [] unused 0

abbrev finished_of : Result AgentError RunResult × World → RunResult × World
finished_of (ok r, w) = (r, w)
finished_of (raise e, w) = (no_result, w)

drive-ends_example : (after (some written)).0 ≢ raise out_of_rounds
drive-ends_example = drive-ends (runtime (some written)) "t1" none task_messages unused 0 [] start

requests-le-steps_example : requests (after (some written)).1 ≤ requests start + 3
requests-le-steps_example =
    requests-le-steps (runtime (some written)) "t1" none task_messages unused 0 [] start

dispatched-le-attempts_example : dispatched (after none).1 ≤ dispatched start + 2 * 2
dispatched-le-attempts_example =
    dispatched-le-attempts (runtime none) "t1" none task_messages unused 0 [] start

after-crash : (after none).0 ≡ raise (tool_error process_crashed)
unfolding drive rounds turn step invoke_model_once invoke_prepared dispatch_model_once settle_reply
    handle_outcome take_action take_tool admit_call authorize_call authorize report_decision
    by_policy run_admitted save_running checkpoint store_snapshot Checkpoint.save write_snapshot
    dispatch_tool Executor.dispatch dispatch_journalled run_attempts attempts_from round
    begin_attempt emit_backoff perform Executor.finish claim mark_started update_one load_by_id
    row_to_record attempts_for start_attempt String_discrete ℕ_discrete logical_call-discrete
    numbered-discrete InvocationState-discrete RiskLevel-discrete ToolEffectClass-discrete
after-crash = refl

drive-crashed_example : IsAdmitted (runtime none) "t1" (after none).1
drive-crashed_example =
    drive-crashed (runtime none) "t1" none task_messages unused 0 [] start refl tt after-crash

abbrev pub finished : RunResult × World
finished = finished_of (after (some written))

after-success : after (some written) ≡ (ok finished.0, finished.1)
unfolding drive rounds turn step invoke_model_once invoke_prepared dispatch_model_once settle_reply
    handle_outcome take_action take_tool admit_call authorize_call authorize report_decision
    by_policy run_admitted save_running checkpoint store_snapshot Checkpoint.save write_snapshot
    dispatch_tool Executor.dispatch dispatch_journalled run_attempts attempts_from round
    begin_attempt emit_backoff perform Executor.finish claim mark_started update_one load_by_id
    row_to_record attempts_for start_attempt String_discrete ℕ_discrete logical_call-discrete
    numbered-discrete InvocationState-discrete RiskLevel-discrete ToolEffectClass-discrete
    finish_attempt conclude conclude_ok settle_call settle settle_invocation take_output absorb
    trace_todo_update save_again take_final gate_final verify_final handle_verdict finish finish_run
after-success = refl

finished-status : finished.0.status ≡ succeeded
unfolding drive rounds turn step invoke_model_once invoke_prepared dispatch_model_once settle_reply
    handle_outcome take_action take_tool admit_call authorize_call authorize report_decision
    by_policy run_admitted save_running checkpoint store_snapshot Checkpoint.save write_snapshot
    dispatch_tool Executor.dispatch dispatch_journalled run_attempts attempts_from round
    begin_attempt emit_backoff perform Executor.finish claim mark_started update_one load_by_id
    row_to_record attempts_for start_attempt String_discrete ℕ_discrete logical_call-discrete
    numbered-discrete InvocationState-discrete RiskLevel-discrete ToolEffectClass-discrete
    finish_attempt conclude conclude_ok settle_call settle settle_invocation take_output absorb
    trace_todo_update save_again take_final gate_final verify_final handle_verdict finish finish_run
finished-status = refl

drive-succeeded_example : IsEarned (runtime (some written)) "t1" none finished.0 finished.1
drive-succeeded_example =
    drive-succeeded (runtime (some written)) "t1" none task_messages unused 0 [] start finished.1
      finished.0 after-success finished-status
