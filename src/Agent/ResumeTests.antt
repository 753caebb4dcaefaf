-- ===== src/Agent/ResumeTests.antt =====
-- A resume of small runs whose call the journal knows, and the theorems at it.
use native.Mathlib.Decide.{ℕ_discrete}
use forgeharness.Common.{◌≡◌, refl, Option, none, some, Result, ok, ℕ_eq, String_discrete}
use forgeharness.Domain.{RunResult, ToolOutput, ToolEffectClass-discrete}
use forgeharness.Domain.{RiskLevel-discrete}
use forgeharness.Checkpoint
use forgeharness.Checkpoint.{write_snapshot}
use forgeharness.Journal.{
  claim, mark_started, settle, settle_invocation, update_one, row_to_record, load_by_id,
  logical_call-discrete, numbered-discrete, start_attempt, finish_attempt, attempts_for,
  InvocationState-discrete,
}
use forgeharness.Executor
use forgeharness.Executor.{
  authorize, dispatch_journalled, run_attempts, attempts_from, round, begin_attempt, emit_backoff,
  perform, conclude, conclude_ok, settle_call,
}
use forgeharness.Agent.ModelCall.{
  invoke_model_once, invoke_prepared, dispatch_model_once, settle_reply,
}
use forgeharness.Agent.Snapshots.{result_of, save_running, checkpoint, store_snapshot, finish_run}
use forgeharness.Agent.Setting.{AgentError}
use forgeharness.Agent.Pieces.{report_decision, absorb, trace_todo_update}
use forgeharness.Agent.Loop.{
  drive, rounds, turn, step, handle_outcome, take_action, take_tool, admit_call, authorize_call,
  by_policy, run_admitted, dispatch_tool, take_output, save_again, take_final, gate_final,
  verify_final, handle_verdict, finish,
}
use forgeharness.Agent.Quiet.{dispatched}
use forgeharness.Journal.{
  InvocationRecord, reuse_result, refuse_replay, decide_recovery, load, record_recovery_decision,
  RecoveryDecision-discrete,
}
use forgeharness.Executor.{recover_call, recover_loaded, recover_record, announce, new_record}
use forgeharness.Agent.Setting.{executor}
use forgeharness.Agent.Resume.{Recovered, look_up, recover_outstanding, resume_call}
use forgeharness.Agent.Recovery.{ReturnsOnly, recover_outstanding-reuses, resume_call-refuses}
use forgeharness.Domain.{run_failed, running}
use forgeharness.Agent.Tests.{runtime, call, unused, task_messages, after, written}

abbrev previous : RunResult
previous = result_of "t1" running task_messages unused 2

abbrev record_of : Result AgentError Recovered → InvocationRecord
record_of (ok (some (rec, d))) = rec
record_of _ = new_record (executor (runtime none) none "c1") "t1" call 0

-- The tool of the first run has returned, that of the second has died with the process.
abbrev looked_up : Option ToolOutput → Result AgentError Recovered
looked_up outcome = (look_up (runtime outcome) previous none call (after outcome).1).0

reusable : looked_up (some written) ≡ ok (some (record_of (looked_up (some written)), reuse_result))
unfolding drive rounds turn step invoke_model_once invoke_prepared dispatch_model_once settle_reply
    handle_outcome take_action take_tool admit_call authorize_call authorize report_decision
    by_policy run_admitted save_running checkpoint store_snapshot Checkpoint.save write_snapshot
    dispatch_tool Executor.dispatch dispatch_journalled run_attempts attempts_from round
    begin_attempt emit_backoff perform Executor.finish claim mark_started update_one load_by_id
    row_to_record attempts_for start_attempt String_discrete ℕ_discrete logical_call-discrete
    numbered-discrete InvocationState-discrete RiskLevel-discrete ToolEffectClass-discrete
    finish_attempt conclude conclude_ok settle_call settle settle_invocation take_output absorb
    trace_todo_update save_again take_final gate_final verify_final handle_verdict finish finish_run
    look_up recover_call recover_loaded recover_record announce load record_recovery_decision
    decide_recovery RecoveryDecision-discrete
reusable = refl

recover_outstanding-reuses_example :
    let (r, w) =
      recover_outstanding (runtime (some written)) previous none call 2 (after (some written)).1 in
    (dispatched w ≡ dispatched (after (some written)).1)
    × ReturnsOnly (λ o. (record_of (looked_up (some written))).result ≡ some o) r
recover_outstanding-reuses_example =
    recover_outstanding-reuses (runtime (some written)) previous none call 2
      (record_of (looked_up (some written))) (after (some written)).1 reusable

refused_replay : looked_up none ≡ ok (some (record_of (looked_up none), refuse_replay))
unfolding drive rounds turn step invoke_model_once invoke_prepared dispatch_model_once settle_reply
    handle_outcome take_action take_tool admit_call authorize_call authorize report_decision
    by_policy run_admitted save_running checkpoint store_snapshot Checkpoint.save write_snapshot
    dispatch_tool Executor.dispatch dispatch_journalled run_attempts attempts_from round
    begin_attempt emit_backoff perform Executor.finish claim mark_started update_one load_by_id
    row_to_record attempts_for start_attempt String_discrete ℕ_discrete logical_call-discrete
    numbered-discrete InvocationState-discrete RiskLevel-discrete ToolEffectClass-discrete
    finish_attempt conclude conclude_ok settle_call settle settle_invocation take_output absorb
    trace_todo_update save_again take_final gate_final verify_final handle_verdict finish finish_run
    look_up recover_call recover_loaded recover_record announce load record_recovery_decision
    decide_recovery RecoveryDecision-discrete
refused_replay = refl

resume_call-refuses_example :
    let (r, w) = resume_call (runtime none) previous none call 2 (after none).1 in
    (dispatched w ≡ dispatched (after none).1)
    × ReturnsOnly (λ (result : RunResult). result.status ≡ run_failed) r
resume_call-refuses_example =
    resume_call-refuses (runtime none) previous none call 2 (record_of (looked_up none))
      (after none).1 refused_replay
