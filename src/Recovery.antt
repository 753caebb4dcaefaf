-- ===== src/Recovery.antt =====
-- state/recovery.py: `RecoveryCoordinator`, which resumes each run that was left running and reports
-- on each what became of it.
pub mod Scan
mod Tests
use text.Mathlib.Text.{find?}
use forgeharness.Common.{
  ℕ, String, Bool, true, false, ◌&&◌, Option, none, some, List, [], ◌∷◌, map, Result, ok, raise,
  pure, gets, throw, ◌>>=◌, ◌>>◌, if◌then◌else◌, ◌==◌, is_some, join, String_eq,
}
use forgeharness.Domain.{
  RunResult, RunStatus, created, running, awaiting_approval, succeeded, run_failed, exhausted,
  cancelled, RunStatus_eq, process_crashed,
}
use forgeharness.Domain
use forgeharness.Journal.{RecoveryDecision, refuse_replay}
use forgeharness.Checkpoint.{load, pending_runs}
use forgeharness.Agent.{
  World, Run, AgentError, conflict, tool_error, todo_error, refused, not_running, wrong_workspace,
  not_system, incompatible, stale, out_of_rounds, is_journal_error,
}

pub data RecoveryStatus : Type 0 where
  recovered refused_run conflicting recovery_failed : RecoveryStatus

pub record RunRecoveryResult : Type 0 where
  pub task_id : String
  pub status : RecoveryStatus
  pub detail : String
  pub run_status : Option RunStatus
  pub decision : Option RecoveryDecision

abbrev status_value : RunStatus → String
status_value created = "created"
status_value running = "running"
status_value awaiting_approval = "awaiting_approval"
status_value succeeded = "succeeded"
status_value run_failed = "failed"
status_value exhausted = "exhausted"
status_value cancelled = "cancelled"

-- How the scan takes an exception: a lost race, any other, or the death of the process, which no
-- `except` sees.
pub data Caught : Type 0 where
  lost_race other_error not_caught : Caught

abbrev journal_caught : Bool → Caught
journal_caught true = lost_race
journal_caught false = other_error

abbrev pub caught : AgentError → Caught
caught (conflict c) = lost_race
caught stale = lost_race
caught (refused r) = lost_race
caught (tool_error process_crashed) = not_caught
caught (tool_error Domain.out_of_rounds) = not_caught
caught (tool_error e) = journal_caught (is_journal_error e)
caught out_of_rounds = not_caught
caught _ = other_error

abbrev contains : String → String → Bool
contains text part = is_some (find? text part)

-- What the coordinator is built from, but for the checkpoints; an exception's class name and text.
pub record RecoveryCoordinator : Type 0 where
  pub resume : RunResult → Option String → Run RunResult
  pub resolve_workspace : RunResult → Result AgentError (Option String)
  pub class_name : AgentError → String
  pub error_text : AgentError → String

abbrev pub pending_tasks : World → List String
pending_tasks w = map (λ (s : RunResult). s.task_id) (pending_runs w.checkpoints)

-- `error or default`, which passes over an empty text too
abbrev pub error_or : Option String → String → String
error_or none default = default
error_or (some error) default = if error == "" then default else error

abbrev pub report_resumed : String → RunResult → RunRecoveryResult
report_resumed task r =
    if (r.status == run_failed) && contains (error_or r.error "") "indeterminate_side_effect"
    then record {
      task_id = task;
      status = refused_run;
      detail = error_or r.error "";
      run_status = some r.status;
      decision = some refuse_replay;
    }
    else (if r.status == run_failed
        then record {
          task_id = task;
          status = recovery_failed;
          detail = error_or r.error "recovery failed";
          run_status = some r.status;
          decision = none;
        }
        else record {
          task_id = task;
          status = recovered;
          detail = "resumed";
          run_status = some r.status;
          decision = none;
        })

abbrev pub terminal_report : String → RunResult → Run RunRecoveryResult
terminal_report task snapshot = pure (record {
  task_id = task;
  status = recovered;
  detail = join ": " "already terminal" (status_value snapshot.status);
  run_status = some snapshot.status;
  decision = none;
})

module _ (c : RecoveryCoordinator) where
  abbrev pub report_error : String → AgentError → Caught → Run RunRecoveryResult
  report_error task e lost_race = pure (record {
    task_id = task;
    status = conflicting;
    detail = c.error_text e;
    run_status = none;
    decision = none;
  })
  report_error task e other_error = pure (record {
    task_id = task;
    status = recovery_failed;
    detail = join ": " (c.class_name e) (c.error_text e);
    run_status = none;
    decision = none;
  })
  report_error task e not_caught = throw e

  abbrev pub report_outcome : String → Result AgentError RunResult → Run RunRecoveryResult
  report_outcome task (ok r) = pure (report_resumed task r)
  report_outcome task (raise e) = report_error task e (caught e)

  abbrev pub attempt_in : RunResult → Result AgentError (Option String) → Run RunResult
  attempt_in snapshot (ok workspace) = c.resume snapshot workspace
  attempt_in snapshot (raise e) = throw e

  -- the `try` of `recover_run`
  abbrev pub attempt : RunResult → Run RunResult
  attempt snapshot = attempt_in snapshot (c.resolve_workspace snapshot)

  abbrev pub resume_and_report : String → RunResult → Run RunRecoveryResult
  resume_and_report task snapshot w = let (r, w') = attempt snapshot w in report_outcome task r w'

  unfoldable pub recover_snapshot : String → Option RunResult → Run RunRecoveryResult
  recover_snapshot task none = pure (record {
    task_id = task;
    status = recovery_failed;
    detail = "run not found";
    run_status = none;
    decision = none;
  })
  recover_snapshot task (some snapshot) =
      if snapshot.status == running
      then resume_and_report task snapshot
      else terminal_report task snapshot

  -- `recover_run`
  unfoldable pub recover_run : String → Run RunRecoveryResult
  recover_run task w = recover_snapshot task (load task w.checkpoints) w

  unfoldable pub recover_each : List String → Run (List RunRecoveryResult)
  recover_each [] = pure []
  recover_each (task ∷ tasks) = do
    result ← recover_run task
    results ← recover_each tasks
    pure (result ∷ results)

  -- `recover_pending`
  unfoldable pub recover_pending : Run (List RunRecoveryResult)
  recover_pending = do tasks ← gets pending_tasks; recover_each tasks
