-- ===== src/Recovery/Tests.antt =====
-- A scan of state/recovery.py over two runs that were left running and one that has ended.
use forgeharness.Common.{
  ◌≡◌, refl, Bool, true, false, List, [], ◌∷◌, none, Option, ok, raise, map, String,
  String_discrete, if◌then◌else◌, ◌==◌, String_eq, Result,
}
use forgeharness.Domain.{RunResult, RunStatus, running, succeeded, RunStatus-discrete, Usage}
use forgeharness.Checkpoint.{CheckpointRow, load, pending_runs, revision_conflict}
use forgeharness.Agent.{World, AgentError, conflict, result_of}
use forgeharness.Recovery.{
  RecoveryCoordinator, RunRecoveryResult, pending_tasks, recover_snapshot, recover_run,
  recover_each, recover_pending, recovered, conflicting, RecoveryStatus,
}
use forgeharness.Recovery.Scan.{Survives, Reports, recover_pending-Reports}

abbrev no_usage : Usage
no_usage = record { steps = 0; tool_calls = 0; input_tokens = 0; output_tokens = 0 }

abbrev row : String → RunStatus → CheckpointRow
row task status = record {
  task_id = task;
  revision = 1;
  payload = result_of task status [] no_usage 1;
}

abbrev left : World
left = record {
  journal = record { invocations = []; attempts = [] };
  checkpoints = row "b" running ∷ row "c" succeeded ∷ row "a" running ∷ [];
  trace = [];
  todos = none;
  todo_rejections = 0;
  context = none;
  evidence = [];
  authorized = none;
}

-- the run `a` is being recovered elsewhere
abbrev resumed : RunResult → Option String → Result AgentError RunResult
resumed s workspace =
    if s.task_id == "a"
    then raise (conflict revision_conflict)
    else ok (record s { status = succeeded })

abbrev coordinator : RecoveryCoordinator
coordinator = record {
  resume = λ s workspace w. (resumed s workspace, w);
  resolve_workspace = λ s. ok none;
  class_name = λ e. "CheckpointConflict";
  error_text = λ e. "revision conflict";
}

resumed-Survives : (s : RunResult) (workspace : Option String) → Survives (resumed s workspace)
resumed-Survives s workspace = by_name (s.task_id == "a")
  where
    by_name :
        (b : Bool)
        → Survives
            (if b then raise (conflict revision_conflict) else ok (record s { status = succeeded }))
    by_name true = λ e. cc e
    by_name false = tt

recover_pending-Reports_example : Reports (pending_tasks left) (recover_pending coordinator left).0
recover_pending-Reports_example =
    recover_pending-Reports coordinator (λ s workspace w. resumed-Survives s workspace) (λ s. tt)
      left

abbrev statuses : Result AgentError (List RunRecoveryResult) → List RecoveryStatus
statuses (ok results) = map (λ (r : RunRecoveryResult). r.status) results
statuses (raise e) = []

one_conflict : statuses (recover_pending coordinator left).0 ≡ conflicting ∷ recovered ∷ []
unfolding recover_pending recover_each recover_run recover_snapshot load pending_runs
    String_discrete RunStatus-discrete
one_conflict = refl
