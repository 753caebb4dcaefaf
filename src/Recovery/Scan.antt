-- ===== src/Recovery/Scan.antt =====
-- One run that cannot be recovered does not stop the scan (state/recovery.py).
use forgeharness.Common.{
  ◌≡◌, ◌≢◌, refl, ap, subst, String, Bool, true, false, Option, none, some, List, [], ◌∷◌, map,
  Result, ok, raise, continue, pure, ◌>>=◌, ◌∙◌, if◌then◌else◌, ◌==◌, arith,
}
use forgeharness.Domain.{RunResult, running, RunStatus_eq}
use forgeharness.Checkpoint.{load}
use forgeharness.Agent.{World, AgentError}
use forgeharness.Recovery.{
  RunRecoveryResult, RecoveryCoordinator, Caught, lost_race, other_error, not_caught, caught,
  report_error, report_outcome, attempt_in, attempt, resume_and_report, terminal_report,
  recover_snapshot, recover_run, recover_each, pending_tasks, recover_pending,
}

-- What a resume raises can be caught: the process lives on.
abbrev pub Survives : {A : Type 0} → Result AgentError A → Type 0
Survives (ok a) = Unit
Survives (raise e) = caught e ≢ not_caught

-- The results are on these tasks, in this order.
abbrev pub Reports : List String → Result AgentError (List RunRecoveryResult) → Type 0
Reports tasks (ok results) = map (λ (r : RunRecoveryResult). r.task_id) results ≡ tasks
Reports tasks (raise e) = ⊥

module _ (c : RecoveryCoordinator)
    (resumes : (s : RunResult) (workspace : Option String) (w : World)
      → Survives (c.resume s workspace w).0)
    (resolves : (s : RunResult) → Survives (c.resolve_workspace s)) where
  abbrev ReportsOne : String → Result AgentError RunRecoveryResult → Type 0
  ReportsOne task (ok result) = result.task_id ≡ task
  ReportsOne task (raise e) = ⊥

  report_error-Reports :
      (task : String) (e : AgentError) (k : Caught) (w : World)
      → k ≢ not_caught
      → ReportsOne task (report_error c task e k w).0
  report_error-Reports task e lost_race w h = refl
  report_error-Reports task e other_error w h = refl
  report_error-Reports task e not_caught w h = h refl

  report_outcome-Reports :
      (task : String) (r : Result AgentError RunResult) (w : World)
      → Survives r
      → ReportsOne task (report_outcome c task r w).0
  report_outcome-Reports task (ok r) w h = ground arith
  report_outcome-Reports task (raise e) w h = report_error-Reports task e (caught e) w h

  attempt-Survives : (s : RunResult) (w : World) → Survives (attempt c s w).0
  attempt-Survives s w = in_workspace (c.resolve_workspace s) refl
    where
      in_workspace :
          (r : Result AgentError (Option String))
          → c.resolve_workspace s ≡ r
          → Survives (attempt_in c s r w).0
      in_workspace (ok workspace) e = resumes s workspace w
      in_workspace (raise fault) e = subst Survives e (resolves s)

  recover_snapshot-Reports :
      (task : String) (found : Option RunResult) (w : World)
      → ReportsOne task (recover_snapshot c task found w).0
  unfolding recover_snapshot
  recover_snapshot-Reports task none w = refl
  recover_snapshot-Reports task (some s) w = by_status (s.status == running)
    where
      by_status :
          (b : Bool)
          → ReportsOne task ((if b then resume_and_report c task s else terminal_report task s) w).0
      by_status true = report_outcome-Reports task _ _ (attempt-Survives s w)
      by_status false = refl

  recover_run-Reports : (task : String) (w : World) → ReportsOne task (recover_run c task w).0
  unfolding recover_run
  recover_run-Reports task w = recover_snapshot-Reports task (load task w.checkpoints) w

  recover_each-Reports :
      (tasks : List String) (w : World) → Reports tasks (recover_each c tasks w).0
  unfolding recover_each
  recover_each-Reports [] w = refl
  recover_each-Reports (task ∷ tasks) w =
      by_first (recover_run c task w).0 (recover_run c task w).1 (recover_run-Reports task w)
        (recover_each-Reports tasks)
    where
      by_rest :
          (result : RunRecoveryResult) (r : Result AgentError (List RunRecoveryResult)) (w : World)
          → result.task_id ≡ task
          → Reports tasks r
          → Reports (task ∷ tasks) (continue r (λ results. pure (result ∷ results)) w).0
      by_rest result (ok results) w e h =
          ap (λ t. t ∷ map (λ (r : RunRecoveryResult). r.task_id) results) e ∙ ap (λ l. task ∷ l) h
      by_rest result (raise fault) w e h = absurd h

      by_first :
          (r : Result AgentError RunRecoveryResult) (w : World)
          → ReportsOne task r
          → ((w : World) → Reports tasks (recover_each c tasks w).0)
          → Reports
              (task ∷ tasks)
              (continue r
                (λ result. do results ← recover_each c tasks; pure (result ∷ results))
                w).0
      by_first (ok result) w h ih =
          by_rest result (recover_each c tasks w).0 (recover_each c tasks w).1 h (ih w)
      by_first (raise fault) w h ih = absurd h

  -- Where neither a resume nor the resolver of workspaces takes the process down: `recover_pending`
  -- returns, whatever they raise, one result for each pending run, in the order of the runs.
  pub recover_pending-Reports : (w : World) → Reports (pending_tasks w) (recover_pending c w).0
  unfolding recover_pending
  recover_pending-Reports w = recover_each-Reports (pending_tasks w) w
