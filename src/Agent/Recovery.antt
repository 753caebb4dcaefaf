-- ===== src/Agent/Recovery.antt =====
-- That a resume does not run a tool again where the journal forbids it (runtime/loop.py).
use forgeharness.Common.{
  ℕ, ◌≡◌, refl, sym, ◌∙◌, ap, arith, String, Bool, true, false, Option, none, some, List, [], map,
  Result, ok, raise, continue, pure, or_raise, ◌>>=◌, ◌>>◌, if◌then◌else◌, inl, inr, ◌⊎◌,
}
use forgeharness.Domain.{RunResult, RunStatus, run_failed, ToolCall, ToolOutput}
use forgeharness.Journal
use forgeharness.Journal.{
  InvocationRecord, RecoveryDecision, reuse_result, refuse_replay, RecoveryDecision_eq,
}
use forgeharness.Executor.{Event, recover_call}
use forgeharness.Executor.Adding.{dispatches}
use forgeharness.Executor.Lookup.{recover_call-Adds}
use forgeharness.Agent.Setting.{
  Runtime, Run, World, AgentError, refused, Refusal, unsafe_replay, no_stored_result, executor,
  on_tools, tool_event,
}
use forgeharness.Agent.Resume.{
  recover_from, look_up, by_outcome, recover_outstanding, after_recovery, resume_call,
  fail_recovery, refusal_text,
}
use forgeharness.Agent.Quiet.{
  Quiet, IsBenign, quiet_rules, Quiet-guard, dispatched, dispatch_count, total-append,
  finish_run-Quiet,
}
use forgeharness.Agent.Turns.{authorize_call-Quiet}
use forgeharness.Agent.Dispatching.{traced-dispatches}
use forgeharness.Agent.Earning.{finish_run_fields}

refused-IsBenign : (r : Refusal) → IsBenign (refused r)
refused-IsBenign r = ((λ e. cc), (λ e. cc))

Quiet-or_refuse : {A : Type 0} (r : Refusal) (o : Option A) → Quiet (or_raise (refused r) o)
Quiet-or_refuse r none = record {
  asks = λ w. refl;
  runs = λ w. refl;
  keyed = λ w k. k;
  raises = λ w. refused-IsBenign r;
}
Quiet-or_refuse r (some a) = record {
  asks = λ w. refl;
  runs = λ w. refl;
  keyed = λ w k. k;
  raises = λ w. tt;
}

abbrev status_of : Result AgentError RunResult → RunStatus
status_of (ok r) = r.status
status_of (raise e) = run_failed

-- What an action that returns has returned.
record Returning {A : Type 0} (Q : A → Type 0) (m : Run A) : Type 0 where
  at : (w : World) (a : A) → (m w).0 ≡ ok a → Q a

module _ {A B : Type 0} (Q : B → Type 0) where
  continue-Returning :
      (r : Result AgentError A) (f : A → Run B)
      → ((a : A) → Returning Q (f a))
      → (w : World) (b : B) → (continue r f w).0 ≡ ok b
      → Q b
  continue-Returning (ok a) f h w b e = (h a).at w b e
  continue-Returning (raise c) f h w b e = absurd cc

  Returning-bind :
      (m : Run A) (f : A → Run B) → ((a : A) → Returning Q (f a)) → Returning Q (m >>= f)
  Returning-bind m f h = record { at = λ w b e. continue-Returning (m w).0 f h (m w).1 b e }

  Returning-then : (m : Run A) (k : Run B) → Returning Q k → Returning Q (m >> k)
  Returning-then m k h = Returning-bind m (λ _. k) (λ _. h)

-- A value for which `Q` holds, or an error.
abbrev pub ReturnsOnly : {A : Type 0} → (A → Type 0) → Result AgentError A → Type 0
ReturnsOnly {A} Q r = ((a : A) × (r ≡ ok a) × Q a) ⊎ ((e : AgentError) × (r ≡ raise e))

returns_only :
    {A : Type 0} (Q : A → Type 0) (r : Result AgentError A)
    → ((a : A) → r ≡ ok a → Q a)
    → ReturnsOnly Q r
returns_only Q (ok a) h = inl (a, refl, h a refl)
returns_only Q (raise e) h = inr (e, refl)

module _ (x : Runtime) (previous : RunResult) (workspace : Option String) (call : ToolCall) where
  module _ (revision : ℕ) (rec : InvocationRecord) where
    reusing-Quiet :
        Quiet (recover_from x previous workspace call revision (some (rec, reuse_result)))
    unfolding recover_from by_outcome
    reusing-Quiet =
        search (quiet_rules, Quiet-guard, Quiet-or_refuse, refused-IsBenign, authorize_call-Quiet)
          depth 14

    reused : Returning (λ o. rec.result ≡ some o) (or_raise (refused no_stored_result) rec.result)
    reused = record { at = λ w o e. stored rec.result w o e }
      where
        stored :
            (r : Option ToolOutput) (w : World) (o : ToolOutput)
            → (or_raise {S = World} (refused no_stored_result) r w).0 ≡ ok o
            → r ≡ some o
        stored none w o e = absurd cc
        stored (some v) w o e = ap some cc

    reusing-Returning :
        Returning
          (λ o. rec.result ≡ some o)
          (recover_from x previous workspace call revision (some (rec, reuse_result)))
    unfolding recover_from by_outcome
    reusing-Returning = search (Returning-bind, Returning-then, reused) depth 14

  look_up-runs : (w : World) → dispatched (look_up x previous workspace call w).1 ≡ dispatched w
  unfolding look_up dispatches
  look_up-runs w = by_journal x.has_journal
    where
      inner : List Event
      inner =
          (recover_call (executor x w.context call.id) previous.task_id call.id
            (record { db = w.journal; trace = [] })).1.trace

      by_journal :
          (b : Bool)
          → dispatched
              ((if b
                  then on_tools x call.id (λ e. recover_call e previous.task_id call.id)
                  else pure none)
                w).1
            ≡ dispatched w
      by_journal false = refl
      by_journal true = omega (
        arith,
        total-append dispatch_count w.trace (map tool_event inner),
        traced-dispatches inner,
        (recover_call-Adds (executor x w.context call.id) previous.task_id call.id).at
            (record { db = w.journal; trace = [] }),
      )

  module _ (revision : ℕ) (rec : InvocationRecord) (w : World) where
    -- If the journal's decision on the outstanding call of a resumed run is to reuse its result, then
    -- no tool is dispatched to recover the call, and the output that the run goes on with, where it
    -- goes on, is the one that the journal holds.
    pub recover_outstanding-reuses :
        (look_up x previous workspace call w).0 ≡ ok (some (rec, reuse_result))
        → let (r, w') = recover_outstanding x previous workspace call revision w in
          (dispatched w' ≡ dispatched w) × ReturnsOnly (λ o. rec.result ≡ some o) r
    unfolding recover_outstanding
    recover_outstanding-reuses found =
        let w1 = (look_up x previous workspace call w).1 in
        rw found (
          (reusing-Quiet revision rec).runs w1 ∙ look_up-runs w,
          returns_only (λ o. rec.result ≡ some o) _ ((reusing-Returning revision rec).at w1),
        )

    refusing :
        (w1 : World)
        → recover_from x previous workspace call revision (some (rec, refuse_replay)) w1
          ≡ (raise (refused unsafe_replay), w1)
    unfolding recover_from Journal.RecoveryDecision-discrete
    refusing w1 = refl

    failed_run :
        (w1 : World) (end : Result AgentError RunResult × World)
        → fail_recovery x previous workspace call revision (refusal_text unsafe_replay) w1 ≡ end
        → (result : RunResult) → end.0 ≡ ok result
        → result.status ≡ run_failed
    unfolding fail_recovery
    failed_run w1 (ok r, w2) e result h =
        ap (λ (o : Result AgentError RunResult). status_of o) (sym h)
        ∙ (finish_run_fields x previous.task_id run_failed previous.messages previous.usage revision
            none (some (refusal_text unsafe_replay)) r w1 w2 e).0
    failed_run w1 (raise c, w2) e result h = absurd cc

    -- If the journal's decision on the outstanding call is to refuse a replay, then nothing is
    -- dispatched until the run has ended, and where its end can be saved, it has failed.
    pub resume_call-refuses :
        (look_up x previous workspace call w).0 ≡ ok (some (rec, refuse_replay))
        → let (r, w') = resume_call x previous workspace call revision w in
          (dispatched w' ≡ dispatched w)
          × ReturnsOnly (λ (result : RunResult). result.status ≡ run_failed) r
    unfolding resume_call recover_outstanding after_recovery fail_recovery
    resume_call-refuses found =
        let w1 = (look_up x previous workspace call w).1 in
        rw found (
          rw (refusing w1) (
            (finish_run-Quiet x previous.task_id run_failed previous.messages previous.usage
                    revision none _).runs
                  w1
                ∙ look_up-runs w,
            returns_only (λ (result : RunResult). result.status ≡ run_failed) _
                (failed_run w1 _ refl),
          ))
