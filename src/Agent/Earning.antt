-- ===== src/Agent/Earning.antt =====
-- What a run that reports success has earned, and the rules by which an action keeps to it
-- (runtime/loop.py).
use forgeharness.Common.{
  ℕ, ◌≡◌, ◌≢◌, arith, String, Bool, true, false, Option, none, some, List, [], ◌∷◌, ◌++◌, Result,
  ok, raise, continue, pure, ◌>>=◌, ◌>>◌, if◌then◌else◌, ◌⊎◌,
}
use forgeharness.Domain.{
  RunResult, RunStatus, succeeded, awaiting_approval, run_failed, exhausted, Message, Usage,
  assistant,
}
use forgeharness.Checkpoint
use forgeharness.Checkpoint.{write_snapshot}
use forgeharness.Agent.Setting.{
  final_action, AgentAction, ModelRequest, ModelResult, prepared, run_finished, Runtime, Run, World,
  AgentError, VerificationRequest, VerificationResult,
}
use forgeharness.Agent.Snapshots.{checkpoint, store_snapshot, finish_run}
use forgeharness.Agent.Pieces.{Progress, Turn, ended, again, blocking_board, said}

module _ (x : Runtime) where
  -- The model has replied with this action, to a request that was prepared for this task and
  -- transcript.
  pub record IsReplied (task : String) (messages : List Message) (a : AgentAction) : Type 0 where
    pub usage : Usage
    pub pinned : List Message
    pub request : ModelRequest
    pub result : ModelResult
    pub asked :
        x.prepare usage.steps pinned (record { task_id = task; messages = messages })
        ≡ prepared request
    pub replied : x.decide usage.steps request ≡ ok result
    pub action : result.action ≡ a

  -- A final answer that was accepted: the model has given it, the board has no open item, and the
  -- verifier, where there is one, has passed this answer. The transcript ends in it.
  pub record IsEarned (task : String) (workspace : Option String) (r : RunResult) (w : World)
      : Type 0 where
    pub text : String
    pub output : r.final_output ≡ some text
    pub transcript : List Message
    pub answered : IsReplied task transcript (final_action text)
    pub recorded : r.messages ≡ transcript ++ said assistant text ∷ []
    pub done : blocking_board w.todos ≡ none
    pub verified :
        (x.verifier ≡ none)
        ⊎ ((verify : ℕ → VerificationRequest → Result String VerificationResult) × (x.verifier
              ≡ some verify)
            × (steps : ℕ) × (request : VerificationRequest) × (verdict : VerificationResult)
            × (verify steps request ≡ ok verdict)
            × (verdict.passed ≡ true)
            × (request.final ≡ text)
            × (request.task_id ≡ task)
            × (request.workspace ≡ workspace))

  pub checkpoint_fields :
      (r y : RunResult) (w w' : World)
      → checkpoint x r w ≡ (ok y, w')
      → (y.status ≡ r.status)
        × (y.final_output ≡ r.final_output)
        × (w'.todos ≡ w.todos)
        × (y.messages ≡ r.messages)
  unfolding checkpoint store_snapshot Checkpoint.save write_snapshot
  checkpoint_fields r y w w' e = (ground arith, ground arith, ground arith, ground arith)

  pub finish_run_fields :
      (task : String) (status : RunStatus) (messages : List Message) (usage : Usage) (revision : ℕ)
      (final_output error : Option String) (y : RunResult) (w w' : World)
      → finish_run x task status messages usage revision final_output error w ≡ (ok y, w')
      → (y.status ≡ status)
        × (y.final_output ≡ final_output)
        × (w'.todos ≡ w.todos)
        × (y.messages ≡ messages)
  unfolding finish_run
  finish_run_fields task status messages usage revision final_output error y w w' e =
      checkpoint_fields _ y (record w { trace = w.trace ++ run_finished status error ∷ [] }) w' e

-- What holds of the result, and of the state, where a part of the loop ends it.
abbrev pub OnEnd : (RunResult → World → Type 0) → Result AgentError Turn × World → Type 0
OnEnd Q (ok (ended r), w) = Q r w
OnEnd Q _ = Unit

pub record Ending (Q : RunResult → World → Type 0) (m : Run Turn) : Type 0 where
  pub at : (w : World) → OnEnd Q (m w)

module _ {A : Type 0} (Q : RunResult → World → Type 0) where
  continue-Ending :
      (r : Result AgentError A) (f : A → Run Turn)
      → ((a : A) → Ending Q (f a))
      → (w : World) → OnEnd Q (continue r f w)
  continue-Ending (ok a) f h w = (h a).at w
  continue-Ending (raise e) f h w = tt

  pub Ending-bind : (m : Run A) (f : A → Run Turn) → ((a : A) → Ending Q (f a)) → Ending Q (m >>= f)
  Ending-bind m f h = record { at = λ w. continue-Ending (m w).0 f h (m w).1 }

  pub Ending-then : (m : Run A) (k : Run Turn) → Ending Q k → Ending Q (m >> k)
  Ending-then m k h = Ending-bind m (λ _. k) (λ _. h)

module _ (Q : RunResult → World → Type 0) where
  pub Ending-if :
      (b : Bool) (m n : Run Turn) → Ending Q m → Ending Q n → Ending Q (if b then m else n)
  Ending-if true m n p q = p
  Ending-if false m n p q = q

  pub Ending-again : (p : Progress) → Ending Q (pure (again p))
  Ending-again p = record { at = λ w. tt }

pub not_failed : run_failed ≢ succeeded
not_failed = λ e. cc

pub not_exhausted : exhausted ≢ succeeded
not_exhausted = λ e. cc

pub not_suspended : awaiting_approval ≢ succeeded
not_suspended = λ e. cc

pub ruleset ending_rules =
    (Ending-bind, Ending-then, Ending-if, Ending-again, not_failed, not_exhausted)
