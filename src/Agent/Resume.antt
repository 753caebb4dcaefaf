-- ===== src/Agent/Resume.antt =====
-- `run` and `resume_running` of runtime/loop.py.
use forgeharness.Common.{
  ℕ, String, Bool, true, false, not, ◌&&◌, Option, none, some, List, [], ◌∷◌, ◌++◌, Result, ok,
  raise, pure, throw, gets, lift, modify, guard, or_raise, ◌>>=◌, ◌>>◌, if◌then◌else◌, ◌==◌, Eq,
  ℕ_eq, String_eq, ltb, any, map_option,
}
use forgeharness.Domain.{
  RunResult, running, run_failed, RunStatus_eq, Message, MessageRole, system, user, assistant, tool,
  Usage, ToolCall, ToolSpec, ToolOutput, ToolEvidence, RunContext, Error, Identifier_eq,
  ToolEffectClass_eq, process_crashed, hook_failed, unknown_tool, write_denied, bad_idempotency_key,
  shared_authority, invalid_payload,
}
use forgeharness.Domain
use forgeharness.Journal.{
  InvocationRecord, RecoveryDecision, reuse_result, refuse_replay, RecoveryDecision_eq, restart,
}
use forgeharness.Executor
use forgeharness.Executor.{Job, account_usage, on_journal, run_attempts, starting}
use forgeharness.Todos.{pos, TodoBoard, TodoError, reset, restore}
use forgeharness.Agent.Setting.{
  Runtime, Run, World, log, on_tools, AgentError, tool_error, todo_error, refused, Refusal,
  unsafe_replay, tool_gone, policy_denies, needs_approval, identity_changed, no_stored_result,
  unsupported, not_running, wrong_workspace, not_system, PolicyDecision, deny, require_approval,
  PolicyDecisionType_eq, run_started, recovery_refused, tool_completed,
}
use forgeharness.Agent.Texts.{concat}
use forgeharness.Agent.Snapshots.{
  current_recovery_version, result_of, checkpoint, save_running, finish_run, assert_current,
  outstanding_call,
}
use forgeharness.Agent.Pieces.{said, tool_message, evidence_of}
use forgeharness.Agent.Loop.{authorize_call, dispatch_tool, drive}

instance abbrev Role_eq : Eq MessageRole
Role_eq = record { discrete = hlevel }

abbrev pub reset_todos : World → World
reset_todos w = record w { todo_rejections = 0; todos = map_option reset w.todos }

abbrev pub is_foreign : Option RunContext → Option String → Bool
is_foreign none workspace = false
is_foreign (some c) workspace = not (workspace == c.scope.workspace)

module _ (x : Runtime) where
  unfoldable pub run :
      String → String → Option String → List Message → Usage → Option RunContext → Run RunResult
  run task_id task workspace instructions usage context = do
    modify (λ (w : World). record w { context = context; evidence = []; authorized = none })
    guard (not (is_foreign context workspace)) wrong_workspace
    guard (not (any (λ (m : Message). not (m.role == system)) instructions)) not_system
    modify reset_todos
    log (run_started workspace)
    let messages = instructions ++ said user task ∷ []
    initial ← checkpoint x (result_of task_id running messages usage 0)
    drive x task_id workspace messages usage initial.checkpoint_revision []

-- which of the executor's and the journal's exceptions are a `JournalError`
abbrev pub is_journal_error : Error → Bool
is_journal_error process_crashed = false
is_journal_error hook_failed = false
is_journal_error unknown_tool = false
is_journal_error write_denied = false
is_journal_error bad_idempotency_key = false
is_journal_error shared_authority = false
is_journal_error invalid_payload = false
is_journal_error Domain.out_of_rounds = false
is_journal_error _ = true

abbrev pub refusal_text : Refusal → String
refusal_text unsafe_replay = "indeterminate_side_effect: unsafe invocation is not replayed"
refusal_text tool_gone = "tool no longer registered"
refusal_text policy_denies = "recovery denied by current policy"
refusal_text needs_approval = "recovery requires a fresh approval"
refusal_text identity_changed = "journal call identity or effect declaration changed"
refusal_text no_stored_result = "completed invocation has no result"
refusal_text unsupported = "recovery_unsupported: missing execution authorization"

abbrev pub Recovered : Type 0
Recovered = Option (InvocationRecord × RecoveryDecision)

abbrev pub is_refused : Recovered → Bool
is_refused none = false
is_refused (some (rec, d)) = d == refuse_replay

module _ (x : Runtime) where
  abbrev pub install_board : Result TodoError TodoBoard → TodoBoard → Result AgentError TodoBoard
  install_board (raise e) b = raise (todo_error e)
  install_board (ok replayed) b = elim (restore replayed.todos (some (pos replayed.revision)) b).0 [
    | ok s ↦ ok (record { todos = s.todos; revision = s.revision })
    | raise e ↦ raise (todo_error e)
  ]

  abbrev pub replayed_board :
      List Message → List ToolEvidence → Option TodoBoard → Result AgentError (Option TodoBoard)
  replayed_board messages evidence none = ok none
  replayed_board messages evidence (some b) =
      elim (install_board (x.replay_board messages evidence) b) [
        | ok c ↦ ok (some c)
        | raise e ↦ raise e
      ]

  -- `_restore_todos`
  unfoldable pub restore_todos : List Message → List ToolEvidence → Run (Unit {0})
  restore_todos messages evidence = do
    modify (λ (w : World). record w { todo_rejections = 0 })
    current ← gets (λ (w : World). w.todos)
    board ← lift (replayed_board messages evidence current)
    modify (λ (w : World). record w { todos = board })

  -- The journal's row for the call, the tool's declaration and the arguments agree.
  abbrev pub is_same_call : ToolCall → ToolSpec → Recovered → Bool
  is_same_call call spec none = true
  is_same_call call spec (some (rec, d)) =
      rec.tool_name == call.name
      && rec.args_digest == x.args_digest call.arguments
      && rec.effect_class == spec.effect_class

  abbrev pub is_unapproved : PolicyDecision → RunResult → ToolCall → Bool
  is_unapproved d previous call =
      d.type == require_approval && not (previous.authorized_call_id == some call.id)

module _ (x : Runtime) (previous : RunResult) (workspace : Option String) (call : ToolCall) where
  -- `recover_call`; without a journal there is no row
  unfoldable pub look_up : Run Recovered
  look_up =
      if x.has_journal
      then on_tools x call.id (λ e. Executor.recover_call e previous.task_id call.id)
      else pure none

  abbrev pub resumed_job : ToolSpec → InvocationRecord → InvocationRecord → Job
  resumed_job spec rec started = record {
    call = call;
    invocation = rec;
    started = started;
    workspace = workspace;
    usage = previous.usage;
    task_id = previous.task_id;
    effect_class = spec.effect_class;
  }

  unfoldable pub restart_call : ToolSpec → InvocationRecord → ℕ → Run ToolOutput
  restart_call spec rec revision = do
    started ← on_tools x call.id (λ e. on_journal (restart x.codec (e.clock starting) rec revision))
    output ← on_tools x call.id (λ e. run_attempts e (resumed_job spec rec started))
    modify (λ (w : World). record w { todos = map_option (x.board_after call output) w.todos })
    pure output

  unfoldable pub by_outcome : ToolSpec → ℕ → Recovered → Run ToolOutput
  by_outcome spec revision (some (rec, reuse_result)) =
      or_raise (refused no_stored_result) rec.result
  by_outcome spec revision (some (rec, _)) = restart_call spec rec revision
  by_outcome spec revision none =
      if x.has_journal && previous.authorized_call_id == some call.id
      then dispatch_tool x previous.task_id workspace call previous.usage revision
      else throw (refused unsupported)

  unfoldable pub recover_from : ℕ → Recovered → Run ToolOutput
  recover_from revision outcome = do
    guard (not (is_refused outcome)) (refused unsafe_replay)
    spec ← or_raise (refused tool_gone) (x.registry call.name)
    decision ← authorize_call x previous.task_id workspace previous.usage.steps false call
    guard (not (decision.type == deny)) (refused policy_denies)
    guard (not (is_unapproved x decision previous call)) (refused needs_approval)
    guard (is_same_call x call spec outcome) (refused identity_changed)
    by_outcome spec revision outcome

  -- the `try` of `resume_running`
  unfoldable pub recover_outstanding : ℕ → Run ToolOutput
  recover_outstanding revision = do outcome ← look_up; recover_from revision outcome

  abbrev pub resumed_messages : ToolOutput → List Message
  resumed_messages output = previous.messages ++ tool_message call (x.compress output.content) ∷ []

  -- the transcript, the usage and the evidence with what was recovered, saved
  unfoldable pub go_on : ℕ → ToolOutput → Run RunResult
  go_on revision output = do
    let messages = resumed_messages output
    let usage = account_usage previous.usage output.usage
    modify (λ (w : World). record w { evidence = w.evidence ++ evidence_of call output ∷ [] })
    evidence ← gets (λ (w : World). w.evidence)
    (if call.name == "write_todos" then restore_todos x messages evidence else pure tt)
    modify (λ (w : World). record w { authorized = none })
    log (tool_completed call output.is_ok (x.compress output.content))
    saved ← save_running x previous.task_id messages usage revision
    drive x previous.task_id workspace messages usage saved evidence

  unfoldable pub fail_recovery : ℕ → String → Run RunResult
  fail_recovery revision text =
      finish_run x previous.task_id run_failed previous.messages previous.usage revision none
        (some text)

  -- `except JournalError`
  unfoldable pub after_recovery : ℕ → Result AgentError ToolOutput → Run RunResult
  after_recovery revision (ok output) = go_on revision output
  after_recovery revision (raise (refused r)) = fail_recovery revision (refusal_text r)
  after_recovery revision (raise (tool_error e)) =
      if is_journal_error e then fail_recovery revision (x.journal_text e) else throw (tool_error e)
  after_recovery revision (raise e) = throw e

  unfoldable pub resume_call : ℕ → Run RunResult
  resume_call revision w =
      let (r, w') = recover_outstanding revision w in after_recovery revision r w'

  -- A run from before the journal is not replayed.
  unfoldable pub refuse_old : ℕ → Run RunResult
  refuse_old revision = do
    log (recovery_refused call)
    fail_recovery revision (
        concat (
          "indeterminate_side_effect: this run predates the invocation journal, so whether "
          ∷ call.name ∷ " already ran cannot be established; it is not replayed" ∷ []))

module _ (x : Runtime) (previous : RunResult) (workspace : Option String) where
  unfoldable pub resume_from : ℕ → Option ToolCall → Run RunResult
  resume_from revision none = do
    evidence ← gets (λ (w : World). w.evidence)
    drive x previous.task_id workspace previous.messages previous.usage revision evidence
  resume_from revision (some call) =
      if ltb previous.recovery_semantics_version current_recovery_version
      then refuse_old x previous workspace call revision
      else resume_call x previous workspace call revision

  unfoldable pub resume_running : Run RunResult
  resume_running = do
    guard (previous.status == running) not_running
    assert_current x previous
    modify (λ (w : World). record w {
      context = previous.run_context;
      evidence = previous.tool_evidence;
      authorized = previous.authorized_call_id;
    })
    guard (not (is_foreign previous.run_context workspace)) wrong_workspace
    restore_todos x previous.messages previous.tool_evidence
    claimed ← checkpoint x previous
    resume_from claimed.checkpoint_revision (outstanding_call previous.messages)
