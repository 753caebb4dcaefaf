-- ===== src/Agent/Loop.antt =====
-- `_drive` and `run` of runtime/loop.py: the rounds of model and tool steps.
use forgeharness.Common.{
  ℕ, zero, suc, ◌+◌, ◌-◌, String, Bool, true, false, not, Option, none, some, List, [], ◌∷◌, Result,
  ok, raise, pure, throw, gets, lift, modify, ◌>>=◌, ◌>>◌, if◌then◌else◌, String_eq, ltb, leb,
  map_option,
}
use forgeharness.Domain.{
  RunResult, RunStatus, run_failed, succeeded, exhausted, awaiting_approval, Message, user,
  assistant, Usage, ToolCall, ToolSpec, ToolOutput, ToolEvidence, Identifier_eq,
}
use forgeharness.Executor
use forgeharness.Executor.{account_usage}
use forgeharness.Todos.{TodoSnapshot}
use forgeharness.Agent.Setting.{
  Runtime, Run, World, log, on_tools, executor, lift_error, out_of_rounds, AgentAction, tool_action,
  final_action, ModelFault, PolicyDecision, PolicyDecisionType, allow, deny, require_approval,
  VerificationRequest, VerificationResult, drive_begins, before_step, protocol_violation,
  duplicate_tool_call_id, todo_final_rejected, verification_failed, verification_passed,
  verification_rejected, tool_unknown, run_awaiting_approval,
}
use forgeharness.Agent.Texts.{
  concat, fault_code, protocol_feedback, todo_feedback, verification_feedback, violations_error,
  unfinished_error,
}
use forgeharness.Agent.ModelCall.{
  ModelCallKind, success, overflowed, preparation_failed, failed, violated, invoke_model_once,
}
use forgeharness.Agent.Snapshots.{result_of, checkpoint, save_running, finish_run}
use forgeharness.Agent.Pieces.{
  Progress, Turn, absorb, again, authorize_only, blocking_board, ended, is_reused, one_call_more,
  report_decision, requesting, said, saying, tokens_exhausted, tool_message, trace_todo_update,
  unknown_tool_failure,
}

module _ (x : Runtime) (task : String) (workspace : Option String) where
  -- `_tools.authorize`
  unfoldable pub authorize_call : ℕ → Bool → ToolCall → Run PolicyDecision
  authorize_call steps emit call = do
    context ← gets (λ (w : World). w.context)
    decision ← lift (
        lift_error
          (Executor.authorize (executor x context call.id) (x.evaluate steps) call task false))
    report_decision x emit call decision
    pure decision

  -- `_dispatch_journalled`, with what the tool has left on the board
  unfoldable pub dispatch_tool : ToolCall → Usage → ℕ → Run ToolOutput
  dispatch_tool call usage revision = do
    output ←
        on_tools x call.id
          (λ e. Executor.dispatch e x.has_journal task call workspace usage revision none)
    modify (λ (w : World). record w { todos = map_option (x.board_after call output) w.todos })
    pure output

  unfoldable pub finish : Progress → RunStatus → Option String → Option String → Run Turn
  finish p status final_output error = do
    r ← finish_run x task status p.messages p.usage p.revision final_output error
    pure (ended r)

  unfoldable pub save_again : Progress → Run Turn
  save_again p = do
    revision ← save_running x task p.messages p.usage p.revision
    pure (again (record p { revision = revision }))

  unfoldable pub handle_violation : Progress → ModelFault → Run Turn
  handle_violation p e = do
    let occurrence = p.violations + 1
    log (protocol_violation (fault_code e) occurrence)
    (if ltb x.budget.max_protocol_violations occurrence
        then finish p run_failed none
            (some (violations_error x.decimal e occurrence x.budget.max_protocol_violations))
        else save_again (
            saying (said user (protocol_feedback x.decimal e))
              (record p { violations = occurrence })))

  -- The gate of the todo board.
  unfoldable pub reject_final : Progress → TodoSnapshot → ℕ → Run Turn
  reject_final p s rejected = do
    log (todo_final_rejected rejected)
    (if ltb x.max_todo_rejections rejected
        then finish p run_failed none
            (some (unfinished_error x.decimal s rejected x.max_todo_rejections))
        else (do
          modify (λ (w : World). record w { todo_rejections = rejected })
          save_again (saying (said user (todo_feedback x.decimal s)) p)))

  unfoldable pub handle_verdict : Progress → String → Result String VerificationResult → Run Turn
  handle_verdict p text (raise e) = do
    log (verification_failed e)
    finish p run_failed none (some (concat ("verification failed: " ∷ e ∷ [])))
  handle_verdict p text (ok v) = do
    log (if v.passed then verification_passed v.reason else verification_rejected v.reason)
    (if v.passed
        then finish p succeeded (some text) none
        else save_again (saying (said user (verification_feedback v)) p))

  abbrev pub verification_request : String → World → VerificationRequest
  verification_request text w = record {
    task_id = task;
    final = text;
    workspace = workspace;
    tool_results = w.evidence;
    run_context = w.context;
  }

  unfoldable pub verify_final :
      Progress
      → String
      → Option (ℕ → VerificationRequest → Result String VerificationResult)
      → Run Turn
  verify_final p text none = finish p succeeded (some text) none
  verify_final p text (some verify) = do
    request ← gets (verification_request text)
    handle_verdict p text (verify p.usage.steps request)

  unfoldable pub gate_final : Progress → String → Option TodoSnapshot → Run Turn
  gate_final p text none = verify_final p text x.verifier
  gate_final p text (some s) = do
    rejected ← gets (λ (w : World). w.todo_rejections + 1)
    reject_final p s rejected

  unfoldable pub take_final : Progress → String → Run Turn
  take_final p text = do
    blocking ← gets (λ (w : World). blocking_board w.todos)
    gate_final (saying (said assistant text) p) text blocking

  unfoldable pub take_output : ToolCall → ToolOutput → Progress → Run Turn
  take_output call output p = do
    next ← absorb x call output p
    trace_todo_update x call output
    save_again next

  -- An admitted call is saved with its authorization before the tool runs.
  unfoldable pub run_admitted : Progress → ToolCall → Run Turn
  run_admitted p call = do
    modify (authorize_only (some call.id))
    revision ← save_running x task p.messages p.usage p.revision
    output ← dispatch_tool call p.usage revision
    take_output call output (record p { revision = revision })

  unfoldable pub suspend : Progress → ToolCall → String → Run Turn
  suspend p call reason = do
    log (run_awaiting_approval call)
    r ← checkpoint x (record (result_of task awaiting_approval p.messages p.usage p.revision) {
      pending_approval = some (record { call = call; reason = reason });
    })
    pure (ended r)

  unfoldable pub by_policy : Progress → ToolCall → PolicyDecisionType → String → Run Turn
  by_policy p call allow reason = run_admitted p call
  by_policy p call deny reason =
      save_again (
        one_call_more
          (saying (tool_message call (concat ("policy denied tool: " ∷ reason ∷ []))) p))
  by_policy p call require_approval reason = suspend p call reason

  unfoldable pub admit_call : Progress → ToolCall → Option ToolSpec → Run Turn
  admit_call p call none = do
    log (tool_unknown call)
    save_again (
        one_call_more
          (saying (tool_message call (x.as_observation (unknown_tool_failure x call))) p))
  admit_call p call (some spec) = do
    decision ← authorize_call p.usage.steps true call
    by_policy p call decision.type decision.reason

  unfoldable pub refuse_reused : Progress → ToolCall → Run Turn
  refuse_reused p call = do
    log (duplicate_tool_call_id call.id)
    finish p run_failed none (some "model reused a prior tool call id")

  unfoldable pub take_tool : Progress → ToolCall → Run Turn
  take_tool p call =
      if is_reused call.id p.messages
      then refuse_reused p call
      else if leb x.budget.max_tool_calls p.usage.tool_calls
      then finish p exhausted none (some "tool-call budget exhausted")
      else admit_call (saying (requesting call) p) call (x.registry call.name)

  unfoldable pub take_action : Progress → AgentAction → Run Turn
  take_action p (final_action text) = take_final p text
  take_action p (tool_action call) = take_tool p call

  unfoldable pub handle_outcome : Progress → ModelCallKind → Run Turn
  handle_outcome p (overflowed e) = finish p run_failed none (some e)
  handle_outcome p (preparation_failed e) = finish p run_failed none (some e)
  handle_outcome p (failed e) =
      finish p run_failed none (some (concat ("model failed: " ∷ e.name ∷ ": " ∷ e.text ∷ [])))
  handle_outcome p (violated e) = handle_violation p e
  handle_outcome p (success r) =
      if tokens_exhausted x p.usage
      then finish p exhausted none (some "token budget exhausted")
      else take_action p r.action

  unfoldable pub step : Progress → Run Turn
  step p = do
    outcome ← invoke_model_once x p.usage (record { task_id = task; messages = p.messages })
    handle_outcome (record p { usage = outcome.usage }) outcome.kind

  abbrev pub is_late : Option ℕ → Usage → Bool
  is_late none usage = false
  is_late (some deadline) usage = leb deadline (x.clock (before_step usage.steps))

  abbrev pub deadline_error : Option ℕ → String
  deadline_error none = ""
  deadline_error (some ms) =
      concat ("deadline_exceeded: the run passed its " ∷ x.seconds ms ∷ "s wall-clock budget" ∷ [])

  -- One round of the `while`, its test included.
  unfoldable pub turn : Option ℕ → Progress → Run Turn
  turn deadline p =
      if not (ltb p.usage.steps x.budget.max_steps)
      then finish p exhausted none (some "step budget exhausted")
      else if is_late deadline p.usage
      then finish p run_failed none (some (deadline_error x.budget.max_wall_ms))
      else if tokens_exhausted x p.usage
      then finish p exhausted none (some "token budget exhausted")
      else step p

  unfoldable pub rounds : ℕ → Option ℕ → Progress → Run RunResult
  rounds zero deadline p = throw out_of_rounds
  rounds (suc n) deadline p = do
    t ← turn deadline p
    elim t [ ended r ↦ pure r | again q ↦ rounds n deadline q ]

  abbrev pub deadline_from : ℕ → Option ℕ
  deadline_from steps = map_option (λ ms. x.clock (drive_begins steps) + ms) x.budget.max_wall_ms

  abbrev pub or_given : List ToolEvidence → List ToolEvidence → List ToolEvidence
  or_given given [] = given
  or_given given (e ∷ l) = e ∷ l

  abbrev pub begin_evidence : List ToolEvidence → World → World
  begin_evidence given w = record w { evidence = or_given given w.evidence }

  -- `_drive`
  unfoldable pub drive : List Message → Usage → ℕ → List ToolEvidence → Run RunResult
  drive messages usage revision given = do
    modify (begin_evidence given)
    rounds (suc (x.budget.max_steps - usage.steps)) (deadline_from usage.steps)
        (record { messages = messages; usage = usage; revision = revision; violations = 0 })
