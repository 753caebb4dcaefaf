-- ===== src/Agent/Setting.antt =====
-- What an `AgentRuntime` is built from, and what it changes (runtime/loop.py). Events keep the
-- fields that tell what has happened; those of caching and compaction are left out.
use forgeharness.Common.{
  ℕ, String, Bool, true, Option, none, List, [], ◌∷◌, ◌++◌, map, Result, ok, raise, Action, Eq,
}
use forgeharness.Domain.{
  ToolCall, ToolSpec, ToolOutput, ToolFailure, ToolContext, RunBudget, RunContext, RunStatus, Usage,
  Message, ToolEvidence, Error,
}
use forgeharness.Checkpoint.{Checkpoints, CheckpointConflict}
use forgeharness.Journal.{Db, Codec}
use forgeharness.Executor.{Executor, Moment, Event, Run as ToolRun}
use forgeharness.Todos.{TodoBoard, TodoError}

-- `AgentAction`, a decision of the model
pub data AgentAction : Type 0 where
  tool_action : ToolCall → AgentAction
  final_action : String → AgentAction

pub record ModelResult : Type 0 where
  pub action : AgentAction
  pub input_tokens : ℕ
  pub output_tokens : ℕ

-- The exception of a provider: its class and text, and the attributes that the runtime looks for.
pub record ModelFault : Type 0 where
  pub name : String
  pub text : String
  pub is_protocol_error : Bool
  pub recoverable : Bool
  pub code : Option String
  pub received_tool_calls : Option ℕ
  pub used : Option (Option ℕ × Option ℕ)

pub record ModelRequest : Type 0 where
  pub task_id : String
  pub messages : List Message

-- `prepare_request`: a request within the context budget, a `ContextBudgetError` or another
-- exception
pub data Preparation : Type 0 where
  prepared : ModelRequest → Preparation
  too_large : String → Preparation
  not_prepared : Preparation

pub data PolicyDecisionType : Type 0 where
  allow deny require_approval : PolicyDecisionType

pub record PolicyDecision : Type 0 where
  pub type : PolicyDecisionType
  pub reason : String

unfoldable pub PolicyDecisionType-discrete : Discrete PolicyDecisionType
PolicyDecisionType-discrete = hlevel

instance abbrev pub PolicyDecisionType_eq : Eq PolicyDecisionType
PolicyDecisionType_eq = record { discrete = PolicyDecisionType-discrete }

pub record VerificationRequest : Type 0 where
  pub task_id : String
  pub final : String
  pub workspace : Option String
  pub tool_results : List ToolEvidence
  pub run_context : Option RunContext

pub record VerificationResult : Type 0 where
  pub passed : Bool
  pub reason : String
  pub evidence : List String

-- Where the loop reads the clock: at its start, and before a model call.
pub data Reading : Type 0 where
  drive_begins before_step : ℕ → Reading

-- The functions of the outside take the number of steps charged so far, so that the same question
-- may get another answer later.
pub record Runtime : Type 0 where
  pub budget : RunBudget
  -- on the messages pinned into every request
  pub prepare : ℕ → List Message → ModelRequest → Preparation
  -- a result, or an exception
  pub decide : ℕ → ModelRequest → Result ModelFault ModelResult
  -- a verdict, or the text of an exception
  pub verifier : Option (ℕ → VerificationRequest → Result String VerificationResult)
  pub registry : String → Option ToolSpec
  pub evaluate : ℕ → String → ToolSpec → ToolCall → PolicyDecision
  pub dispatch : ToolCall → ToolContext → Option ToolOutput
  -- what the tools that have run leave on the todo board
  pub board_after : ToolCall → ToolOutput → TodoBoard → TodoBoard
  -- the board that a transcript and its evidence replay to
  pub replay_board : List Message → List ToolEvidence → Result TodoError TodoBoard
  pub has_checkpoints : Bool
  pub has_journal : Bool
  pub max_todo_rejections : ℕ
  pub compress : String → String
  pub pinned_messages : Option TodoBoard → List Message
  pub codec : Codec
  pub args_digest : String → String
  pub decimal : ℕ → String
  -- a number of milliseconds as Python prints the seconds
  pub seconds : ℕ → String
  -- the text of a journal's exception
  pub journal_text : Error → String
  -- `ToolFailure.as_observation`
  pub as_observation : ToolFailure → String
  pub clock : Reading → ℕ
  pub tool_clock : String → Moment → ℕ

pub data AgentEvent : Type 0 where
  run_started : Option String → AgentEvent
  context_overflow model_preparation_failed model_request : AgentEvent
  model_failed : String → Bool → AgentEvent
  model_action : AgentAction → Usage → AgentEvent
  protocol_violation : String → ℕ → AgentEvent
  duplicate_tool_call_id : String → AgentEvent
  todo_final_rejected : ℕ → AgentEvent
  verification_failed verification_passed verification_rejected : String → AgentEvent
  tool_unknown : ToolCall → AgentEvent
  policy_decided : ToolCall → PolicyDecision → AgentEvent
  run_awaiting_approval : ToolCall → AgentEvent
  -- what the executor traces
  tool_event : Event → AgentEvent
  tool_completed : ToolCall → Bool → String → AgentEvent
  todo_updated : String → AgentEvent
  checkpoint_saved : ℕ → RunStatus → AgentEvent
  recovery_refused : ToolCall → AgentEvent
  approval_consumed : String → AgentEvent
  run_finished : RunStatus → Option String → AgentEvent

-- The stores, the trace, and the attributes and context variables of the runtime that change.
pub record World : Type 0 where
  pub journal : Db
  pub checkpoints : Checkpoints
  pub trace : List AgentEvent
  pub todos : Option TodoBoard
  pub todo_rejections : ℕ
  pub context : Option RunContext
  pub evidence : List ToolEvidence
  pub authorized : Option String

-- Why a resume does not go on with a call: the `JournalError`s of runtime/loop.py.
pub data Refusal : Type 0 where
  unsafe_replay tool_gone policy_denies needs_approval identity_changed no_stored_result
        unsupported :
      Refusal

pub data AgentError : Type 0 where
  conflict : CheckpointConflict → AgentError
  tool_error : Error → AgentError
  todo_error : TodoError → AgentError
  refused : Refusal → AgentError
  not_running wrong_workspace not_system incompatible stale : AgentError
  -- no outcome of the program: the bound of the loop that models `while`
  out_of_rounds : AgentError

abbrev pub Run : Type 0 → Type 0
Run A = Action World AgentError A

abbrev pub log : AgentEvent → Run (Unit {0})
log e w = (ok tt, record w { trace = w.trace ++ e ∷ [] })

-- The `ToolExecutor` of `__init__`; it reads the context through the runtime.
abbrev pub executor : Runtime → Option RunContext → String → Executor
executor x context call_id = record {
  codec = x.codec;
  args_digest = x.args_digest;
  decimal = x.decimal;
  registry = x.registry;
  dispatch = x.dispatch;
  budget = x.budget;
  step_limit = x.budget.max_steps;
  run_context = context;
  before_attempt = λ _. true;
  attempt_usage = λ _. none;
  clock = x.tool_clock call_id;
}

abbrev pub lift_error : {A : Type 0} → Result Error A → Result AgentError A
lift_error (ok a) = ok a
lift_error (raise e) = raise (tool_error e)

-- A method of the executor: it works on the journal and adds to the same trace.
abbrev pub on_tools : {A : Type 0} → Runtime → String → (Executor → ToolRun A) → Run A
on_tools x call_id m w =
    let (r, inner) = m (executor x w.context call_id) (record { db = w.journal; trace = [] }) in
    (lift_error r, record w { journal = inner.db; trace = w.trace ++ map tool_event inner.trace })
