-- ===== src/Agent/Pieces.antt =====
-- The variables of `_drive` of runtime/loop.py, its messages, and the parts of a round that do not
-- depend on the run.
use forgeharness.Common.{
  ℕ, ◌+◌, String, Bool, true, false, not, ◌||◌, Option, none, some, List, [], ◌∷◌, ◌++◌, pure, gets,
  modify, ◌>>=◌, ◌>>◌, if◌then◌else◌, ◌==◌, String_eq, ltb, leb, any, is_none,
}
use forgeharness.Domain.{
  RunResult, Message, MessageRole, assistant, tool, Usage, ToolCall, ToolOutput, ToolFailure,
  ToolEvidence, invalid_arguments, Identifier_eq,
}
use forgeharness.Executor.{account_usage}
use forgeharness.Todos.{TodoBoard, TodoSnapshot, snapshot, open_count}
use forgeharness.Agent.Setting.{
  Runtime, Run, World, log, PolicyDecision, policy_decided, tool_completed, todo_updated,
}

-- The variables of the loop.
pub record Progress : Type 0 where
  pub messages : List Message
  pub usage : Usage
  pub revision : ℕ
  pub violations : ℕ

-- How a round ends: with the run's result, or by going on.
pub data Turn : Type 0 where
  ended : RunResult → Turn
  again : Progress → Turn

abbrev pub said : MessageRole → String → Message
said role content = record {
  role = role;
  content = some content;
  tool_calls = [];
  tool_call_id = none;
  tool_name = none;
}

abbrev pub requesting : ToolCall → Message
requesting call = record {
  role = assistant;
  content = none;
  tool_calls = call ∷ [];
  tool_call_id = none;
  tool_name = none;
}

-- `_tool_message`
abbrev pub tool_message : ToolCall → String → Message
tool_message call content = record {
  role = tool;
  content = some content;
  tool_calls = [];
  tool_call_id = some call.id;
  tool_name = some call.name;
}

abbrev pub saying : Message → Progress → Progress
saying m p = record p { messages = p.messages ++ m ∷ [] }

abbrev pub one_call_more : Progress → Progress
one_call_more p = record p { usage = record p.usage { tool_calls = p.usage.tool_calls + 1 } }

-- whether the transcript has a call with this id
abbrev pub is_reused : String → List Message → Bool
is_reused id messages =
    any (λ (m : Message). any (λ (c : ToolCall). c.id == id) m.tool_calls) messages

-- `_evidence`, with the call and the receipt
abbrev pub evidence_of : ToolCall → ToolOutput → ToolEvidence
evidence_of call o = record {
  name = call.name;
  is_ok = o.is_ok;
  content = o.content;
  metadata = o.metadata;
  logical_call_id = some call.id;
  receipt = o.receipt;
}

-- `_open_todos`
abbrev pub blocking_board : Option TodoBoard → Option TodoSnapshot
blocking_board none = none
blocking_board (some b) = if ltb 0 (open_count (snapshot b)) then some (snapshot b) else none

abbrev pub authorize_only : Option String → World → World
authorize_only id w = record w { authorized = id }

module _ (x : Runtime) where
  abbrev pub tokens_exhausted : Usage → Bool
  tokens_exhausted usage =
      leb x.budget.max_input_tokens usage.input_tokens
      || leb x.budget.max_output_tokens usage.output_tokens

  abbrev pub unknown_tool_failure : ToolCall → ToolFailure
  unknown_tool_failure call = record {
    code = invalid_arguments;
    message = "No such tool is registered.";
    recoverable = true;
    details = ("tool", call.name) ∷ [];
    suggestion = some "Choose one of the available tools.";
  }

  -- `_trace_todo_update`
  unfoldable pub trace_todo_update : ToolCall → ToolOutput → Run (Unit {0})
  trace_todo_update call o = do
    board ← gets (λ (w : World). w.todos)
    (if is_none board || not (call.name == "write_todos") || not o.is_ok
        then pure tt
        else log (todo_updated call.id))

  -- What a tool's output changes in the loop: the usage, the evidence, the transcript.
  unfoldable pub absorb : ToolCall → ToolOutput → Progress → Run Progress
  absorb call o p = do
    modify (λ (w : World). record w {
      evidence = w.evidence ++ evidence_of call o ∷ [];
      authorized = none;
    })
    log (tool_completed call o.is_ok (x.compress o.content))
    pure (
        saying (tool_message call (x.compress o.content))
          (record p { usage = account_usage p.usage o.usage }))

  unfoldable pub report_decision : Bool → ToolCall → PolicyDecision → Run (Unit {0})
  report_decision true call d = log (policy_decided call d)
  report_decision false call d = pure tt
