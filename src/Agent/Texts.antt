-- ===== src/Agent/Texts.antt =====
-- The texts that the loop gives to the model and reports (runtime/loop.py).
use Prim.Native.String.{◌++◌}
use forgeharness.Common.{
  ℕ, String, Option, none, some, List, [], ◌∷◌, map, if◌then◌else◌, ◌==◌, ℕ_eq, String_eq, or_else,
}
use forgeharness.Todos.{status_value, TodoItem, TodoSnapshot, open_items, open_count}
use forgeharness.Agent.Setting.{ModelFault, VerificationResult}
pub use forgeharness.Common.{concat, join_all}

-- `getattr(exc, "code", "model_protocol_error")`
abbrev pub fault_code : ModelFault → String
fault_code e = or_else e.code "model_protocol_error"

abbrev pub received_detail : (ℕ → String) → Option ℕ → String
received_detail decimal none = ""
received_detail decimal (some n) =
    if n == 0 then "" else concat (" You returned " ∷ decimal n ∷ " tool calls." ∷ [])

-- `_protocol_feedback`
abbrev pub protocol_feedback : (ℕ → String) → ModelFault → String
protocol_feedback decimal e =
    if fault_code e == "multiple_tool_calls_not_allowed"
    then concat (
        "Harness protocol error: this runtime allows exactly one tool call per step."
        ∷ received_detail decimal e.received_tool_calls
        ∷ " Nothing was executed. Reply with a single tool call, or a final answer if the task is complete."
        ∷ [])
    else concat (
        "Harness protocol error ("
        ∷ fault_code e
        ∷ "): the previous response could not be executed as one action ("
        ∷ e.text
        ∷ "). Nothing was executed. Reply with a single valid action."
        ∷ [])

abbrev open_line : TodoItem → String
open_line i = concat ("- " ∷ i.id ∷ " (" ∷ status_value i.status ∷ "): " ∷ i.content ∷ [])

-- `_todo_feedback`
abbrev pub todo_feedback : (ℕ → String) → TodoSnapshot → String
todo_feedback decimal s = concat (
    "Harness rejected the final answer: the todo board still has "
    ∷ decimal (open_count s)
    ∷ " open item(s) at revision "
    ∷ decimal s.revision
    ∷ ".\nOpen items:\n"
    ∷ join_all "\n" (map open_line (open_items s))
    ∷ "\nEither do the remaining work and mark each item completed with write_todos, or drop the items you no longer intend to do (and explain why in rationale), then finish again."
    ∷ [])

abbrev evidence_lines : List String → List String
evidence_lines [] = []
evidence_lines (e ∷ l) = concat ("Evidence: " ∷ join_all "; " (e ∷ l) ∷ []) ∷ []

-- `_verification_feedback`
abbrev pub verification_feedback : VerificationResult → String
verification_feedback v = concat (
    "Harness verification rejected the final answer."
    ∷ concat ("\nReason: " ∷ v.reason ∷ [])
    ∷ concat (map (λ l. "\n" ++ l) (evidence_lines v.evidence))
    ∷ "\nProvide the missing evidence or correct the work, then finish again."
    ∷ [])

abbrev pub violations_error : (ℕ → String) → ModelFault → ℕ → ℕ → String
violations_error decimal e n limit = concat (
    "repeated_protocol_violation: "
    ∷ decimal n
    ∷ " violations of "
    ∷ fault_code e
    ∷ " exceeded the limit of "
    ∷ decimal limit
    ∷ [])

abbrev pub unfinished_error : (ℕ → String) → TodoSnapshot → ℕ → ℕ → String
unfinished_error decimal s n limit = concat (
    "unfinished_todos: the model finished "
    ∷ decimal n
    ∷ " times with "
    ∷ decimal (open_count s)
    ∷ " todo item(s) still open after "
    ∷ decimal limit
    ∷ " rejection(s)"
    ∷ [])
