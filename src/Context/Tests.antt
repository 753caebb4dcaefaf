-- ===== src/Context/Tests.antt =====
-- Small runs of context/assembly.py, context/compiler.py and context/request_budget.py.
use native.Mathlib.Decide.{ℕ_discrete}
use forgeharness.Common.{
  arith, ℕ, zero, suc, ◌+◌, ◌≤◌, ◌≡◌, refl, Bool, true, false, String, none, some, List, [], ◌∷◌,
  length, Result, ok, raise, cut, String_discrete, ltb, ◌==◌, ℕ_eq, select, join_all, map, or_else,
}
use forgeharness.Domain.{Message, MessageRole, user, assistant, RunBudget}
use forgeharness.Todos.{set_of}
use forgeharness.Context.Summary.{summarize, project, preview, split_from}
use forgeharness.Context.Units.{TurnUnit, bisect_between, bisect_right, newest_units_within}
use forgeharness.Context.Windows.{longest_fitting, newest_units_within-longest_fitting}
use forgeharness.Context.Result.{
  ContextAssembler, ContextError, ContextDecision, AssembledContext, estimate, result,
  sent_messages, collected_pins, system_message,
}
use forgeharness.Context.Assembly.{compact, assemble_units, assemble}
use forgeharness.Context.Fits.{assemble-le}
use forgeharness.Context.Accounts.{IsAccounted, assemble-IsAccounted}
use forgeharness.Context.Compiler.{
  character_estimate, ContextItem, CompileError, CompiledContext, choose, compile,
}
use forgeharness.Context.Compiler.Chosen.{IsCompiled, compile-IsCompiled}
use forgeharness.Context.Request.{
  PreparedModelCall, PreparedRequest, RequestBudgetEstimate, estimate_request, prepare_rounds,
  prepare_request, IsAdmitted, prepare_request-IsAdmitted,
}

abbrev decimal : ℕ → String
decimal zero = "0"
decimal (suc zero) = "1"
decimal (suc (suc n)) = "2 or more"

-- a window of 60 tokens with the task pinned
abbrev window : ℕ → ContextAssembler
window min_recent_units = record {
  max_tokens = 60;
  estimator = character_estimate;
  min_recent_units = min_recent_units;
  summary_chars = 100;
  pin_task = true;
  pinned = none;
  spill = none;
  dumps = λ s. s;
  decimal = decimal;
}

abbrev budget : RunBudget
budget = record {
  max_steps = 5;
  max_tool_calls = 3;
  max_input_tokens = 1000;
  max_output_tokens = 1000;
  max_context_tokens = 60;
  reserve_output_tokens = 4;
  request_overhead_tokens = 0;
  max_protocol_violations = 2;
  max_attempts_per_call = 2;
  initial_backoff_ms = 1;
  backoff_numerator = 2;
  backoff_denominator = 1;
  max_backoff_ms = 8;
  max_wall_ms = none;
  tool_timeout_ms = 30000;
  max_planner_retries = 0;
}

abbrev says : MessageRole → String → Message
says role content = record {
  role = role;
  content = some content;
  tool_calls = [];
  tool_call_id = none;
  tool_name = none;
}

abbrev talk : List Message
talk =
    system_message "You are careful."
    ∷ says user "Fix the parser."
    ∷ says assistant
        "I have read the whole of the parser, its tests and the notes beside it, and I have found that the loop of the lexer stops one character early on each line that ends in a comment."
    ∷ says assistant "The loop is fixed."
    ∷ []

abbrev board : List Message
board = system_message "1 open item" ∷ []

abbrev assembled_of : Result ContextError AssembledContext → AssembledContext
assembled_of (ok r) = r
assembled_of (raise e) = record {
  messages = [];
  estimated_tokens = 0;
  compacted = false;
  dropped_messages = 0;
  decisions = [];
  pinned_messages = 0;
  compaction_ref = none;
}

abbrev fitted : AssembledContext
fitted = assembled_of (assemble (window 1) talk 5 board)

one_dropped : fitted.dropped_messages ≡ 1
unfolding assemble assemble_units compact result sent_messages estimate newest_units_within
    bisect_right bisect_between summarize project preview split_from cut character_estimate
    ℕ_discrete String_discrete
one_dropped = refl

assemble-le_example : fitted.estimated_tokens + 5 ≤ 60
unfolding assemble assemble_units compact result sent_messages estimate newest_units_within
    bisect_right bisect_between summarize project preview split_from cut character_estimate
    ℕ_discrete String_discrete
assemble-le_example = assemble-le (window 1) talk 5 board refl

assemble-IsAccounted_example : IsAccounted (window 1) talk (collected_pins (window 1) board) fitted
unfolding assemble assemble_units compact result sent_messages estimate newest_units_within
    bisect_right bisect_between summarize project preview split_from cut character_estimate
    ℕ_discrete String_discrete
assemble-IsAccounted_example = assemble-IsAccounted (window 1) talk 5 board refl refl

-- With fewer turns than `min_recent_units` the slice counts from the end: the task is folded away.
abbrev short_talk : List Message
short_talk =
    says user
      "Please read the whole of the parser, its tests and the notes beside it, and then find why the loop of the lexer stops one character early on each line that ends in a comment."
    ∷ says assistant "The loop is fixed."
    ∷ []

task_folded : (assembled_of (assemble (window 3) short_talk 15 [])).dropped_messages ≡ 1
unfolding assemble assemble_units compact result sent_messages estimate newest_units_within
    bisect_right bisect_between summarize project preview split_from cut character_estimate
    ℕ_discrete String_discrete
task_folded = refl

abbrev turns : List TurnUnit
turns =
    record { start = 0; messages = []; tokens = 4 }
    ∷ record { start = 1; messages = []; tokens = 3 }
    ∷ record { start = 2; messages = []; tokens = 2 }
    ∷ []

newest_units_within-longest_fitting_example : newest_units_within turns 6 ≡ longest_fitting turns 6
newest_units_within-longest_fitting_example = newest_units_within-longest_fitting turns 6

two_newest : length (newest_units_within turns 6) ≡ 2
unfolding newest_units_within bisect_right bisect_between
two_newest = refl

abbrev above : ℕ → ℕ → Bool
above a b = ltb b a

abbrev item : String → ℕ → Bool → ContextItem (λ a b. a == b) above
item id score required = record {
  id = id;
  source = id;
  content = "text";
  score = score;
  required = required;
}

abbrev items : List (ContextItem (λ a b. a == b) above)
items = item "a" 1 false ∷ item "b" 2 false ∷ item "c" 0 true ∷ []

abbrev compiled_of : Result CompileError CompiledContext → CompiledContext
compiled_of (ok c) = c
compiled_of (raise e) = record { text = ""; estimated_tokens = 0; decisions = [] }

abbrev compiled : CompiledContext
compiled = compiled_of (compile (λ a b. a == b) above 20 character_estimate (λ s. s) items)

same_both : (s t : ℕ) → (s == t) ≡ (t == s)
same_both s t = ground arith

not_both : (s t : ℕ) → above s t ≡ true → above t s ≡ false
not_both s t h = ground arith

compile-IsCompiled_example :
    IsCompiled (λ a b. a == b) above 20 character_estimate (λ s. s) items compiled
unfolding compile choose character_estimate set_of ℕ_discrete String_discrete
compile-IsCompiled_example =
    compile-IsCompiled (λ a b. a == b) above 20 character_estimate (λ s. s) items refl same_both
      not_both refl

two_chosen : length (select (λ (d : ContextDecision). d.included) compiled.decisions) ≡ 2
unfolding compile choose character_estimate set_of ℕ_discrete String_discrete
two_chosen = refl

abbrev call_of : List Message → PreparedModelCall
call_of messages = record {
  payload_json = join_all "," (map (λ (m : Message). or_else m.content "") messages);
  messages_json = "";
  tools_json = "";
  options_json = "";
  context_window = some 40;
  provider_overhead_tokens = none;
  output_limit = some 8;
}

abbrev request_of : Result ContextError PreparedRequest → PreparedRequest
request_of (ok r) = r
request_of (raise e) = record {
  assembled = fitted;
  prepared = call_of [];
  estimate = estimate_request (call_of []) budget;
}

abbrev requested : Result ContextError PreparedRequest × List RequestBudgetEstimate
requested = prepare_request call_of budget (window 1) talk []

prepare_request-IsAdmitted_example :
    IsAdmitted call_of budget (window 1) talk (request_of requested.0) × (length requested.1 ≤ 2)
unfolding prepare_request prepare_rounds estimate_request assemble assemble_units compact result
    sent_messages estimate newest_units_within bisect_right bisect_between summarize project preview
    split_from cut character_estimate ℕ_discrete String_discrete
prepare_request-IsAdmitted_example = prepare_request-IsAdmitted call_of budget (window 1) talk refl

one_rejected : length requested.1 ≡ 1
unfolding prepare_request prepare_rounds estimate_request assemble assemble_units compact result
    sent_messages estimate newest_units_within bisect_right bisect_between summarize project preview
    split_from cut character_estimate ℕ_discrete String_discrete
one_rejected = refl
