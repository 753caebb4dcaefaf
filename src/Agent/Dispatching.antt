-- ===== src/Agent/Dispatching.antt =====
-- The part of a round that runs a tool: the write of the admitted call, the dispatch, and what is
-- made of the output (runtime/loop.py).
use forgeharness.Common.{
  ℕ, ◌+◌, ◌≤◌, ◌≡◌, ◌≢◌, refl, sym, ◌∙◌, ap, subst, arith, String, Option, none, some, List, [],
  ◌∷◌, ◌++◌, map, Result, ok, raise, continue, pure, modify, map_option, ◌>>◌,
}
use forgeharness.Domain.{Usage, ToolCall, ToolOutput, Message, Error, ToolContext, process_crashed}
use forgeharness.Executor
use forgeharness.Executor.{Event, account_usage}
use forgeharness.Executor.Adding.{is_dispatch, dispatches}
use forgeharness.Executor.Deaths.{dispatch-died}
use forgeharness.Executor.Bounds.{dispatch-le-budget}
use forgeharness.Agent.Setting.{
  Runtime, Run, World, AgentError, tool_error, out_of_rounds, lift_error, executor, tool_event,
  on_tools,
}
use forgeharness.Agent.Snapshots.{outstanding_call}
use forgeharness.Agent.Pieces.{Progress, requesting, absorb}
use forgeharness.Agent.Loop.{dispatch_tool, take_output}
use forgeharness.Agent.Quiet.{
  requests, dispatched, request_count, dispatch_count, total, total-append, Quiet-bind, Quiet-then,
}
use forgeharness.Agent.Turns.{
  QuietTurn, QuietTurn-then, absorb-Quiet, trace_todo_update-Quiet, save_again-QuietTurn,
}

traced-requests : (l : List Event) → total request_count (map tool_event l) ≡ 0
unfolding total request_count
traced-requests [] = refl
traced-requests (e ∷ l) = omega (arith, traced-requests l)

pub traced-dispatches : (l : List Event) → total dispatch_count (map tool_event l) ≡ dispatches l
unfolding total dispatch_count dispatches
traced-dispatches [] = refl
traced-dispatches (e ∷ l) = ap (λ n. is_dispatch e + n) (traced-dispatches l)

lifted : {A : Type 0} (r : Result Error A) → lift_error r ≢ raise out_of_rounds
lifted (ok a) p = cc
lifted (raise e) p = cc

lifted_death :
    {A : Type 0} (r : Result Error A)
    → lift_error r ≡ raise (tool_error process_crashed)
    → r ≡ raise process_crashed
lifted_death (ok a) p = absurd cc
lifted_death (raise e) p = ground arith

-- The transcript of an admitted call ends in it.
pub outstanding_call-append :
    (l : List Message) (call : ToolCall) → outstanding_call (l ++ requesting call ∷ []) ≡ some call
outstanding_call-append [] call = refl
outstanding_call-append (m ∷ []) call = refl
outstanding_call-append (m ∷ n ∷ l) call = outstanding_call-append (n ∷ l) call

module _ (x : Runtime) (task : String) (workspace : Option String) where
  -- A dispatch asks for no model and writes no checkpoint.
  pub record Dispatching (call : ToolCall) (usage : Usage) (revision : ℕ) : Type 0 where
    pub asks :
        (w : World) → requests (dispatch_tool x task workspace call usage revision w).1 ≡ requests w
    pub runs :
        (w : World)
        → dispatched (dispatch_tool x task workspace call usage revision w).1
          ≤ dispatched w + x.budget.max_attempts_per_call
    pub stays :
        (w : World)
        → (dispatch_tool x task workspace call usage revision w).1.checkpoints ≡ w.checkpoints
    pub died :
        (w : World)
        → (dispatch_tool x task workspace call usage revision w).0
          ≡ raise (tool_error process_crashed)
        → (context : ToolContext) × (x.dispatch call context ≡ none)
    pub bounded :
        (w : World) → (dispatch_tool x task workspace call usage revision w).0 ≢ raise out_of_rounds

  module _ (call : ToolCall) (usage : Usage) (revision : ℕ) where
    abbrev calling : Run ToolOutput
    calling =
        on_tools x call.id
          (λ e. Executor.dispatch e x.has_journal task call workspace usage revision none)

    calling-asks : (w : World) → requests (calling w).1 ≡ requests w
    calling-asks w =
        omega (arith, total-append request_count w.trace (map tool_event _), traced-requests _)

    abbrev inner : World → List Event
    inner w =
        (Executor.dispatch (executor x w.context call.id) x.has_journal task call workspace usage
          revision none (record { db = w.journal; trace = [] })).1.trace

    calling-runs :
        (w : World) → dispatched (calling w).1 ≤ dispatched w + x.budget.max_attempts_per_call
    unfolding dispatches
    calling-runs w = omega (
      arith,
      total-append dispatch_count w.trace (map tool_event (inner w)),
      traced-dispatches (inner w),
      dispatch-le-budget (executor x w.context call.id) task call workspace usage revision
          x.has_journal (record { db = w.journal; trace = [] }),
    )

    abbrev leaving_board : ToolOutput → Run ToolOutput
    leaving_board output =
        modify (λ (w : World). record w { todos = map_option (x.board_after call output) w.todos })
        >> pure output

    leaves_board :
        (r : Result AgentError ToolOutput) (w : World)
        → let next = continue r leaving_board w in
          (next.1.trace ≡ w.trace)
          × (next.1.checkpoints ≡ w.checkpoints)
          × (r ≢ raise out_of_rounds → next.0 ≢ raise out_of_rounds)
          × (next.0 ≡ raise (tool_error process_crashed) → r ≡ raise (tool_error process_crashed))
    leaves_board (ok o) w = (refl, refl, (λ g p. cc), λ p. absurd cc)
    leaves_board (raise e) w = (refl, refl, (λ g. g), λ p. ground arith)

    pub dispatch_tool-Dispatching : Dispatching call usage revision
    unfolding dispatch_tool
    dispatch_tool-Dispatching = record {
      asks = λ w.
          ap (total request_count) (leaves_board (calling w).0 (calling w).1).0 ∙ calling-asks w;
      runs = λ w.
          subst (λ t. total dispatch_count t ≤ dispatched w + x.budget.max_attempts_per_call)
            (sym (leaves_board (calling w).0 (calling w).1).0) (calling-runs w);
      stays = λ w. (leaves_board (calling w).0 (calling w).1).1;
      died = λ w p.
          dispatch-died (executor x w.context call.id) task call workspace usage revision
            x.has_journal none (record { db = w.journal; trace = [] })
            (lifted_death _ ((leaves_board (calling w).0 (calling w).1).3 p));
      bounded = λ w. (leaves_board (calling w).0 (calling w).1).2 (lifted _);
    }

  -- What is made of an output is quiet, and charges the call.
  module _ (call : ToolCall) (o : ToolOutput) (p : Progress) where
    pub take_output-QuietTurn :
        QuietTurn (account_usage p.usage o.usage) (take_output x task workspace call o p)
    unfolding take_output absorb
    take_output-QuietTurn = record {
      quiet = Quiet-bind _ _ (absorb-Quiet x call o p) λ next.
          Quiet-then _ _ (trace_todo_update-Quiet x call o)
            (save_again-QuietTurn x task workspace next next.usage refl).quiet;
      goes_on = λ w.
          (QuietTurn-then _ _ _ (trace_todo_update-Quiet x call o) (
              save_again-QuietTurn x task workspace _ (account_usage p.usage o.usage) refl)).goes_on
            _;
    }

pub account_usage-le :
    (u : Usage) (child : Option Usage)
    → (u.steps ≤ (account_usage u child).steps)
      × (u.tool_calls + 1 ≤ (account_usage u child).tool_calls)
account_usage-le u none = (omega arith, omega arith)
account_usage-le u (some c) = (omega arith, omega arith)
