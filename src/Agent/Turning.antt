-- ===== src/Agent/Turning.antt =====
-- What one round of the loop costs, and what the stores hold where the process dies in a tool
-- (runtime/loop.py).
use native.Mathlib.Nat.{mul-suc, mul-le-mul_left}
use forgeharness.Common.{
  ℕ, suc, ◌+◌, ◌-◌, ◌*◌, ◌≤◌, ◌<◌, ◌≡◌, ◌≢◌, sym, ap, subst, arith, String, true, none, some,
  Result, ok, raise,
}
use forgeharness.Domain.{RunResult, running, Usage, ToolCall, ToolContext, process_crashed}
use forgeharness.Checkpoint
use forgeharness.Agent.Setting.{Runtime, Run, World, AgentError, tool_error, out_of_rounds}
use forgeharness.Agent.Snapshots.{outstanding_call}
use forgeharness.Agent.Pieces.{Turn, ended, again}
use forgeharness.Agent.Quiet.{requests, dispatched, IsKeyed, Raises}
use forgeharness.Agent.Turns.{GoesOn, QuietTurn}

-- The checkpoint of a task is that of a running task, which ends in a call whose authorization it
-- holds, and it is this call that the dispatcher was given when it did not return.
pub record IsAdmitted (x : Runtime) (task : String) (w : World) : Type 0 where
  pub stored : RunResult
  pub call : ToolCall
  pub found : Checkpoint.load task w.checkpoints ≡ some stored
  pub status : stored.status ≡ running
  pub outstanding : outstanding_call stored.messages ≡ some call
  pub authorized : stored.authorized_call_id ≡ some call.id
  pub died : (context : ToolContext) × (x.dispatch call context ≡ none)

-- the attempts that the budget leaves after `calls` tool calls
abbrev pub attempts_left : Runtime → ℕ → ℕ
attempts_left x calls = x.budget.max_attempts_per_call * (x.budget.max_tool_calls - calls)

abbrev pub left_after : Runtime → Result AgentError Turn → ℕ
left_after x (ok (again q)) = attempts_left x q.usage.tool_calls
left_after x _ = 0

pub record Turning (x : Runtime) (task : String) (u : Usage) (m : Run Turn) : Type 0 where
  pub asks : (w : World) → requests (m w).1 ≡ requests w
  pub paid :
      (w : World)
      → dispatched (m w).1 + left_after x (m w).0 ≤ dispatched w + attempts_left x u.tool_calls
  pub steps : (w : World) → GoesOn (λ q. u.steps ≤ q.usage.steps) (m w).0
  pub keyed : (w : World) → IsKeyed w → IsKeyed (m w).1
  pub bounded : (w : World) → (m w).0 ≢ raise out_of_rounds
  pub crashed :
      (w : World)
      → x.has_checkpoints ≡ true
      → IsKeyed w
      → (m w).0 ≡ raise (tool_error process_crashed)
      → IsAdmitted x task (m w).1

module _ (x : Runtime) where
  pub attempts_left-le : (a b : ℕ) → a ≤ b → attempts_left x b ≤ attempts_left x a
  attempts_left-le a b h = mul-le-mul_left x.budget.max_attempts_per_call (omega arith)

  pub attempts_left-suc :
      (a : ℕ)
      → a < x.budget.max_tool_calls
      → x.budget.max_attempts_per_call + attempts_left x (a + 1) ≤ attempts_left x a
  attempts_left-suc a h =
      let e : x.budget.max_tool_calls - a ≡ suc (x.budget.max_tool_calls - (a + 1)) = omega arith in
      omega (
        arith,
        ap (λ n. x.budget.max_attempts_per_call * n) e,
        mul-suc x.budget.max_attempts_per_call (x.budget.max_tool_calls - (a + 1)),
      )

-- A quiet part of a round with no less usage.
pub benign-not :
    {A : Type 0} (r : Result AgentError A)
    → Raises r
    → (r ≢ raise out_of_rounds) × (r ≢ raise (tool_error process_crashed))
benign-not (ok a) g = ((λ p. cc), (λ p. cc))
benign-not (raise e) g = ((λ p. g.0 cc), (λ p. g.1 cc))

module _ (x : Runtime) (task : String) (u u' : Usage) (fewer : u.steps ≤ u'.steps)
    (calls : u.tool_calls ≤ u'.tool_calls) where
  left_by_usage :
      (r : Result AgentError Turn)
      → GoesOn (λ q. q.usage ≡ u') r
      → (left_after x r ≤ attempts_left x u.tool_calls) × GoesOn (λ q. u.steps ≤ q.usage.steps) r
  left_by_usage (ok (again q)) h = (
    subst (λ (v : Usage). attempts_left x v.tool_calls ≤ attempts_left x u.tool_calls) (sym h)
        (attempts_left-le x u.tool_calls u'.tool_calls calls),
    subst (λ (v : Usage). u.steps ≤ v.steps) (sym h) fewer,
  )
  left_by_usage (ok (ended r)) h = (omega arith, tt)
  left_by_usage (raise e) h = (omega arith, tt)

  pub quiet-Turning : (m : Run Turn) → QuietTurn u' m → Turning x task u m
  quiet-Turning m q = record {
    asks = q.quiet.asks;
    paid = λ w. omega (arith, q.quiet.runs w, (left_by_usage (m w).0 (q.goes_on w)).0);
    steps = λ w. (left_by_usage (m w).0 (q.goes_on w)).1;
    keyed = q.quiet.keyed;
    bounded = λ w. (benign-not (m w).0 (q.quiet.raises w)).0;
    crashed = λ w has k p. absurd ((benign-not (m w).0 (q.quiet.raises w)).1 p);
  }
