-- ===== src/Agent/Charging.antt =====
-- What a model call charges, and what the rest of its round does then (runtime/model_call.py,
-- runtime/loop.py).
use forgeharness.Common.{
  ℕ, ◌+◌, ◌≤◌, ◌≡◌, refl, subst, arith, String, Bool, true, false, Option, none, List, [], ◌∷◌,
  ◌++◌, Result, ok, raise,
}
use forgeharness.Domain.{run_failed, Usage}
use forgeharness.Agent.Setting.{
  Runtime, Run, World, AgentEvent, AgentError, ModelRequest, ModelResult, ModelFault, Preparation,
  prepared, too_large, not_prepared, context_overflow, model_preparation_failed, model_request,
  model_failed, model_action,
}
use forgeharness.Agent.ModelCall.{
  ModelCallKind, success, overflowed, preparation_failed, failed, violated, ModelCallOutcome,
  failed_outcome, settle_reply, dispatch_model_once, invoke_prepared, invoke_model_once,
}
use forgeharness.Agent.Pieces.{Progress, Turn, ended, again}
use forgeharness.Agent.Loop.{finish, handle_outcome}
use forgeharness.Agent.Quiet.{
  requests, dispatched, request_count, dispatch_count, total, total-append,
}
use forgeharness.Agent.Turns.{GoesOn, finish-QuietTurn}
use forgeharness.Agent.Turning.{Turning, left_after, attempts_left, quiet-Turning}
use forgeharness.Agent.Rounds.{handle_outcome-Turning}

-- A model call that the loop goes on after has charged one step.
abbrev pub IsCharged : Usage → ModelCallKind → Usage → Type 0
IsCharged u (success r) v = (v.tool_calls ≡ u.tool_calls) × (v.steps ≡ u.steps + 1)
IsCharged u (violated e) v = (v.tool_calls ≡ u.tool_calls) × (v.steps ≡ u.steps + 1)
IsCharged u _ v = v.tool_calls ≡ u.tool_calls

pub record Invoked (k : ℕ) (u : Usage) (m : Run ModelCallOutcome) (w : World) : Type 0 where
  pub outcome : ModelCallOutcome
  pub returned : (m w).0 ≡ ok outcome
  pub charged : IsCharged u outcome.kind outcome.usage
  pub asked : requests (m w).1 ≤ requests w + k
  pub ran : dispatched (m w).1 ≡ dispatched w
  pub keyed : (m w).1.checkpoints ≡ w.checkpoints

total-one :
    (f : AgentEvent → ℕ) (l : List AgentEvent) (e : AgentEvent)
    → total f (l ++ e ∷ []) ≡ total f l + f e
unfolding total
total-one f l e = omega (arith, total-append f l (e ∷ []))

module _ (x : Runtime) (u : Usage) where
  failed_outcome-charged :
      (e : ModelFault) → IsCharged u (failed_outcome u e).kind (failed_outcome u e).usage
  failed_outcome-charged e = by_kind e.recoverable refl
    where
      by_kind :
          (b : Bool)
          → e.recoverable ≡ b
          → IsCharged u (failed_outcome u e).kind (failed_outcome u e).usage
      by_kind true h = rw h (refl, refl)
      by_kind false h = rw h refl

  settled : (w : World) (r : Result ModelFault ModelResult) → Invoked 0 u (settle_reply x u r) w
  unfolding settle_reply request_count dispatch_count
  settled w (ok r) = record {
    outcome = _;
    returned = refl;
    charged = (refl, refl);
    asked = omega (arith, total-one request_count w.trace (model_action r.action _));
    ran = omega (arith, total-one dispatch_count w.trace (model_action r.action _));
    keyed = refl;
  }
  settled w (raise e) = record {
    outcome = failed_outcome u e;
    returned = refl;
    charged = failed_outcome-charged e;
    asked = omega (arith, total-one request_count w.trace (model_failed e.name e.recoverable));
    ran = omega (arith, total-one dispatch_count w.trace (model_failed e.name e.recoverable));
    keyed = refl;
  }

  prepared-Invoked : (w : World) (q : Preparation) → Invoked 1 u (invoke_prepared x u q) w
  unfolding invoke_prepared dispatch_model_once request_count dispatch_count
  prepared-Invoked w (too_large text) = record {
    outcome = _;
    returned = refl;
    charged = refl;
    asked = omega (arith, total-one request_count w.trace context_overflow);
    ran = omega (arith, total-one dispatch_count w.trace context_overflow);
    keyed = refl;
  }
  prepared-Invoked w not_prepared = record {
    outcome = _;
    returned = refl;
    charged = refl;
    asked = omega (arith, total-one request_count w.trace model_preparation_failed);
    ran = omega (arith, total-one dispatch_count w.trace model_preparation_failed);
    keyed = refl;
  }
  prepared-Invoked w (prepared request) =
      let w1 : World = record w { trace = w.trace ++ model_request ∷ [] } in
      let i = settled w1 (x.decide u.steps request) in
      record {
        outcome = i.outcome;
        returned = i.returned;
        charged = i.charged;
        asked = omega (arith, i.asked, total-one request_count w.trace model_request);
        ran = omega (arith, i.ran, total-one dispatch_count w.trace model_request);
        keyed = i.keyed;
      }

  pub invoke-Invoked :
      (w : World) (request : ModelRequest) → Invoked 1 u (invoke_model_once x u request) w
  unfolding invoke_model_once
  invoke-Invoked w request =
      let i = prepared-Invoked w (x.prepare u.steps (x.pinned_messages w.todos) request) in
      record {
        outcome = i.outcome;
        returned = i.returned;
        charged = i.charged;
        asked = i.asked;
        ran = i.ran;
        keyed = i.keyed;
      }

abbrev pub one_step : Usage → Usage
one_step u = record u { steps = u.steps + 1 }

module _ (x : Runtime) (task : String) (workspace : Option String) where
  weaken :
      (u v : Usage) (m : Run Turn)
      → u.steps ≤ v.steps
      → v.tool_calls ≡ u.tool_calls
      → Turning x task v m
      → Turning x task u m
  weaken u v m steps calls t = record {
    asks = t.asks;
    paid = λ w.
        subst (λ c. dispatched (m w).1 + left_after x (m w).0 ≤ dispatched w + attempts_left x c)
          calls (t.paid w);
    steps = λ w. later (m w).0 (t.steps w);
    keyed = t.keyed;
    bounded = t.bounded;
    crashed = t.crashed;
  }
    where
      later :
          (r : Result AgentError Turn)
          → GoesOn (λ q. v.steps ≤ q.usage.steps) r
          → GoesOn (λ q. u.steps ≤ q.usage.steps) r
      later (ok (again q)) h = omega (arith, h, steps)
      later (ok (ended r)) h = tt
      later (raise e) h = tt

  pub finish-Turning :
      (u : Usage) (p : Progress) (e : Option String)
      → Turning x task u (finish x task workspace p run_failed none e)
  finish-Turning u p e =
      quiet-Turning x task u u (omega arith) (omega arith) _
        (finish-QuietTurn x task workspace p u run_failed none e)

  pub charged-Turning :
      (u : Usage) (p : Progress) (k : ModelCallKind)
      → IsCharged u k p.usage
      → Turning x task (one_step u) (handle_outcome x task workspace p k)
  unfolding handle_outcome
  charged-Turning u p (success r) (calls, steps) =
      weaken (one_step u) p.usage _ (omega arith) calls
        (handle_outcome-Turning x task workspace p (success r))
  charged-Turning u p (violated e) (calls, steps) =
      weaken (one_step u) p.usage _ (omega arith) calls
        (handle_outcome-Turning x task workspace p (violated e))
  charged-Turning u p (overflowed e) calls = finish-Turning (one_step u) p _
  charged-Turning u p (preparation_failed e) calls = finish-Turning (one_step u) p _
  charged-Turning u p (failed e) calls = finish-Turning (one_step u) p _
