-- ===== src/Agent/Bounds.antt =====
-- How long the loop runs, how often it asks the model and how often it runs tools, and what is
-- stored where the process dies in a tool (runtime/loop.py).
use forgeharness.Common.{
  ℕ, zero, suc, ◌+◌, ◌-◌, ◌*◌, ◌≤◌, ◌<◌, ◌≡◌, ◌≢◌, refl, sym, subst, arith, String, Bool, true,
  false, not, Option, none, some, List, Result, ok, raise, continue, pure, if◌then◌else◌, ltb,
  String_discrete,
}
use forgeharness.Table.{HasUniqueKeys}
use forgeharness.Domain.{
  RunResult, RunStatus, run_failed, exhausted, Usage, Message, ToolEvidence, process_crashed,
}
use forgeharness.Checkpoint.{task_key}
use forgeharness.Agent.Setting.{Runtime, Run, World, AgentError, tool_error, out_of_rounds}
use forgeharness.Agent.ModelCall.{invoke_model_once}
use forgeharness.Agent.Pieces.{Progress, Turn, ended, again, tokens_exhausted}
use forgeharness.Agent.Loop.{
  finish, step, turn, rounds, drive, is_late, begin_evidence, deadline_error,
}
use forgeharness.Agent.Snapshots.{finish_run}
use forgeharness.Agent.Quiet.{requests, dispatched, IsKeyed}
use forgeharness.Agent.Turns.{GoesOn, finish-QuietTurn}
use forgeharness.Agent.Turning.{Turning, IsAdmitted, left_after, attempts_left, quiet-Turning}
use forgeharness.Agent.Charging.{one_step, invoke-Invoked, charged-Turning}

abbrev requests_left : Runtime → Result AgentError Turn → ℕ
requests_left x (ok (again q)) = x.budget.max_steps - q.usage.steps
requests_left x _ = 0

-- What one round of the loop does from the usage `u`.
record Rounding (x : Runtime) (task : String) (u : Usage) (w : World)
    (end : Result AgentError Turn × World) : Type 0 where
  asked : requests end.1 + requests_left x end.0 ≤ requests w + (x.budget.max_steps - u.steps)
  paid : dispatched end.1 + left_after x end.0 ≤ dispatched w + attempts_left x u.tool_calls
  steps : GoesOn (λ q. u.steps + 1 ≤ q.usage.steps) end.0
  within : GoesOn (λ q. u.steps < x.budget.max_steps) end.0
  keyed : IsKeyed w → IsKeyed end.1
  bounded : end.0 ≢ raise out_of_rounds
  crashed :
      x.has_checkpoints ≡ true
      → IsKeyed w
      → end.0 ≡ raise (tool_error process_crashed)
      → IsAdmitted x task end.1

module _ (x : Runtime) (task : String) (workspace : Option String) where
  Turning-Rounding :
      (u : Usage) (w w1 : World) (m : Run Turn)
      → Turning x task (one_step u) m
      → requests w1 + (x.budget.max_steps - (u.steps + 1))
        ≤ requests w + (x.budget.max_steps - u.steps)
      → dispatched w1 ≡ dispatched w
      → w1.checkpoints ≡ w.checkpoints
      → GoesOn (λ q. u.steps < x.budget.max_steps) (m w1).0
      → Rounding x task u w (m w1)
  Turning-Rounding u w w1 m t asked ran rows within = record {
    asked = omega (arith, t.asks w1, asked, fewer (m w1).0 (t.steps w1));
    paid = omega (arith, t.paid w1, ran);
    steps = t.steps w1;
    within = within;
    keyed = λ k. t.keyed w1 (same k);
    bounded = t.bounded w1;
    crashed = λ has k. t.crashed w1 has (same k);
  }
    where
      fewer :
          (r : Result AgentError Turn)
          → GoesOn (λ q. u.steps + 1 ≤ q.usage.steps) r
          → requests_left x r ≤ x.budget.max_steps - (u.steps + 1)
      fewer (ok (again q)) h = omega (arith, h)
      fewer (ok (ended r)) h = omega arith
      fewer (raise e) h = omega arith

      same : IsKeyed w → IsKeyed w1
      same k = subst (λ c. HasUniqueKeys String_discrete task_key c) (sym rows) k

  -- A part of the loop that ends it.
  finish-Rounding :
      (p : Progress) (status : RunStatus) (e : Option String) (w : World)
      → Rounding x task p.usage w (finish x task workspace p status none e w)
  unfolding finish
  finish-Rounding p status e w =
      let u = one_step p.usage in
      Turning-Rounding p.usage w w _
        (quiet-Turning x task u u (omega arith) (omega arith) _
          (finish-QuietTurn x task workspace p u status none e))
        (omega arith) refl refl
        (ends_there (finish_run x task status p.messages p.usage p.revision none e w))
    where
      ends_there :
          (r : Result AgentError RunResult × World)
          → GoesOn
              (λ q. p.usage.steps < x.budget.max_steps)
              (continue r.0 (λ (v : RunResult). pure (ended v)) r.1).0
      ends_there (ok v, w1) = tt
      ends_there (raise c, w1) = tt

  step-Rounding :
      (p : Progress)
      → p.usage.steps < x.budget.max_steps
      → (w : World) → Rounding x task p.usage w (step x task workspace p w)
  unfolding step
  step-Rounding p lt w =
      let i = invoke-Invoked x p.usage w (record { task_id = task; messages = p.messages }) in
      let w1 =
        (invoke_model_once x p.usage (record { task_id = task; messages = p.messages }) w).1 in
      let next =
        Turning-Rounding p.usage w w1 _
          (charged-Turning x task workspace p.usage (record p { usage = i.outcome.usage })
            i.outcome.kind i.charged)
          (omega (arith, i.asked)) i.ran i.keyed (steps_left _) in
      rw i.returned next
    where
      steps_left : (r : Result AgentError Turn) → GoesOn (λ q. p.usage.steps < x.budget.max_steps) r
      steps_left (ok (again q)) = lt
      steps_left (ok (ended v)) = tt
      steps_left (raise c) = tt

  if-Rounding :
      (u : Usage) (w : World) (b : Bool) (m n : Run Turn)
      → (b ≡ true → Rounding x task u w (m w))
      → (b ≡ false → Rounding x task u w (n w))
      → Rounding x task u w ((if b then m else n) w)
  if-Rounding u w true m n h k = h refl
  if-Rounding u w false m n h k = k refl

  turn-Rounding :
      (deadline : Option ℕ) (p : Progress) (w : World)
      → Rounding x task p.usage w (turn x task workspace deadline p w)
  unfolding turn
  turn-Rounding deadline p w =
      if-Rounding p.usage w (not (ltb p.usage.steps x.budget.max_steps))
        (finish x task workspace p exhausted none (some "step budget exhausted")) late_or_on
        (λ _. finish-Rounding p exhausted (some "step budget exhausted") w)
        λ within.
          if-Rounding p.usage w (is_late x task workspace deadline p.usage)
            (finish x task workspace p run_failed none
              (some (deadline_error x task workspace x.budget.max_wall_ms)))
            exhausted_or_on
            (λ _.
              finish-Rounding p run_failed
                (some (deadline_error x task workspace x.budget.max_wall_ms)) w)
            λ _.
              if-Rounding p.usage w (tokens_exhausted x p.usage)
                (finish x task workspace p exhausted none (some "token budget exhausted"))
                (step x task workspace p)
                (λ _. finish-Rounding p exhausted (some "token budget exhausted") w)
                (λ _. step-Rounding p (ground (arith, within)) w)
    where
      exhausted_or_on : Run Turn
      exhausted_or_on =
          if tokens_exhausted x p.usage
          then finish x task workspace p exhausted none (some "token budget exhausted")
          else step x task workspace p

      late_or_on : Run Turn
      late_or_on =
          if is_late x task workspace deadline p.usage
          then finish x task workspace p run_failed none
              (some (deadline_error x task workspace x.budget.max_wall_ms))
          else exhausted_or_on

  -- What the loop does from the usage `u` on.
  record Driving (u : Usage) (w : World) (end : Result AgentError RunResult × World) : Type 0 where
    asked : requests end.1 ≤ requests w + (x.budget.max_steps - u.steps)
    paid : dispatched end.1 ≤ dispatched w + attempts_left x u.tool_calls
    crashed :
        x.has_checkpoints ≡ true
        → IsKeyed w
        → end.0 ≡ raise (tool_error process_crashed)
        → IsAdmitted x task end.1

  -- After a turn: the loop has ended, or goes on with `m`.
  after_turn :
      (m : Progress → Run RunResult)
      → ((q : Progress) (w : World) → Driving q.usage w (m q w))
      → (u : Usage) (w : World) (end : Result AgentError Turn × World) → Rounding x task u w end
      → Driving u w
          (continue end.0 (λ (t : Turn). elim t [ ended r ↦ pure r | again q ↦ m q ]) end.1)
  after_turn m d u w (ok (ended r), w1) t = record {
    asked = omega (arith, t.asked);
    paid = omega (arith, t.paid);
    crashed = λ has k e. absurd cc;
  }
  after_turn m d u w (ok (again q), w1) t =
      let next = d q w1 in
      record {
        asked = omega (arith, t.asked, next.asked);
        paid = omega (arith, t.paid, next.paid);
        crashed = λ has k e. next.crashed has (t.keyed k) e;
      }
  after_turn m d u w (raise e, w1) t = record {
    asked = omega (arith, t.asked);
    paid = omega (arith, t.paid);
    crashed = λ has k c. t.crashed has k cc;
  }

  rounds-Driving :
      (n : ℕ) (deadline : Option ℕ) (p : Progress) (w : World)
      → Driving p.usage w (rounds x task workspace n deadline p w)
  unfolding rounds
  rounds-Driving zero deadline p w = record {
    asked = omega arith;
    paid = omega arith;
    crashed = λ has k e. absurd cc;
  }
  rounds-Driving (suc n) deadline p w =
      after_turn (rounds x task workspace n deadline) (rounds-Driving n deadline) p.usage w
        (turn x task workspace deadline p w) (turn-Rounding deadline p w)

  rounds-bounded :
      (n : ℕ) (deadline : Option ℕ) (p : Progress) (w : World)
      → x.budget.max_steps - p.usage.steps < n
      → (rounds x task workspace n deadline p w).0 ≢ raise out_of_rounds
  unfolding rounds
  rounds-bounded zero deadline p w lt = absurd (omega arith)
  rounds-bounded (suc n) deadline p w lt =
      goes_on (turn x task workspace deadline p w) (turn-Rounding deadline p w)
        (rounds-bounded n deadline)
    where
      goes_on :
          (end : Result AgentError Turn × World)
          → Rounding x task p.usage w end
          → ((q : Progress) (w : World)
              → x.budget.max_steps - q.usage.steps < n
              → (rounds x task workspace n deadline q w).0 ≢ raise out_of_rounds)
          → (continue end.0
              (λ (t : Turn). elim t [
                | ended r ↦ pure r
                | again q ↦ rounds x task workspace n deadline q
              ])
              end.1).0
            ≢ raise out_of_rounds
      goes_on (ok (ended r), w1) t later = λ b. cc
      goes_on (raise c, w1) t later = λ b. t.bounded cc
      goes_on (ok (again q), w1) t later = later q w1 (omega (arith, t.steps, t.within))

  module _ (messages : List Message) (usage : Usage) (revision : ℕ) (given : List ToolEvidence)
      (w : World) where
    abbrev pub driven : Result AgentError RunResult × World
    driven = drive x task workspace messages usage revision given w

    -- The loop always ends by one of its own exits, with a result or with an error of the program:
    -- a round for each step that the budget leaves, and one to find the budget used up, are enough.
    pub drive-ends : driven.0 ≢ raise out_of_rounds
    unfolding drive
    drive-ends =
        rounds-bounded (suc (x.budget.max_steps - usage.steps)) _ _
          (begin_evidence x task workspace given w) (omega arith)

    -- However the loop ends, it has sent the model at most as many requests as the budget leaves steps.
    pub requests-le-steps : requests driven.1 ≤ requests w + (x.budget.max_steps - usage.steps)
    unfolding drive
    requests-le-steps = (rounds-Driving _ _ _ (begin_evidence x task workspace given w)).asked

    -- However the loop ends, its tools have been dispatched through the journal, retries included,
    -- at most as often as the budget allows attempts for the tool calls that it leaves.
    pub dispatched-le-attempts :
        dispatched driven.1
        ≤ dispatched w
          + x.budget.max_attempts_per_call * (x.budget.max_tool_calls - usage.tool_calls)
    unfolding drive
    dispatched-le-attempts = (rounds-Driving _ _ _ (begin_evidence x task workspace given w)).paid

    -- With a checkpoint store that has one row for a run, if the process dies while a tool runs, then the
    -- stored checkpoint of the run is one of a running run, its transcript ends in a call with which the
    -- dispatcher was entered and did not return, and it holds the authorization of that very call.
    pub drive-crashed :
        x.has_checkpoints ≡ true
        → IsKeyed w
        → driven.0 ≡ raise (tool_error process_crashed)
        → IsAdmitted x task driven.1
    unfolding drive
    drive-crashed has k e =
        (rounds-Driving _ _ _ (begin_evidence x task workspace given w)).crashed has k e
