-- ===== src/Agent/Admitting.antt =====
-- The rounds of the loop that run a tool (runtime/loop.py).
use forgeharness.Common.{
  ℕ, ◌+◌, ◌≤◌, ◌<◌, ◌≡◌, ◌≢◌, refl, sym, ◌∙◌, ap, subst, arith, String, true, Option, none, some,
  Result, ok, raise, continue, ◌>>=◌, String_discrete, inl, inr,
}
use forgeharness.Domain.{
  RunResult, running, Usage, ToolCall, ToolOutput, ToolContext, process_crashed,
}
use forgeharness.Checkpoint
use forgeharness.Table.{HasUniqueKeys}
use forgeharness.Checkpoint.{task_key, stamped, revision_of, checkpoint_of, revision_conflict}
use forgeharness.Checkpoint.Laws.{save_lem}
use forgeharness.Executor.{account_usage}
use forgeharness.Agent.Setting.{Runtime, Run, World, AgentError, tool_error, out_of_rounds}
use forgeharness.Agent.Snapshots.{
  outstanding_call, save_running, checkpoint, store_snapshot, snapshot_of, result_of,
}
use forgeharness.Agent.Pieces.{Progress, Turn, authorize_only}
use forgeharness.Agent.Loop.{dispatch_tool, take_output, run_admitted}
use forgeharness.Agent.Quiet.{Raises, IsBenign, requests, dispatched, IsKeyed, save_running-Quiet}
use forgeharness.Agent.Turns.{GoesOn}
use forgeharness.Agent.Turning.{
  Turning, IsAdmitted, left_after, attempts_left, attempts_left-suc, benign-not, quiet-Turning,
}
use forgeharness.Agent.Dispatching.{
  dispatch_tool-Dispatching, take_output-QuietTurn, account_usage-le,
}

abbrev pub one_more : Usage → Usage
one_more u = record u { tool_calls = u.tool_calls + 1 }

-- What `Turning` says of one starting state.
pub record Turned (x : Runtime) (task : String) (u : Usage) (w : World)
    (end : Result AgentError Turn × World) : Type 0 where
  pub asks : requests end.1 ≡ requests w
  pub paid : dispatched end.1 + left_after x end.0 ≤ dispatched w + attempts_left x u.tool_calls
  pub steps : GoesOn (λ q. u.steps ≤ q.usage.steps) end.0
  pub keyed : IsKeyed w → IsKeyed end.1
  pub bounded : end.0 ≢ raise out_of_rounds
  pub crashed :
      x.has_checkpoints ≡ true
      → IsKeyed w
      → end.0 ≡ raise (tool_error process_crashed)
      → IsAdmitted x task end.1

pub Turned-Turning :
    (x : Runtime) (task : String) (u : Usage) (m : Run Turn)
    → ((w : World) → Turned x task u w (m w))
    → Turning x task u m
Turned-Turning x task u m t = record {
  asks = λ w. (t w).asks;
  paid = λ w. (t w).paid;
  steps = λ w. (t w).steps;
  keyed = λ w. (t w).keyed;
  bounded = λ w. (t w).bounded;
  crashed = λ w. (t w).crashed;
}

module _ (x : Runtime) (task : String) (workspace : Option String) (p : Progress)
    (call : ToolCall) where
  abbrev settling_output : ℕ → ToolOutput → Run Turn
  settling_output revision o =
      take_output x task workspace call o (record p { revision = revision })

  settling_output-Turning :
      (revision : ℕ) (o : ToolOutput)
      → Turning x task (one_more p.usage) (settling_output revision o)
  settling_output-Turning revision o =
      let (steps, calls) = account_usage-le p.usage o.usage in
      quiet-Turning x task (one_more p.usage) (account_usage p.usage o.usage) steps calls _
        (take_output-QuietTurn x task workspace call o (record p { revision = revision }))

  -- After a dispatch that has returned or raised.
  record Settles (revision : ℕ) (r : Result AgentError ToolOutput) (w : World)
      (end : Result AgentError Turn × World) : Type 0 where
    asks : requests end.1 ≡ requests w
    paid :
        dispatched end.1 + left_after x end.0
        ≤ dispatched w + attempts_left x (p.usage.tool_calls + 1)
    steps : GoesOn (λ q. p.usage.steps ≤ q.usage.steps) end.0
    keyed : IsKeyed w → IsKeyed end.1
    bounded : r ≢ raise out_of_rounds → end.0 ≢ raise out_of_rounds
    crashed :
        end.0 ≡ raise (tool_error process_crashed)
        → (end.1.checkpoints ≡ w.checkpoints) × (r ≡ raise (tool_error process_crashed))

  settles :
      (revision : ℕ) (r : Result AgentError ToolOutput) (w : World)
      → Settles revision r w (continue r (settling_output revision) w)
  settles revision (ok o) w =
      let t = settling_output-Turning revision o in
      let quiet =
        (take_output-QuietTurn x task workspace call o (record p { revision = revision })).quiet in
      record {
        asks = t.asks w;
        paid = t.paid w;
        steps = t.steps w;
        keyed = t.keyed w;
        bounded = λ g. t.bounded w;
        crashed = λ e. absurd ((benign-not _ (quiet.raises w)).1 e);
      }
  settles revision (raise e) w = record {
    asks = refl;
    paid = omega arith;
    steps = tt;
    keyed = λ k. k;
    bounded = λ g q. g cc;
    crashed = λ q. (refl, ground arith);
  }

  abbrev dispatching : ℕ → Run Turn
  dispatching revision =
      dispatch_tool x task workspace call p.usage revision >>= settling_output revision

  abbrev admission : ℕ → World → RunResult
  admission revision w = snapshot_of x w (result_of task running p.messages p.usage revision)

  module _ (revision n : ℕ) (w w' : World) (has : x.has_checkpoints ≡ true)
      (e : save_running x task p.messages p.usage revision w ≡ (ok n, w')) where
    saved_rows : w'.checkpoints ≡ (Checkpoint.save (admission revision w) w.checkpoints).1
    unfolding save_running checkpoint store_snapshot
    saved_rows = ground arith

    not_refused :
        (c : Checkpoint.CheckpointConflict)
        → (Checkpoint.save (admission revision w) w.checkpoints).0 ≢ raise c
    unfolding save_running checkpoint store_snapshot
    not_refused c q = ground arith

    -- The checkpoint that a call is admitted with.
    saved_admission :
        IsKeyed w
        → outstanding_call p.messages ≡ some call
        → w.authorized ≡ some call.id
        → (context : ToolContext) × (x.dispatch call context ≡ none)
        → IsAdmitted x task w'
    saved_admission k out auth died = elim (save_lem (admission revision w) w.checkpoints k) [
      | inl (read, written, found) ↦ record {
        stored =
            stamped (admission revision w) (revision_of (checkpoint_of task w.checkpoints) + 1);
        call = call;
        found = ap (Checkpoint.load task) saved_rows ∙ found;
        status = refl;
        outstanding = out;
        authorized = auth;
        died = died;
      }
      | inr (stale, refused) ↦ absurd (not_refused revision_conflict (ap (λ q. q.0) refused))
    ]

  same_rows :
      (w w' : World) → w'.checkpoints ≡ w.checkpoints → IsAdmitted x task w → IsAdmitted x task w'
  same_rows w w' e a = record {
    stored = a.stored;
    call = a.call;
    found = ap (Checkpoint.load task) e ∙ a.found;
    status = a.status;
    outstanding = a.outstanding;
    authorized = a.authorized;
    died = a.died;
  }

  module _ (lt : p.usage.tool_calls < x.budget.max_tool_calls)
      (out : outstanding_call p.messages ≡ some call) where
    -- From the state in which the call is authorized: the write, and where it succeeds the dispatch.
    after_save :
        (w : World) (s : Result AgentError ℕ × World)
        → save_running x task p.messages p.usage p.revision w ≡ s
        → w.authorized ≡ some call.id
        → Turned x task p.usage w (continue s.0 dispatching s.1)
    after_save w (ok n, w') e auth =
        let q = save_running-Quiet x task p.messages p.usage p.revision in
        let d = dispatch_tool-Dispatching x task workspace call p.usage n in
        let (r, w1) = dispatch_tool x task workspace call p.usage n w' in
        let s = settles n r w1 in
        let asked : requests w' ≡ requests w = ap (λ q. requests q.1) (sym e) ∙ q.asks w in
        let ran : dispatched w' ≡ dispatched w = ap (λ q. dispatched q.1) (sym e) ∙ q.runs w in
        record {
          asks = s.asks ∙ d.asks w' ∙ asked;
          paid = omega (arith, s.paid, d.runs w', ran, attempts_left-suc x p.usage.tool_calls lt);
          steps = s.steps;
          keyed = λ k. s.keyed (
              subst (λ c. HasUniqueKeys String_discrete task_key c) (sym (d.stays w'))
                (subst (λ q. IsKeyed q.1) e (q.keyed w k)));
          bounded = s.bounded (d.bounded w');
          crashed = λ has k c.
              same_rows w' (dispatching n w').1 ((s.crashed c).0 ∙ d.stays w')
                (saved_admission p.revision n w w' has e k out auth (d.died w' (s.crashed c).1));
        }
    after_save w (raise e, w') h auth =
        let q = save_running-Quiet x task p.messages p.usage p.revision in
        let g : IsBenign e = subst (λ q. Raises q.0) h (q.raises w) in
        record {
          asks = ap (λ q. requests q.1) (sym h) ∙ q.asks w;
          paid = omega (arith, ap (λ q. dispatched q.1) (sym h) ∙ q.runs w);
          steps = tt;
          keyed = λ k. subst (λ q. IsKeyed q.1) h (q.keyed w k);
          bounded = λ b. g.0 cc;
          crashed = λ has k c. absurd (g.1 cc);
        }

    pub run_admitted-Turning : Turning x task p.usage (run_admitted x task workspace p call)
    unfolding run_admitted
    run_admitted-Turning =
        let t : (w : World)
            → Turned x task p.usage (authorize_only (some call.id) w)
                (run_admitted x task workspace p call w) =
          λ w. after_save (authorize_only (some call.id) w) _ refl refl in
        record {
          asks = λ w. (t w).asks;
          paid = λ w. (t w).paid;
          steps = λ w. (t w).steps;
          keyed = λ w. (t w).keyed;
          bounded = λ w. (t w).bounded;
          crashed = λ w. (t w).crashed;
        }
