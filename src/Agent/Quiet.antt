-- ===== src/Agent/Quiet.antt =====
-- The actions of the loop that neither ask the model nor run a tool (runtime/loop.py): what they
-- leave as it was, and how they can fail.
use forgeharness.Common.{
  ℕ, zero, suc, ◌+◌, ◌≡◌, ◌≢◌, refl, sym, ◌∙◌, ap, subst, arith, String, Bool, true, false, Option,
  none, some, List, [], ◌∷◌, ◌++◌, map, Result, ok, raise, Action, pure, throw, gets, lift, modify,
  guard, continue, ◌>>=◌, ◌>>◌, if◌then◌else◌, String_discrete, inl, inr, ◌⊎◌,
}
use forgeharness.Table.{HasUniqueKeys, unique-append, unique-update, key_test}
use forgeharness.Domain.{RunResult, RunStatus, Message, Usage, process_crashed}
use forgeharness.Checkpoint
use forgeharness.Checkpoint.{
  Checkpoints, CheckpointConflict, CheckpointRow, task_key, checkpoint_of, revision_of, stamped,
  at_revision, write_snapshot,
}
use forgeharness.Executor.Adding.{is_dispatch}
use forgeharness.Agent.Setting.{
  Runtime, Run, World, AgentEvent, AgentError, tool_error, out_of_rounds, log, model_request,
  tool_event,
}
use forgeharness.Agent.Snapshots.{
  on_store, lift_conflict, store_snapshot, checkpoint, save_running, finish_run,
}

-- The requests to the model that a trace records, and the physical dispatches of tools.
unfoldable pub request_count : AgentEvent → ℕ
request_count model_request = 1
request_count _ = 0

unfoldable pub dispatch_count : AgentEvent → ℕ
unfolding is_dispatch
dispatch_count (tool_event e) = is_dispatch e
dispatch_count _ = 0

unfoldable pub total : (AgentEvent → ℕ) → List AgentEvent → ℕ
total f [] = 0
total f (e ∷ l) = f e + total f l

pub total-append :
    (f : AgentEvent → ℕ) (l m : List AgentEvent) → total f (l ++ m) ≡ total f l + total f m
unfolding total
total-append f [] m = omega arith
total-append f (e ∷ l) m = omega (arith, total-append f l m)

abbrev pub requests : World → ℕ
requests w = total request_count w.trace

abbrev pub dispatched : World → ℕ
dispatched w = total dispatch_count w.trace

abbrev pub IsKeyed : World → Type 0
IsKeyed w = HasUniqueKeys String_discrete task_key w.checkpoints

-- The errors that are neither the death of the process in a tool nor the model's own bound.
abbrev pub IsBenign : AgentError → Type 0
IsBenign e = (e ≢ out_of_rounds) × (e ≢ tool_error process_crashed)

abbrev pub Raises : {A : Type 0} → Result AgentError A → Type 0
Raises (ok a) = Unit
Raises (raise e) = IsBenign e

pub record Quiet {A : Type 0} (m : Run A) : Type 0 where
  pub asks : (w : World) → requests (m w).1 ≡ requests w
  pub runs : (w : World) → dispatched (m w).1 ≡ dispatched w
  pub keyed : (w : World) → IsKeyed w → IsKeyed (m w).1
  pub raises : (w : World) → Raises (m w).0

module _ {A B : Type 0} where
  continue-asks :
      (r : Result AgentError A) (f : A → Run B)
      → ((a : A) → Quiet (f a))
      → (w : World) → Raises r
      → (requests (continue r f w).1 ≡ requests w)
        × (dispatched (continue r f w).1 ≡ dispatched w)
        × (IsKeyed w → IsKeyed (continue r f w).1)
        × Raises (continue r f w).0
  continue-asks (ok a) f h w g = ((h a).asks w, (h a).runs w, (h a).keyed w, (h a).raises w)
  continue-asks (raise e) f h w g = (refl, refl, (λ k. k), g)

  pub Quiet-bind : (m : Run A) (f : A → Run B) → Quiet m → ((a : A) → Quiet (f a)) → Quiet (m >>= f)
  Quiet-bind m f q h = record {
    asks = λ w. (continue-asks (m w).0 f h (m w).1 (q.raises w)).0 ∙ q.asks w;
    runs = λ w. (continue-asks (m w).0 f h (m w).1 (q.raises w)).1 ∙ q.runs w;
    keyed = λ w k. (continue-asks (m w).0 f h (m w).1 (q.raises w)).2 (q.keyed w k);
    raises = λ w. (continue-asks (m w).0 f h (m w).1 (q.raises w)).3;
  }

  pub Quiet-then : (m : Run A) (k : Run B) → Quiet m → Quiet k → Quiet (m >> k)
  Quiet-then m k q h = Quiet-bind m (λ _. k) q (λ _. h)

module _ {A : Type 0} where
  pub Quiet-pure : (a : A) → Quiet (pure a)
  Quiet-pure a = record { asks = λ w. refl; runs = λ w. refl; keyed = λ w k. k; raises = λ w. tt }

  pub Quiet-gets : (f : World → A) → Quiet (gets f)
  Quiet-gets f = record { asks = λ w. refl; runs = λ w. refl; keyed = λ w k. k; raises = λ w. tt }

  pub Quiet-lift : (r : Result AgentError A) → Raises r → Quiet (lift r)
  Quiet-lift r g = record { asks = λ w. refl; runs = λ w. refl; keyed = λ w k. k; raises = λ w. g }

  pub Quiet-if : (b : Bool) (m n : Run A) → Quiet m → Quiet n → Quiet (if b then m else n)
  Quiet-if true m n p q = p
  Quiet-if false m n p q = q

pub Quiet-guard : (b : Bool) (e : AgentError) → IsBenign e → Quiet (guard b e)
Quiet-guard true e g = record {
  asks = λ w. refl;
  runs = λ w. refl;
  keyed = λ w k. k;
  raises = λ w. tt;
}
Quiet-guard false e g = record {
  asks = λ w. refl;
  runs = λ w. refl;
  keyed = λ w k. k;
  raises = λ w. g;
}

pub Quiet-modify :
    (f : World → World)
    → ((w : World) → (f w).trace ≡ w.trace)
    → ((w : World) → (f w).checkpoints ≡ w.checkpoints)
    → Quiet (modify f)
Quiet-modify f same stays = record {
  asks = λ w. ap (total request_count) (same w);
  runs = λ w. ap (total dispatch_count) (same w);
  keyed = λ w k. subst (λ c. HasUniqueKeys String_discrete task_key c) (sym (stays w)) k;
  raises = λ w. tt;
}

pub Quiet-log : (e : AgentEvent) → request_count e ≡ 0 → dispatch_count e ≡ 0 → Quiet (log e)
unfolding total
Quiet-log e p q = record {
  asks = λ w. omega (arith, total-append request_count w.trace (e ∷ []), p);
  runs = λ w. omega (arith, total-append dispatch_count w.trace (e ∷ []), q);
  keyed = λ w k. k;
  raises = λ w. tt;
}

abbrev IsKeyedTable : Checkpoints → Type 0
IsKeyedTable rows = HasUniqueKeys String_discrete task_key rows

save-IsKeyed :
    (r : RunResult) (rows : Checkpoints)
    → IsKeyedTable rows
    → IsKeyedTable (Checkpoint.save r rows).1
unfolding Checkpoint.save write_snapshot
save-IsKeyed r rows u = by_row (checkpoint_of r.task_id rows) refl
  where
    by_row :
        (o : Option CheckpointRow)
        → checkpoint_of r.task_id rows ≡ o
        → IsKeyedTable (Checkpoint.save r rows).1
    by_row none e = ground (
      arith,
      unique-append String_discrete task_key rows
          (record { task_id = r.task_id; revision = 1; payload = stamped r 1 }) u e,
    )
    by_row (some c) e = ground (
      arith,
      unique-update String_discrete task_key
          (key_test String_discrete task_key r.task_id (at_revision c.revision))
          (λ (x : CheckpointRow). record x {
            revision = c.revision + 1;
            payload = stamped r (c.revision + 1);
          })
          (λ x. refl) rows u,
    )

lift_conflict-Raises : {A : Type 0} (r : Result CheckpointConflict A) → Raises (lift_conflict r)
lift_conflict-Raises (ok a) = tt
lift_conflict-Raises (raise e) = ((λ p. cc), (λ p. cc))

on_store-Quiet : (r : RunResult) → Quiet (on_store (Checkpoint.save r))
on_store-Quiet r = record {
  asks = λ w. refl;
  runs = λ w. refl;
  keyed = λ w k. save-IsKeyed r w.checkpoints k;
  raises = λ w. lift_conflict-Raises (Checkpoint.save r w.checkpoints).0;
}

pub ruleset quiet_rules = (
  Quiet-bind, Quiet-then, Quiet-pure, Quiet-gets, Quiet-lift, Quiet-if, Quiet-log, Quiet-modify,
  refl,
)

module _ (x : Runtime) where
  store_snapshot-Quiet : (r : RunResult) → Quiet (store_snapshot x r)
  unfolding store_snapshot request_count dispatch_count
  store_snapshot-Quiet r = search (quiet_rules, on_store-Quiet)

  pub checkpoint-Quiet : (r : RunResult) → Quiet (checkpoint x r)
  unfolding checkpoint
  checkpoint-Quiet r = search (quiet_rules, store_snapshot-Quiet)

  pub save_running-Quiet :
      (task : String) (messages : List Message) (usage : Usage) (revision : ℕ)
      → Quiet (save_running x task messages usage revision)
  unfolding save_running
  save_running-Quiet task messages usage revision = search (quiet_rules, checkpoint-Quiet)

  pub finish_run-Quiet :
      (task : String) (status : RunStatus) (messages : List Message) (usage : Usage) (revision : ℕ)
      (final_output error : Option String)
      → Quiet (finish_run x task status messages usage revision final_output error)
  unfolding finish_run request_count dispatch_count
  finish_run-Quiet task status messages usage revision final_output error =
      search (quiet_rules, checkpoint-Quiet)
