-- ===== src/Orchestration/Projection.antt =====
-- What a save of `OrchestrationStore` leaves in the tables (state/orchestration.py).
use forgeharness.Common.{
  ℕ, ◌+◌, ◌≡◌, ◌⊎◌, inl, inr, refl, sym, ap, subst, ◌∙◌, arith, String, Bool, Option, none, some,
  List, [], ◌∷◌, ◌++◌, Result, ok, raise, String_discrete, is_some, holds_refl,
}
use forgeharness.Table.{HasUniqueKeys, find_key, find_key-append}
use forgeharness.Checkpoint
use forgeharness.Checkpoint.{
  Checkpoints, CheckpointConflict, task_key, checkpoint_of, revision_of, stamped,
}
use forgeharness.Checkpoint.Laws.{saved_checkpoint}
use forgeharness.Approval.{ApprovalGrant}
use forgeharness.Orchestration.Records.{
  OrchestrationState, OrchestrationDb, OrchestrationError, OutboxRow, RunRow, SharedLedger, Parsers,
  run_of, run_key, event_of, event_key, event_key-discrete,
}
use forgeharness.Orchestration.Store.{
  task_of, save, accept, final_result, saved_over, saved_row, upsert_run,
}
use forgeharness.Orchestration.Saving.{new_event, save-IsWritten, save-raises}
use forgeharness.Orchestration.Steps.{accept_task, upsert_run_self, upsert_run-new}

final_result-task : (s : OrchestrationState) → (final_result s).task_id ≡ task_of s
unfolding final_result
final_result-task s = ground arith

accept_revision :
    (o : Option RunRow) (has : Bool) (s a : OrchestrationState)
    → accept o has s ≡ ok a
    → a.revision ≡ s.revision
unfolding accept
accept_revision none has s a h = ground arith
accept_revision (some r) has s a h = ground arith

-- What the tables have of a run whose state `saved` they were given with `event`.
pub record IsProjected (task event : String) (saved : OrchestrationState) (db : OrchestrationDb)
    : Type 0 where
  pub graph :
      (r : RunRow) × (run_of task db ≡ some r) × (r.payload ≡ saved) × (r.revision ≡ saved.revision)
  pub checkpoint : Checkpoint.load task db.checkpoints ≡ some saved.result
  pub event_stored : event_of task saved.revision db ≡ some (new_event task saved event)

appended_event :
    (e : OutboxRow) (outbox : List OutboxRow)
    → find_key event_key-discrete event_key (event_key e) outbox ≡ none
    → find_key event_key-discrete event_key (event_key e) (outbox ++ e ∷ []) ≡ some e
appended_event e outbox absent =
    find_key-append event_key-discrete event_key (event_key e) outbox e
    ∙ rw (absent, holds_refl event_key-discrete (event_key e)) refl

upserted :
    (key : String) (saved : OrchestrationState) (runs : List RunRow)
    → (r : RunRow) × (find_key String_discrete run_key key (upsert_run key saved runs) ≡ some r)
      × (r.payload ≡ saved)
      × (r.revision ≡ saved.revision)
upserted key saved runs = by_row (find_key String_discrete run_key key runs) refl
  where
    by_row :
        (o : Option RunRow)
        → find_key String_discrete run_key key runs ≡ o
        → (r : RunRow) × (find_key String_discrete run_key key (upsert_run key saved runs) ≡ some r)
          × (r.payload ≡ saved)
          × (r.revision ≡ saved.revision)
    by_row none e = (saved_row key saved, upsert_run-new key saved runs e, refl, refl)
    by_row (some r) e = (saved_over saved r, upsert_run_self key saved runs r e, refl, refl)

-- With one checkpoint row for a run, a save is atomic: either it raises and the tables are as they
-- were, or the graph, the checkpoint and the outbox all have the saved state under its revision,
-- which is the next one.
pub save-projects :
    (parsers : Parsers) (path : String) (now : ℕ) (s : OrchestrationState) (event : String)
    (ledger : Option SharedLedger) (grant : Option ApprovalGrant) (db : OrchestrationDb)
    → HasUniqueKeys String_discrete task_key db.checkpoints
    → let (r, db') = save parsers path now s event ledger grant db in
      ((e : OrchestrationError) × (r ≡ raise e) × (db' ≡ db))
      ⊎ ((saved : OrchestrationState) × (r ≡ ok saved)
          × (saved.revision ≡ s.revision + 1)
          × IsProjected (task_of s) event saved db')
save-projects parsers path now s event ledger grant db u =
    by_end (save parsers path now s event ledger grant db) refl
  where
    by_end :
        (p : Result OrchestrationError OrchestrationState × OrchestrationDb)
        → save parsers path now s event ledger grant db ≡ p
        → ((e : OrchestrationError) × (p.0 ≡ raise e) × (p.1 ≡ db))
          ⊎ ((saved : OrchestrationState) × (p.0 ≡ ok saved)
              × (saved.revision ≡ s.revision + 1)
              × IsProjected (task_of s) event saved p.1)
    by_end (raise e, db') h = inl (
      e,
      refl,
      ap (λ q. q.1)
          (sym h ∙ save-raises parsers path now s event ledger grant e db (ap (λ q. q.0) h)),
    )
    by_end (ok saved, db') h =
        let (a, checked, w) = save-IsWritten parsers path now s event ledger grant saved db db' h in
        let has = is_some (Checkpoint.load (task_of s) db.checkpoints) in
        let key = accept_task (run_of (task_of s) db) has s a checked in
        let number = accept_revision (run_of (task_of s) db) has s a checked in
        let next : saved.revision ≡ a.revision + 1 =
          ap (λ (x : OrchestrationState). x.revision) w.copied in
        let (r, found, payload, revision) = upserted (task_of a) saved db.runs in
        inr (
          saved,
          refl,
          next ∙ ap (λ n. n + 1) number,
          subst (λ t. IsProjected t event saved db') key
              (record {
                graph = (
                  r,
                  ap (find_key String_discrete run_key (task_of a)) w.stored ∙ found,
                  payload,
                  revision,
                );
                checkpoint =
                    subst (λ t. Checkpoint.load t db'.checkpoints ≡ some saved.result)
                      (final_result-task a)
                      (saved_checkpoint (final_result a) saved.result db.checkpoints db'.checkpoints
                        u w.checkpointed);
                event_stored =
                    ap (find_key event_key-discrete event_key (task_of a, saved.revision))
                      w.announced
                    ∙ appended_event (new_event (task_of a) saved event) db.outbox
                        (subst (λ n. event_of (task_of a) n db ≡ none) (sym next) w.unannounced);
              }),
        )
