-- ===== src/Orchestration/Saving.antt =====
-- What `OrchestrationStore.save` has written where it returns (state/orchestration.py).
use forgeharness.Common.{
  ℕ, ◌+◌, ◌≡◌, refl, ap, subst, ◌∙◌, arith, String, false, Option, none, some, [], ◌∷◌, ◌++◌,
  Result, ok, raise, is_some,
}
use forgeharness.Table.{find_key}
use forgeharness.Checkpoint
use forgeharness.Approval.{ApprovalGrant}
use forgeharness.Orchestration.Records.{
  OrchestrationState, OrchestrationDb, OrchestrationError, RunRow, OutboxRow, SharedLedger, Parsers,
  run_of, event_of, event_key, event_key-discrete,
}
use forgeharness.Orchestration.Store.{
  task_of, accept, final_result, upsert_run, insert_event, admit_node, admit_grant, write_state,
  save_in, save, commit,
}

abbrev pub new_event : String → OrchestrationState → String → OutboxRow
new_event key saved event = record {
  task_id = key;
  revision = saved.revision;
  event = event;
  status = saved.result.status;
  published = false;
}

-- The tables that a save writes after its checks on `accepted`.
pub record IsWritten (accepted : OrchestrationState) (event : String) (saved : OrchestrationState)
    (db db' : OrchestrationDb) : Type 0 where
  pub copied : saved ≡ record accepted { revision = accepted.revision + 1; result = saved.result }
  pub checkpointed :
      Checkpoint.save (final_result accepted) db.checkpoints ≡ (ok saved.result, db'.checkpoints)
  pub stored : db'.runs ≡ upsert_run (task_of accepted) saved db.runs
  pub unannounced : event_of (task_of accepted) (accepted.revision + 1) db ≡ none
  pub announced : db'.outbox ≡ db.outbox ++ new_event (task_of accepted) saved event ∷ []

module _ (parsers : Parsers) (path : String) where
  write_state-IsWritten :
      (s : OrchestrationState) (event : String) (saved : OrchestrationState)
      (db db' : OrchestrationDb)
      → write_state parsers path s event db ≡ (ok saved, db')
      → IsWritten s event saved db db'
  unfolding write_state insert_event
  write_state-IsWritten s event saved db db' h = record {
    copied = ground arith;
    checkpointed = ground arith;
    stored = ground arith;
    unannounced = no_event (event_of (task_of s) (s.revision + 1) db) refl;
    announced = ground arith;
  }
    where
      no_event :
          (o : Option OutboxRow)
          → event_of (task_of s) (s.revision + 1) db ≡ o
          → event_of (task_of s) (s.revision + 1) db ≡ none
      no_event none e = e
      no_event (some x) e = ground arith

  -- Admitting a grant writes to the grants alone.
  admit_grant-runs :
      (now : ℕ) (ledger : Option SharedLedger) (grant : Option ApprovalGrant) (row : Option RunRow)
      (s : OrchestrationState) (db : OrchestrationDb)
      → let db' = (admit_grant parsers path now ledger grant row s db).1 in
        (db'.runs ≡ db.runs) × (db'.checkpoints ≡ db.checkpoints) × (db'.outbox ≡ db.outbox)
  unfolding admit_node
  admit_grant-runs now ledger none row s db = (refl, refl, refl)
  admit_grant-runs now ledger (some grant) row s db = (ground arith, ground arith, ground arith)

  abbrev saving :
      ℕ
      → OrchestrationState
      → String
      → Option SharedLedger
      → Option ApprovalGrant
      → OrchestrationDb
      → Result OrchestrationError OrchestrationState × OrchestrationDb
  saving now s event ledger grant db = save_in parsers path now s event ledger grant db

  accepted_cases :
      (now : ℕ) (s : OrchestrationState) (event : String) (ledger : Option SharedLedger)
      (grant : Option ApprovalGrant) (saved : OrchestrationState) (db db' : OrchestrationDb)
      → saving now s event ledger grant db ≡ (ok saved, db')
      → (r : Result OrchestrationError OrchestrationState)
      → accept (run_of (task_of s) db) (is_some (Checkpoint.load (task_of s) db.checkpoints)) s ≡ r
      → (accepted : OrchestrationState) × (accept
            (run_of (task_of s) db)
            (is_some (Checkpoint.load (task_of s) db.checkpoints))
            s
          ≡ ok accepted)
        × IsWritten accepted event saved db db'
  unfolding save_in
  accepted_cases now s event ledger grant saved db db' h (raise e) found = ground arith
  accepted_cases now s event ledger grant saved db db' h (ok a) found =
      let row = run_of (task_of s) db in
      let db1 = (admit_grant parsers path now ledger grant row a db).1 in
      let (runs, checkpoints, outbox) = admit_grant-runs now ledger grant row a db in
      let e : write_state parsers path a event db1 ≡ (ok saved, db') = ground arith in
      let w = write_state-IsWritten a event saved db1 db' e in
      (
        a,
        found,
        record {
          copied = w.copied;
          checkpointed =
              subst (λ c. Checkpoint.save (final_result a) c ≡ (ok saved.result, db'.checkpoints))
                checkpoints w.checkpointed;
          stored = w.stored ∙ ap (upsert_run (task_of a) saved) runs;
          unannounced =
              subst
                (λ l. find_key event_key-discrete event_key (task_of a, a.revision + 1) l ≡ none)
                outbox w.unannounced;
          announced = w.announced ∙ ap (λ l. l ++ new_event (task_of a) saved event ∷ []) outbox;
        },
      )

  -- What a save that returns has checked and written.
  pub save-IsWritten :
      (now : ℕ) (s : OrchestrationState) (event : String) (ledger : Option SharedLedger)
      (grant : Option ApprovalGrant) (saved : OrchestrationState) (db db' : OrchestrationDb)
      → save parsers path now s event ledger grant db ≡ (ok saved, db')
      → (accepted : OrchestrationState) × (accept
            (run_of (task_of s) db)
            (is_some (Checkpoint.load (task_of s) db.checkpoints))
            s
          ≡ ok accepted)
        × IsWritten accepted event saved db db'
  unfolding save
  save-IsWritten now s event ledger grant saved db db' h =
      accepted_cases now s event ledger grant saved db db' (committed _ h) _ refl
    where
      committed :
          (p : Result OrchestrationError OrchestrationState × OrchestrationDb)
          → commit db p ≡ (ok saved, db')
          → p ≡ (ok saved, db')
      committed (ok a, d) e = e
      committed (raise x, d) e = cc

  pub save-raises :
      (now : ℕ) (s : OrchestrationState) (event : String) (ledger : Option SharedLedger)
      (grant : Option ApprovalGrant) (e : OrchestrationError) (db : OrchestrationDb)
      → (save parsers path now s event ledger grant db).0 ≡ raise e
      → save parsers path now s event ledger grant db ≡ (raise e, db)
  unfolding save
  save-raises now s event ledger grant e db h = rolled_back _ h
    where
      rolled_back :
          (p : Result OrchestrationError OrchestrationState × OrchestrationDb)
          → (commit db p).0 ≡ raise e
          → commit db p ≡ (raise e, db)
      rolled_back (ok a, d) r = cc
      rolled_back (raise x, d) r = ground arith
