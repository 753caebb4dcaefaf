-- ===== src/Orchestration/Steps.antt =====
-- The stored row of one run under every call of `OrchestrationStore` (state/orchestration.py).
use forgeharness.Common.{
  ℕ, ◌+◌, ◌≡◌, ◌≢◌, ◌⊎◌, inl, inr, refl, sym, ap, subst, ◌∙◌, arith, String, Bool, true, false,
  Option, none, some, List, [], ◌∷◌, Result, ok, raise, is_some, ◌==◌, ℕ_eq, Bool-cases,
  if◌then◌else◌, String_discrete, map_option,
}
use forgeharness.Table.{
  find_key, update_key, count_key, find_key-append, find_key-update, find_key-update_other,
  find_key-append_other, find_key-key, key_test,
}
use forgeharness.Checkpoint
use forgeharness.Approval.{ApprovalGrant}
use forgeharness.Orchestration.Records.{
  OrchestrationState, OrchestrationDb, OrchestrationError, RunRow, SharedLedger, Parsers, run_of,
  run_key, is_terminal,
}
use forgeharness.Orchestration.Store.{
  task_of, accept, upsert_run, save, saved_row, saved_over, take_ownership, owned_by, is_owned,
  request_cancel, cancel_found, cancel_row, acknowledge,
}
use forgeharness.Orchestration.Saving.{save-IsWritten, save-raises}

-- What `accept` has checked on a stored row.
pub record IsAccepted (r : RunRow) (s accepted : OrchestrationState) : Type 0 where
  pub owned : r.owner ≡ s.owner
  pub current : r.revision ≡ s.revision
  pub unfinished : is_terminal r.payload.result.status ≡ false
  pub same_identity : r.payload.identity ≡ s.identity
  pub taken : accepted ≡ record s { cancel_requested = r.cancel_requested }

pub accept-IsAccepted :
    (r : RunRow) (has : Bool) (s accepted : OrchestrationState)
    → accept (some r) has s ≡ ok accepted
    → IsAccepted r s accepted
unfolding accept
accept-IsAccepted r has s accepted h = record {
  owned = ground arith;
  current = ground arith;
  unfinished = ground arith;
  same_identity = ground arith;
  taken = ground arith;
}

pub accept_task :
    (o : Option RunRow) (has : Bool) (s accepted : OrchestrationState)
    → accept o has s ≡ ok accepted
    → task_of accepted ≡ task_of s
unfolding accept
accept_task none has s accepted h = ground arith
accept_task (some r) has s accepted h = ground arith

-- The row of a task after the INSERT or UPDATE of a save.
pub upsert_run_self :
    (key : String) (s : OrchestrationState) (runs : List RunRow) (r : RunRow)
    → find_key String_discrete run_key key runs ≡ some r
    → find_key String_discrete run_key key (upsert_run key s runs) ≡ some (saved_over s r)
unfolding upsert_run
upsert_run_self key s runs r found = ground (
  arith,
  find_key-update String_discrete run_key (key_test String_discrete run_key key (λ _. true))
      (saved_over s) (λ r. refl) key runs,
  find_key-key String_discrete run_key key runs r found,
)

pub upsert_run-other :
    (key other : String) (s : OrchestrationState) (runs : List RunRow)
    → key ≢ other
    → find_key String_discrete run_key other (upsert_run key s runs)
      ≡ find_key String_discrete run_key other runs
unfolding upsert_run
upsert_run-other key other s runs apart =
    elim (Bool-cases (is_some (find_key String_discrete run_key key runs))) [
      | inl there ↦ rw there (
          find_key-update_other String_discrete run_key (saved_over s) (λ r. refl) key other apart
            (λ _. true) runs)
      | inr absent ↦ rw absent (
          find_key-append_other String_discrete run_key (saved_over s) (λ r. refl) key other apart
            runs (saved_row key s) refl)
    ]

pub upsert_run-new :
    (key : String) (s : OrchestrationState) (runs : List RunRow)
    → find_key String_discrete run_key key runs ≡ none
    → find_key String_discrete run_key key (upsert_run key s runs) ≡ some (saved_row key s)
unfolding upsert_run
upsert_run-new key s runs absent =
    ground (arith, find_key-append String_discrete run_key key runs (saved_row key s))

-- A save that wrote over the row `r`.
pub record WroteOver (task : String) (r : RunRow) (s saved : OrchestrationState)
    (db db' : OrchestrationDb) : Type 0 where
  pub same_task : task_of s ≡ task
  pub accepted : IsAccepted r s (record s { cancel_requested = r.cancel_requested })
  pub copied : saved ≡ record s {
    cancel_requested = r.cancel_requested;
    revision = s.revision + 1;
    result = saved.result;
  }
  pub stored : run_of task db' ≡ some (saved_over saved r)

module _ (parsers : Parsers) (path : String) (now : ℕ) (s : OrchestrationState) (event : String)
    (ledger : Option SharedLedger) (grant : Option ApprovalGrant) (db : OrchestrationDb) where
  abbrev pub outcome : Result OrchestrationError OrchestrationState × OrchestrationDb
  outcome = save parsers path now s event ledger grant db

  written_over :
      (task : String) (r : RunRow) (saved : OrchestrationState) (db' : OrchestrationDb)
      → run_of task db ≡ some r
      → task_of s ≡ task
      → outcome ≡ (ok saved, db')
      → WroteOver task r s saved db db'
  written_over task r saved db' found same h =
      let (a, checked, w) = save-IsWritten parsers path now s event ledger grant saved db db' h in
      let has = is_some (Checkpoint.load (task_of s) db.checkpoints) in
      let here : run_of (task_of s) db ≡ some r =
        subst (λ t. run_of t db ≡ some r) (sym same) found in
      let i = accept-IsAccepted r has s a (subst (λ o. accept o has s ≡ ok a) here checked) in
      let key =
        accept_task (some r) has s a (subst (λ o. accept o has s ≡ ok a) here checked) ∙ same in
      record {
        same_task = same;
        accepted = subst (IsAccepted r s) i.taken i;
        copied =
            w.copied
            ∙ ap
                (λ (x : OrchestrationState). record x {
                  revision = x.revision + 1;
                  result = saved.result;
                })
                i.taken;
        stored =
            ap (find_key String_discrete run_key task) w.stored
            ∙ ap (λ t. find_key String_discrete run_key task (upsert_run t saved db.runs)) key
            ∙ upsert_run_self task saved db.runs r found;
      }

  elsewhere :
      (task : String) (saved : OrchestrationState) (db' : OrchestrationDb)
      → task_of s ≢ task
      → outcome ≡ (ok saved, db')
      → run_of task db' ≡ run_of task db
  elsewhere task saved db' apart h =
      let (a, checked, w) = save-IsWritten parsers path now s event ledger grant saved db db' h in
      let key =
        accept_task (run_of (task_of s) db) (is_some (Checkpoint.load (task_of s) db.checkpoints)) s
          a checked in
      ap (find_key String_discrete run_key task) w.stored
      ∙ upsert_run-other (task_of a) task saved db.runs (λ e. apart (sym key ∙ e))

  -- A save leaves a stored row, or it was made for its task with the owner and the revision that
  -- the row has, and writes over it.
  pub save_row :
      (task : String) (r : RunRow)
      → run_of task db ≡ some r
      → (run_of task outcome.1 ≡ some r)
        ⊎ ((saved : OrchestrationState) × (outcome.0 ≡ ok saved)
            × WroteOver task r s saved db outcome.1)
  save_row task r found = by_end outcome refl
    where
      by_end :
          (p : Result OrchestrationError OrchestrationState × OrchestrationDb)
          → outcome ≡ p
          → (run_of task outcome.1 ≡ some r)
            ⊎ ((saved : OrchestrationState) × (outcome.0 ≡ ok saved)
                × WroteOver task r s saved db outcome.1)
      by_end (raise e, db') h =
          let same = save-raises parsers path now s event ledger grant e db (ap (λ q. q.0) h) in
          inl (ap (λ q. run_of task q.1) same ∙ found)
      by_end (ok saved, db') h =
          let whole : outcome ≡ (ok saved, outcome.1) = ap (λ q. (q.0, outcome.1)) h in
          elim (String_discrete (task_of s) task) [
            | yes same ↦
                inr (saved, ap (λ q. q.0) h, written_over task r saved outcome.1 found same whole)
            | no apart ↦ inl (elsewhere task saved outcome.1 apart whole ∙ found)
          ]

-- A call of the store.
pub data StoreCall : Type 0 where
  save_call :
      ℕ → OrchestrationState → String → Option SharedLedger → Option ApprovalGrant → StoreCall
  own_call : OrchestrationState → String → StoreCall
  cancel_call : String → StoreCall
  acknowledge_call : String → ℕ → StoreCall

module _ (parsers : Parsers) (path : String) where
  unfoldable pub make : StoreCall → OrchestrationDb → OrchestrationDb
  make (save_call now s event ledger grant) db = (save parsers path now s event ledger grant db).1
  make (own_call s owner) db = (take_ownership s owner db).1
  make (cancel_call task) db = (request_cancel task db).1
  make (acknowledge_call task revision) db = acknowledge task revision db

  unfoldable pub make_all : List StoreCall → OrchestrationDb → OrchestrationDb
  unfolding make
  make_all [] db = db
  make_all (c ∷ calls) db = make_all calls (make c db)

-- Taking ownership changes at most the owner of a row, and only for the holder of its token.
pub own_row :
    (task : String) (r : RunRow) (s : OrchestrationState) (owner : String) (db : OrchestrationDb)
    → run_of task db ≡ some r
    → (run_of task (take_ownership s owner db).1 ≡ some r)
      ⊎ ((task_of s ≡ task)
          × (s.owner ≡ r.owner)
          × (s.revision ≡ r.revision)
          × (run_of task (take_ownership s owner db).1 ≡ some (owned_by owner r)))
unfolding take_ownership
own_row task r s owner db found =
    let test = key_test String_discrete run_key (task_of s) (is_owned s) in
    let after =
      find_key-update String_discrete run_key test (owned_by owner) (λ r. refl) task db.runs in
    let key = find_key-key String_discrete run_key task db.runs r found in
    elim (Bool-cases (test r)) [
      | inl mine ↦
          elim (Bool-cases
            (count_key String_discrete run_key (task_of s) (is_owned s) db.runs == 1)) [
              | inl one ↦ inr (
                ground (arith, mine, key),
                ground (arith, mine),
                ground (arith, mine),
                rw one (rw after (rw found (rw mine refl))),
              )
              | inr other ↦ inl (rw other found)
            ]
      | inr foreign ↦
          elim (Bool-cases
            (count_key String_discrete run_key (task_of s) (is_owned s) db.runs == 1)) [
              | inl one ↦ inl (rw one (rw after (rw found (rw foreign refl))))
              | inr other ↦ inl (rw other found)
            ]
    ]

-- A request to cancel changes at most the mark of a row.
pub cancel_row_lem :
    (task other : String) (r : RunRow) (db : OrchestrationDb)
    → run_of task db ≡ some r
    → (run_of task (request_cancel other db).1 ≡ some r)
      ⊎ (run_of task (request_cancel other db).1 ≡ some (cancel_row r))
unfolding request_cancel
cancel_row_lem task other r db found = by_row (run_of other db)
  where
    test : RunRow → Bool
    test = key_test String_discrete run_key other (λ _. true)

    marked :
        find_key String_discrete run_key task
          (update_key String_discrete run_key other (λ _. true) cancel_row db.runs)
        ≡ some (if test r then cancel_row r else r)
    marked =
        find_key-update String_discrete run_key test cancel_row (λ r. refl) task db.runs
        ∙ ap (map_option (λ r. if test r then cancel_row r else r)) found

    by_row :
        (o : Option RunRow)
        → (run_of task (cancel_found other o db).1 ≡ some r)
          ⊎ (run_of task (cancel_found other o db).1 ≡ some (cancel_row r))
    by_row none = inl found
    by_row (some x) = elim (Bool-cases (test r)) [
      | inl mine ↦ ground (arith, marked, mine, found)
      | inr foreign ↦ ground (arith, marked, foreign, found)
    ]
