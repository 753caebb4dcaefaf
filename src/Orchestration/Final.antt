-- ===== src/Orchestration/Final.antt =====
-- What later calls of `OrchestrationStore` cannot undo: a terminal state, a request to cancel, and
-- the change of the owner (state/orchestration.py).
use forgeharness.Common.{
  ℕ, ◌≡◌, ◌≢◌, inl, inr, refl, sym, ap, subst, ◌∙◌, arith, String, Bool, true, false, Option, none,
  some, List, [], ◌∷◌, ok, raise, All, String_discrete, is_some, map_option, if◌then◌else◌,
}
use forgeharness.Domain.{RunResult, cancelled}
use forgeharness.Table.{
  HasUniqueKeys, update_key, find_key-update_self, count_key-none, count_key-some, find_key-update,
  find_key-key, key_test,
}
use forgeharness.Checkpoint
use forgeharness.Checkpoint.{Checkpoints, CheckpointConflict, write_snapshot}
use forgeharness.Approval.{ApprovalGrant}
use forgeharness.Orchestration.Records.{
  OrchestrationState, OrchestrationDb, RunRow, SharedLedger, Parsers, run_of, run_key, is_terminal,
  stale_owner,
}
use forgeharness.Orchestration.Store.{
  acknowledge, task_of, save, save_in, accept, final_result, take_ownership, request_cancel,
  saved_over, owned_by, cancel_row, cancel_found, is_owned,
}
use forgeharness.Orchestration.Saving.{save-IsWritten}
use forgeharness.Orchestration.Steps.{
  StoreCall, save_call, own_call, cancel_call, acknowledge_call, make, make_all, save_row, own_row,
  cancel_row_lem, WroteOver, accept-IsAccepted,
}

-- A row that keeps a property under each way to change it keeps it under all calls.
module _ (parsers : Parsers) (path task : String) (P : RunRow → Type 0)
    (Allowed : StoreCall → Type 0)
    (keeps_save : (now : ℕ) (s : OrchestrationState) (event : String) (ledger : Option SharedLedger)
        (grant : Option ApprovalGrant) (r : RunRow) (saved : OrchestrationState)
        (db db' : OrchestrationDb)
      → Allowed (save_call now s event ledger grant)
      → WroteOver task r s saved db db'
      → P r
      → P (saved_over saved r))
    (keeps_own : (s : OrchestrationState) (owner : String) (r : RunRow)
      → Allowed (own_call s owner)
      → task_of s ≡ task
      → s.owner ≡ r.owner
      → P r
      → P (owned_by owner r))
    (keeps_cancel : (r : RunRow) → P r → P (cancel_row r)) where
  abbrev Stored : OrchestrationDb → Type 0
  Stored db = (r : RunRow) × (run_of task db ≡ some r) × P r

  make-Stored :
      (c : StoreCall) (db : OrchestrationDb)
      → Allowed c
      → Stored db
      → Stored (make parsers path c db)
  unfolding make acknowledge
  make-Stored (save_call now s event ledger grant) db allowed (r, found, p) =
      elim (save_row parsers path now s event ledger grant db task r found) [
        | inl same ↦ (r, same, p)
        | inr (saved, done, w) ↦ (
          saved_over saved r,
          w.stored,
          keeps_save now s event ledger grant r saved _ _ allowed w p,
        )
      ]
  make-Stored (own_call s owner) db allowed (r, found, p) = elim (own_row task r s owner db found) [
    | inl same ↦ (r, same, p)
    | inr (key, token, _, taken) ↦
        (owned_by owner r, taken, keeps_own s owner r allowed key token p)
  ]
  make-Stored (cancel_call other) db allowed (r, found, p) =
      elim (cancel_row_lem task other r db found) [
        | inl same ↦ (r, same, p)
        | inr marked ↦ (cancel_row r, marked, keeps_cancel r p)
      ]
  make-Stored (acknowledge_call other revision) db allowed (r, found, p) = (r, found, p)

  pub make_all-Stored :
      (calls : List StoreCall) (db : OrchestrationDb)
      → All Allowed calls
      → Stored db
      → Stored (make_all parsers path calls db)
  unfolding make_all
  make_all-Stored [] db allowed h = h
  make_all-Stored (c ∷ calls) db allowed h =
      make_all-Stored calls (make parsers path c db) allowed.1 (make-Stored c db allowed.0 h)

any_call : (calls : List StoreCall) → All (λ _. Unit {0}) calls
any_call [] = tt
any_call (c ∷ calls) = (tt, any_call calls)

-- A run that is stored with a terminal status stays as it is: no sequence of calls changes its
-- stored state or its revision.
pub terminal-stays :
    (parsers : Parsers) (path task : String) (calls : List StoreCall) (db : OrchestrationDb)
    (r : RunRow)
    → run_of task db ≡ some r
    → is_terminal r.payload.result.status ≡ true
    → (r' : RunRow) × (run_of task (make_all parsers path calls db) ≡ some r')
      × (r'.payload ≡ r.payload)
      × (r'.revision ≡ r.revision)
terminal-stays parsers path task calls db r found ended =
    let P : RunRow → Type 0 = λ r'. (r'.payload ≡ r.payload) × (r'.revision ≡ r.revision) in
    let (x, stored, kept) =
      make_all-Stored parsers path task P (λ _. Unit)
        (λ now s event ledger grant r' saved db db' allowed w p. absurd (
          false≢true (
            sym w.accepted.unfinished
            ∙ ap (λ (t : OrchestrationState). is_terminal t.result.status) p.0
            ∙ ended)))
        (λ s owner r' allowed key token p. p) (λ r' p. p) calls db (any_call calls)
        (r, found, (refl, refl)) in
    (x, stored, kept.0, kept.1)
  where
    false≢true : ¬ (false ≡ true)
    false≢true h = cc

save-status :
    (x y : RunResult) (rows rows' : Checkpoints)
    → Checkpoint.save x rows ≡ (ok y, rows')
    → (y.status ≡ x.status) × (y.final_output ≡ x.final_output) × (y.task_id ≡ x.task_id)
unfolding Checkpoint.save write_snapshot
save-status x y rows rows' h = (ground arith, ground arith, ground arith)

final_result-cancelled :
    (s : OrchestrationState)
    → s.cancel_requested ≡ true
    → is_terminal (final_result s).status ≡ true
    → ((final_result s).status ≡ cancelled) × ((final_result s).final_output ≡ none)
unfolding final_result
final_result-cancelled s asked ended = (ground arith, ground arith)

-- A granted request has marked the row.
requested :
    (task : String) (db : OrchestrationDb)
    → (request_cancel task db).0 ≡ ok true
    → (r : RunRow) × (run_of task (request_cancel task db).1 ≡ some r) × (r.cancel_requested ≡ true)
unfolding request_cancel
requested task db asked = by_row (run_of task db) refl asked
  where
    by_row :
        (o : Option RunRow)
        → run_of task db ≡ o
        → (cancel_found task o db).0 ≡ ok true
        → (r : RunRow) × (run_of task (cancel_found task o db).1 ≡ some r)
          × (r.cancel_requested ≡ true)
    by_row none e h = cc
    by_row (some x) e h =
        let marked =
          find_key-update_self String_discrete run_key cancel_row (λ r. refl) task (λ _. true)
            db.runs x e refl in
        (cancel_row x, ground arith, refl)

-- A request to cancel that was granted is never lost: whatever the store is called for next, a
-- later save for the run that reports a terminal status stores it as cancelled, with no output.
pub cancel-wins :
    (parsers : Parsers) (path task : String) (calls : List StoreCall) (now : ℕ)
    (s : OrchestrationState) (event : String) (ledger : Option SharedLedger)
    (grant : Option ApprovalGrant) (saved : OrchestrationState) (db after : OrchestrationDb)
    → (request_cancel task db).0 ≡ ok true
    → task_of s ≡ task
    → save parsers path now s event ledger grant
        (make_all parsers path calls (request_cancel task db).1)
      ≡ (ok saved, after)
    → is_terminal saved.result.status ≡ true
    → (saved.result.status ≡ cancelled) × (saved.result.final_output ≡ none)
cancel-wins parsers path task calls now s event ledger grant saved db after asked same h ended =
    let (r, found, marked) =
      make_all-Stored parsers path task (λ r. r.cancel_requested ≡ true) (λ _. Unit)
        (λ now s event ledger grant r saved db db' allowed w p. p)
        (λ s owner r allowed key token p. p) (λ r p. refl) calls (request_cancel task db).1
        (any_call calls) (requested task db asked) in
    let (a, checked, w) = save-IsWritten parsers path now s event ledger grant saved _ after h in
    let here =
      subst (λ t. run_of t (make_all parsers path calls (request_cancel task db).1) ≡ some r)
        (sym same) found in
    let has = is_some (
      Checkpoint.load (task_of s)
        (make_all parsers path calls (request_cancel task db).1).checkpoints) in
    let i = accept-IsAccepted r has s a (subst (λ o. accept o has s ≡ ok a) here checked) in
    let asked_for : a.cancel_requested ≡ true =
      ap (λ (x : OrchestrationState). x.cancel_requested) i.taken ∙ marked in
    let (status, output, _) =
      save-status (final_result a) saved.result _ after.checkpoints w.checkpointed in
    let (as_cancelled, no_output) =
      final_result-cancelled a asked_for (ap is_terminal (sym status) ∙ ended) in
    (status ∙ as_cancelled, output ∙ no_output)

-- A call that is not made with the token `owner` for this task.
abbrev pub IsForeign : String → String → StoreCall → Type 0
IsForeign task owner (save_call now s event ledger grant) = task_of s ≡ task → s.owner ≢ owner
IsForeign task owner (own_call s new) = task_of s ≡ task → s.owner ≢ owner
IsForeign task owner _ = Unit

save-stale :
    (parsers : Parsers) (path : String) (now : ℕ) (s : OrchestrationState) (event : String)
    (ledger : Option SharedLedger) (grant : Option ApprovalGrant) (db : OrchestrationDb)
    (r : RunRow)
    → run_of (task_of s) db ≡ some r
    → r.owner ≢ s.owner
    → save parsers path now s event ledger grant db ≡ (raise stale_owner, db)
unfolding save save_in accept
save-stale parsers path now s event ledger grant db r found other = ground arith

taken_row :
    (s : OrchestrationState) (owner : String) (db : OrchestrationDb)
    → HasUniqueKeys String_discrete run_key db.runs
    → (take_ownership s owner db).0 ≡ ok (record s { owner = owner })
    → (r : RunRow) × (run_of (task_of s) db ≡ some r)
      × (run_of (task_of s) (take_ownership s owner db).1 ≡ some (owned_by owner r))
unfolding take_ownership
taken_row s owner db unique done = by_row (run_of (task_of s) db) refl
  where
    test : RunRow → Bool
    test = key_test String_discrete run_key (task_of s) (is_owned s)

    after_update :
        run_of (task_of s) (record db {
          runs =
              update_key String_discrete run_key (task_of s) (is_owned s) (owned_by owner) db.runs;
        })
        ≡ map_option (λ r. if test r then owned_by owner r else r) (run_of (task_of s) db)
    after_update =
        find_key-update String_discrete run_key test (owned_by owner) (λ r. refl) (task_of s)
          db.runs

    by_row :
        (o : Option RunRow)
        → run_of (task_of s) db ≡ o
        → (r : RunRow) × (run_of (task_of s) db ≡ some r)
          × (run_of (task_of s) (take_ownership s owner db).1 ≡ some (owned_by owner r))
    by_row none e =
        absurd (
          ground (arith, count_key-none String_discrete run_key (task_of s) (is_owned s) db.runs e))
    by_row (some r) e = (
      r,
      e,
      ground (
        arith,
        after_update,
        count_key-some String_discrete run_key (task_of s) (is_owned s) db.runs r unique e,
        find_key-key String_discrete run_key (task_of s) db.runs r e,
      ),
    )

-- In a table with one row for a run, once a worker has taken a run over, the token of its predecessor is worth nothing: while the
-- store is called, for this run, only with other tokens than the new one, be it to save or to take
-- the run over, the run keeps its new owner, its revision and its stored state, and a save with
-- another token is refused and changes nothing.
pub owner-fences :
    (parsers : Parsers) (path owner : String) (s : OrchestrationState) (calls : List StoreCall)
    (now : ℕ) (stale : OrchestrationState) (event : String) (ledger : Option SharedLedger)
    (grant : Option ApprovalGrant) (db : OrchestrationDb)
    → HasUniqueKeys String_discrete run_key db.runs
    → (take_ownership s owner db).0 ≡ ok (record s { owner = owner })
    → All (IsForeign (task_of s) owner) calls
    → task_of stale ≡ task_of s
    → stale.owner ≢ owner
    → let later = make_all parsers path calls (take_ownership s owner db).1 in
      (save parsers path now stale event ledger grant later ≡ (raise stale_owner, later))
      × ((before : RunRow) × (after : RunRow) × (run_of (task_of s) db ≡ some before)
          × (run_of (task_of s) later ≡ some after)
          × (after.owner ≡ owner)
          × (after.revision ≡ before.revision)
          × (after.payload ≡ before.payload))
owner-fences parsers path owner s calls now stale event ledger grant db unique done foreign same
      other =
    let (r, found, taken) = taken_row s owner db unique done in
    let P : RunRow → Type 0 =
      λ x. (x.owner ≡ owner) × (x.revision ≡ r.revision) × (x.payload ≡ r.payload) in
    let (x, stored, p) =
      make_all-Stored parsers path (task_of s) P (IsForeign (task_of s) owner)
        (λ now s' event ledger grant x saved db db' allowed w p.
          absurd (allowed w.same_task (sym w.accepted.owned ∙ p.0)))
        (λ s' new x allowed key token p. absurd (allowed key (token ∙ p.0))) (λ x p. p) calls
        (take_ownership s owner db).1 foreign (owned_by owner r, taken, (refl, refl, refl)) in
    let later = make_all parsers path calls (take_ownership s owner db).1 in
    (
      save-stale parsers path now stale event ledger grant later x
          (subst (λ t. run_of t later ≡ some x) (sym same) stored) (λ e. other (sym e ∙ p.0)),
      (r, x, found, stored, p.0, p.1, p.2),
    )
