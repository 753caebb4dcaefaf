-- ===== src/Orchestration/Store.antt =====
-- The methods of `OrchestrationStore` in state/orchestration.py.
use forgeharness.Common.{
  ℕ, ◌+◌, String, Bool, true, false, not, ◌&&◌, Option, none, some, List, [], ◌∷◌, ◌++◌, Result, ok,
  raise, Action, pure, gets, lift, or_raise, guard, modify, ◌>>=◌, ◌>>◌, if◌then◌else◌, ◌==◌, Eq,
  ℕ_eq, String_eq, String_discrete, is_some, select, sort_by,
}
use forgeharness.Table.{find_key, update_key, count_key}
use forgeharness.Domain.{RunResult, cancelled, Identifier_eq}
use forgeharness.Checkpoint
use forgeharness.Checkpoint.{CheckpointConflict, Checkpoints}
use forgeharness.Approval.{ApprovalError, ApprovalGrant, ApprovalGrant-discrete, Grants}
use forgeharness.Approval.Sqlite.{consume_in_transaction}
use forgeharness.Orchestration.Records.{
  NodeProgress, awaiting_approval, admitted, NodeStatus_eq, OrchestrationState, is_current,
  is_terminal, RunRow, OutboxRow, OrchestrationDb, OrchestrationError, create_conflict,
  owner_changed, stale_owner, terminal_immutable, identity_immutable, ledger_missing,
  not_one_admitted, node_missing, action_changed, invalid_call, invalid_projection, run_missing,
  duplicate_event, approval_error, checkpoint_error, Exec, SharedLedger, Parsers, run_key, run_of,
  event_of, event_key, event_key-discrete,
}

instance abbrev Grant_eq : Eq (Option ApprovalGrant)
Grant_eq = record { discrete = hlevel ApprovalGrant-discrete }

abbrev pub task_of : OrchestrationState → String
task_of s = s.result.task_id

abbrev on_row : RunRow → OrchestrationState
on_row r = record r.payload { cancel_requested = r.cancel_requested; owner = r.owner }

abbrev read_row : Option RunRow → Result OrchestrationError (Option OrchestrationState)
read_row none = ok none
read_row (some r) = if is_current r.payload then ok (some (on_row r)) else raise invalid_projection

unfoldable pub load : String → Exec (Option OrchestrationState)
load task = do row ← gets (run_of task); lift (read_row row)

-- WHERE task_id=? AND revision=? AND owner=?
abbrev pub is_owned : OrchestrationState → RunRow → Bool
is_owned s r = r.revision == s.revision && r.owner == s.owner

abbrev pub owned_by : String → RunRow → RunRow
owned_by owner r = record r { owner = owner }

unfoldable pub take_ownership : OrchestrationState → String → Exec OrchestrationState
take_ownership s owner db =
    if count_key String_discrete run_key (task_of s) (is_owned s) db.runs == 1
    then (
      ok (record s { owner = owner }),
      record db {
        runs = update_key String_discrete run_key (task_of s) (is_owned s) (owned_by owner) db.runs;
      },
    )
    else (raise owner_changed, db)

-- The checks of `_save` on the stored row, and the state that it goes on with.
unfoldable pub accept :
    Option RunRow → Bool → OrchestrationState → Result OrchestrationError OrchestrationState
accept none has_checkpoint s =
    if not (s.revision == 0)
    then raise create_conflict
    else if has_checkpoint
    then raise create_conflict
    else ok s
accept (some r) has_checkpoint s =
    if not (r.owner == s.owner && r.revision == s.revision)
    then raise stale_owner
    else if not (is_current r.payload)
    then raise invalid_projection
    else if is_terminal r.payload.result.status
    then raise terminal_immutable
    else if not (r.payload.identity == s.identity)
    then raise identity_immutable
    else ok (record s { cancel_requested = r.cancel_requested })

abbrev admits : ApprovalGrant → NodeProgress → Bool
admits grant n = n.grant == some grant && n.status == admitted

abbrev pub find_node : String → List NodeProgress → Option NodeProgress
find_node id nodes = find_key String_discrete (λ (n : NodeProgress). n.id) id nodes

-- `len(admitted) != 1 or row is None`
abbrev pub single :
    List NodeProgress → Option RunRow → Result OrchestrationError (NodeProgress × RunRow)
single (n ∷ []) (some r) = ok (n, r)
single _ _ = raise not_one_admitted

abbrev pub still_pending : NodeProgress → NodeProgress → Bool
still_pending old new = old.status == awaiting_approval && old.input_digest == new.input_digest

abbrev pub raise_none {ℓ} : {E A : Type ℓ} → E → Option A → Result E A
raise_none e none = raise e
raise_none e (some a) = ok a

abbrev pub map_error : {E F A : Type 0} → (E → F) → Result E A → Result F A
map_error f (ok a) = ok a
map_error f (raise e) = raise (f e)

abbrev pub on_grants : {A : Type 0} → Action Grants ApprovalError A → Exec A
on_grants m db =
    let (r, rows) = m db.grants in (map_error approval_error r, record db { grants = rows })

abbrev pub on_checkpoints : {A : Type 0} → Action Checkpoints CheckpointConflict A → Exec A
on_checkpoints m db =
    let (r, rows) = m db.checkpoints in
    (map_error checkpoint_error r, record db { checkpoints = rows })

-- A cancelled run ends as cancelled, whatever terminal status it reports.
unfoldable pub final_result : OrchestrationState → RunResult
final_result s =
    if s.cancel_requested && is_terminal s.result.status
    then record s.result { status = cancelled; final_output = none; error = some "cancelled" }
    else s.result

abbrev pub saved_row : String → OrchestrationState → RunRow
saved_row key s = record {
  task_id = key;
  owner = s.owner;
  revision = s.revision;
  cancel_requested = s.cancel_requested;
  payload = s;
}

abbrev pub saved_over : OrchestrationState → RunRow → RunRow
saved_over s r = record r { revision = s.revision; payload = s }

-- INSERT ... ON CONFLICT(task_id) DO UPDATE
unfoldable pub upsert_run : String → OrchestrationState → List RunRow → List RunRow
upsert_run key s runs =
    if is_some (find_key String_discrete run_key key runs)
    then update_key String_discrete run_key key (λ _. true) (saved_over s) runs
    else runs ++ saved_row key s ∷ []

unfoldable pub insert_event : OutboxRow → Exec (Unit {0})
insert_event e db =
    if is_some (event_of e.task_id e.revision db)
    then (raise duplicate_event, db)
    else (ok tt, record db { outbox = db.outbox ++ e ∷ [] })

abbrev pub commit :
    {A : Type 0}
    → OrchestrationDb
    → Result OrchestrationError A × OrchestrationDb
    → Result OrchestrationError A × OrchestrationDb
commit db (ok a, db') = (ok a, db')
commit db (raise e, db') = (raise e, db)

-- What a cancelled save or an exception in it wrote is rolled back.
abbrev pub transaction : {A : Type 0} → Exec A → Exec A
transaction m db = commit db (m db)

module _ (parsers : Parsers) (path : String) where
  -- The grant is consumed for the one node that it admits.
  unfoldable pub admit_node :
      ℕ → Option SharedLedger → ApprovalGrant → Option RunRow → OrchestrationState → Exec (Unit {0})
  admit_node now ledger grant row s = do
    shared ← or_raise ledger_missing ledger
    let nodes = select (admits grant) s.nodes
    (node, r) ← lift (single nodes row)
    old ← or_raise node_missing (find_node node.id r.payload.nodes)
    guard (still_pending old node) action_changed
    call ← or_raise invalid_call (parsers.parse_call node.output)
    on_grants (
        consume_in_transaction parsers.digest shared.binding shared.path path now grant (task_of s)
          call)

  abbrev pub admit_grant :
      ℕ
      → Option SharedLedger
      → Option ApprovalGrant
      → Option RunRow
      → OrchestrationState
      → Exec (Unit {0})
  admit_grant now ledger none row s = pure tt
  admit_grant now ledger (some grant) row s = admit_node now ledger grant row s

  -- the writes of `_save`
  unfoldable pub write_state : OrchestrationState → String → Exec OrchestrationState
  unfolding final_result
  write_state s event = do
    result ← on_checkpoints (Checkpoint.save (final_result s))
    let saved : OrchestrationState = record s { revision = s.revision + 1; result = result }
    modify (λ (db : OrchestrationDb). record db { runs = upsert_run (task_of s) saved db.runs })
    insert_event (record {
      task_id = task_of s;
      revision = saved.revision;
      event = event;
      status = result.status;
      published = false;
    })
    pure saved

  -- `_save`, on the connection of a transaction
  unfoldable pub save_in :
      ℕ
      → OrchestrationState
      → String
      → Option SharedLedger
      → Option ApprovalGrant
      → Exec OrchestrationState
  unfolding accept
  save_in now s event ledger grant = do
    row ← gets (run_of (task_of s))
    checkpoint ← gets (λ (db : OrchestrationDb). Checkpoint.load (task_of s) db.checkpoints)
    accepted ← lift (accept row (is_some checkpoint) s)
    admit_grant now ledger grant row accepted
    write_state accepted event

  -- `save` with no connection of the caller's
  unfoldable pub save :
      ℕ
      → OrchestrationState
      → String
      → Option SharedLedger
      → Option ApprovalGrant
      → Exec OrchestrationState
  save now s event ledger grant = transaction (save_in now s event ledger grant)

abbrev pub cancel_row : RunRow → RunRow
cancel_row r = record r { cancel_requested = true }

abbrev pub cancel_found : String → Option RunRow → Exec Bool
cancel_found task none db = (raise run_missing, db)
cancel_found task (some r) db =
    if not (is_current r.payload)
    then (raise invalid_projection, db)
    else if is_terminal r.payload.result.status
    then (ok false, db)
    else (
      ok true,
      record db { runs = update_key String_discrete run_key task (λ _. true) cancel_row db.runs },
    )

unfoldable pub request_cancel : String → Exec Bool
request_cancel task db = cancel_found task (run_of task db) db

-- Unpublished events of a task, in the order of their revisions.
unfoldable pub events : String → OrchestrationDb → List OutboxRow
events task db =
    sort_by (λ (e : OutboxRow). e.revision)
      (select (λ (e : OutboxRow). e.task_id == task && not e.published) db.outbox)

unfoldable pub acknowledge : String → ℕ → OrchestrationDb → OrchestrationDb
acknowledge task revision db = record db {
  outbox =
      update_key event_key-discrete event_key (task, revision) (λ _. true)
        (λ (e : OutboxRow). record e { published = true }) db.outbox;
}
