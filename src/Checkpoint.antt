-- ===== src/Checkpoint.antt =====
-- state/checkpoint.py: `SQLiteCheckpointStore`, the optimistic, revisioned snapshots of runs. The
-- payload column holds a snapshot's JSON text; a row here holds the snapshot.
pub mod Laws
mod Tests
use Prim.Native.Nat.{Ordering}
use Prim.Native.String.{compare}
use native.Mathlib.Decide.{ℕ_discrete}
use forgeharness.Common.{
  ℕ, zero, ◌+◌, String, Bool, true, false, Option, none, some, List, [], ◌∷◌, ◌++◌, Result, ok,
  raise, Action, if◌then◌else◌, ◌==◌, ℕ_eq, holds, String_discrete, map_option, select, map,
}
use forgeharness.Table.{find_key, update_key, count_key}
use forgeharness.Domain.{RunResult, running, RunStatus_eq}

pub data CheckpointConflict : Type 0 where
  revision_conflict changed_while_saving : CheckpointConflict

pub record CheckpointRow : Type 0 where
  pub task_id : String
  pub revision : ℕ
  pub payload : RunResult

abbrev pub Checkpoints : Type 0
Checkpoints = List CheckpointRow

abbrev pub task_key : CheckpointRow → String
task_key r = r.task_id

abbrev pub checkpoint_of : String → Checkpoints → Option CheckpointRow
checkpoint_of task rows = find_key String_discrete task_key task rows

abbrev pub revision_of : Option CheckpointRow → ℕ
revision_of none = 0
revision_of (some r) = r.revision

abbrev pub stamped : RunResult → ℕ → RunResult
stamped result revision = record result { checkpoint_revision = revision }

abbrev pub at_revision : ℕ → CheckpointRow → Bool
at_revision n r = r.revision == n

-- the INSERT or the guarded UPDATE of `save_in_transaction`
unfoldable pub write_snapshot :
    Option CheckpointRow → RunResult → Action Checkpoints CheckpointConflict RunResult
write_snapshot none saved rows = (
  ok saved,
  rows
      ++ record { task_id = saved.task_id; revision = saved.checkpoint_revision; payload = saved }
        ∷ [],
)
write_snapshot (some current) saved rows =
    if count_key String_discrete task_key saved.task_id (at_revision current.revision) rows == 1
    then (
      ok saved,
      update_key String_discrete task_key saved.task_id (at_revision current.revision)
          (λ r. record r { revision = saved.checkpoint_revision; payload = saved }) rows,
    )
    else (raise changed_while_saving, rows)

-- `save` and `save_in_transaction`: a compare-and-swap on the revision that the writer read
unfoldable pub save : RunResult → Action Checkpoints CheckpointConflict RunResult
unfolding write_snapshot
save result rows =
    let row = checkpoint_of result.task_id rows in
    let current = revision_of row in
    if current == result.checkpoint_revision
    then write_snapshot row (stamped result (current + 1)) rows
    else (raise revision_conflict, rows)

unfoldable pub load : String → Checkpoints → Option RunResult
load task rows = map_option (λ (r : CheckpointRow). r.payload) (checkpoint_of task rows)

abbrev text_leb : String → String → Bool
text_leb a b = elim (compare a b) [ Ordering.gt ↦ false | _ ↦ true ]

abbrev insert_by_task : CheckpointRow → Checkpoints → Checkpoints
insert_by_task a [] = a ∷ []
insert_by_task a (r ∷ rows) =
    if text_leb a.task_id r.task_id then a ∷ r ∷ rows else r ∷ insert_by_task a rows

abbrev pub order_by_task : Checkpoints → Checkpoints
order_by_task [] = []
order_by_task (r ∷ rows) = insert_by_task r (order_by_task rows)

-- snapshots whose status is in `RECOVERABLE_STATUSES`
unfoldable pub pending_runs : Checkpoints → List RunResult
pending_runs rows =
    select (λ (s : RunResult). s.status == running)
      (map (λ (r : CheckpointRow). r.payload) (order_by_task rows))
