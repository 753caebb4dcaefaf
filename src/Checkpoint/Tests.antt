-- ===== src/Checkpoint/Tests.antt =====
-- Small runs of state/checkpoint.py.
use native.Mathlib.Decide.{ℕ_discrete}
use forgeharness.Common.{◌+◌, ◌≡◌, ◌≢◌, ◌⊎◌, refl, none, some, [], ◌∷◌, ok, raise, String_discrete}
use forgeharness.Table.{HasUniqueKeys}
use forgeharness.Domain.{RunResult, running}
use forgeharness.Checkpoint.{
  Checkpoints, checkpoint_of, revision_of, stamped, revision_conflict, task_key, save, load,
  write_snapshot,
}
use forgeharness.Checkpoint.Laws.{save_lem, save-twice}

abbrev snapshot : RunResult
snapshot = record {
  task_id = "t1";
  status = running;
  messages = [];
  usage = record { steps = 1; tool_calls = 0; input_tokens = 10; output_tokens = 2 };
  checkpoint_revision = 3;
  final_output = none;
  error = none;
  pending_approval = none;
  recovery_semantics_version = 1;
  state_version = 1;
  run_context = none;
  tool_evidence = [];
  authorized_call_id = none;
}

abbrev stored : Checkpoints
stored = record { task_id = "t1"; revision = 3; payload = snapshot } ∷ []

stored_unique : HasUniqueKeys String_discrete task_key stored
stored_unique = (refl, tt)

stored_revision : 3 ≡ revision_of (checkpoint_of "t1" stored)
unfolding String_discrete
stored_revision = refl

saves_next : (save snapshot stored).0 ≡ ok (stamped snapshot 4)
unfolding save write_snapshot String_discrete ℕ_discrete
saves_next = refl

save_lem_example :
    let current = revision_of (checkpoint_of "t1" stored) in
    let saved = stamped snapshot (current + 1) in
    ((3 ≡ current)
      × ((save snapshot stored).0 ≡ ok saved)
      × (load "t1" (save snapshot stored).1 ≡ some saved))
    ⊎ ((3 ≢ current) × (save snapshot stored ≡ (raise revision_conflict, stored)))
save_lem_example = save_lem snapshot stored stored_unique

save-twice_example :
    (save snapshot (save snapshot stored).1 ≡ (raise revision_conflict, (save snapshot stored).1))
    × (load "t1" (save snapshot stored).1 ≡ some (stamped snapshot 4))
save-twice_example = save-twice snapshot snapshot stored stored_unique refl refl stored_revision
