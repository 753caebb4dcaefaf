-- ===== src/Checkpoint/Laws.antt =====
-- The compare-and-swap of state/checkpoint.py.
use native.Mathlib.Decide.{ℕ_discrete}
use forgeharness.Common.{
  ℕ, ◌+◌, sym, ap, subst, ◌∙◌, ◌≡◌, ◌≢◌, refl, true, Option, none, some, arith, ok, raise,
  String_discrete, ◌⊎◌, inl, inr,
}
use forgeharness.Table.{HasUniqueKeys, find_key-append, count_key_self, find_key-update_self}
use forgeharness.Domain.{RunResult}
use forgeharness.Checkpoint.{
  revision_conflict, CheckpointRow, Checkpoints, task_key, checkpoint_of, revision_of, stamped,
  at_revision, write_snapshot, save, load,
}

abbrev write_row : RunResult → CheckpointRow → CheckpointRow
write_row saved r = record r { revision = saved.checkpoint_revision; payload = saved }

abbrev new_row : RunResult → CheckpointRow
new_row saved = record {
  task_id = saved.task_id;
  revision = saved.checkpoint_revision;
  payload = saved;
}

module _ (saved : RunResult) (rows : Checkpoints)
    (u : HasUniqueKeys String_discrete task_key rows) where
  write_snapshot-inserts :
      checkpoint_of saved.task_id rows ≡ none
      → checkpoint_of saved.task_id (write_snapshot none saved rows).1 ≡ some (new_row saved)
  unfolding write_snapshot
  write_snapshot-inserts found =
      ground (arith, find_key-append String_discrete task_key saved.task_id rows (new_row saved))

  module _ (r : CheckpointRow) (found : checkpoint_of saved.task_id rows ≡ some r) where
    write_snapshot-updates :
        (write_snapshot (some r) saved rows).0 ≡ ok saved
        × (checkpoint_of saved.task_id (write_snapshot (some r) saved rows).1
            ≡ some (write_row saved r))
    unfolding write_snapshot
    write_snapshot-updates =
        let passes : at_revision r.revision r ≡ true = ground arith in
        let counted =
          count_key_self String_discrete task_key (write_row saved) (λ r. refl) saved.task_id
            (at_revision r.revision) rows r found passes u in
        let stored =
          find_key-update_self String_discrete task_key (write_row saved) (λ r. refl) saved.task_id
            (at_revision r.revision) rows r found passes in
        (ground (arith, counted), ground (arith, counted, stored))

-- What `write_snapshot` does once the revisions agree.
write_snapshot-row :
    (row : Option CheckpointRow) (saved : RunResult) (rows : Checkpoints)
    → HasUniqueKeys String_discrete task_key rows
    → checkpoint_of saved.task_id rows ≡ row
    → ((write_snapshot row saved rows).0 ≡ ok saved)
      × (load saved.task_id (write_snapshot row saved rows).1 ≡ some saved)
      × (revision_of (checkpoint_of saved.task_id (write_snapshot row saved rows).1)
          ≡ saved.checkpoint_revision)
unfolding load write_snapshot
write_snapshot-row none saved rows u found =
    let e = write_snapshot-inserts saved rows u found in (refl, rw e refl, rw e refl)
write_snapshot-row (some r) saved rows u found =
    let (written, e) = write_snapshot-updates saved rows u r found in
    (written, rw e refl, rw e refl)

module _ (result : RunResult) (rows : Checkpoints)
    (u : HasUniqueKeys String_discrete task_key rows) where
  abbrev row : Option CheckpointRow
  row = checkpoint_of result.task_id rows

  abbrev saved : RunResult
  saved = stamped result (revision_of row + 1)

  save-revision :
      result.checkpoint_revision ≡ revision_of row
      → ((save result rows).0 ≡ ok saved)
        × (load result.task_id (save result rows).1 ≡ some saved)
        × (revision_of (checkpoint_of result.task_id (save result rows).1) ≡ revision_of row + 1)
  unfolding save
  save-revision e =
      let (written, stored, numbered) = write_snapshot-row row saved rows u refl in
      (ground (arith, written), ground (arith, stored), ground (arith, numbered))

n≢n+1 : (n : ℕ) → n ≢ n + 1
n≢n+1 n e = omega arith

save-conflict :
    (result : RunResult) (rows : Checkpoints)
    → result.checkpoint_revision ≢ revision_of (checkpoint_of result.task_id rows)
    → save result rows ≡ (raise revision_conflict, rows)
unfolding save
save-conflict result rows ne =
    let back : revision_of (checkpoint_of result.task_id rows) ≢ result.checkpoint_revision =
      λ p. ne (sym p) in
    ground (arith, back)

-- In a table with one row for a run, a save succeeds exactly when the writer has read the stored
-- revision; the stored snapshot is then the writer's with the next revision, and otherwise nothing
-- is written.
pub save_lem :
    (result : RunResult) (rows : Checkpoints)
    → HasUniqueKeys String_discrete task_key rows
    → let current = revision_of (checkpoint_of result.task_id rows) in
      let saved = stamped result (current + 1) in
      ((result.checkpoint_revision ≡ current)
        × ((save result rows).0 ≡ ok saved)
        × (load result.task_id (save result rows).1 ≡ some saved))
      ⊎ ((result.checkpoint_revision ≢ current)
          × (save result rows ≡ (raise revision_conflict, rows)))
save_lem result rows u =
    elim (ℕ_discrete result.checkpoint_revision (revision_of (checkpoint_of result.task_id rows))) [
      | yes e ↦
          let (written, stored, numbered) = save-revision result rows u e in
          inl (e, written, stored)
      | no ne ↦ inr (ne, save-conflict result rows ne)
    ]

-- A checkpoint that was saved is loaded.
pub saved_checkpoint :
    (x y : RunResult) (rows rows' : Checkpoints)
    → HasUniqueKeys String_discrete task_key rows
    → save x rows ≡ (ok y, rows')
    → load x.task_id rows' ≡ some y
saved_checkpoint x y rows rows' u h = elim (save_lem x rows u) [
  | inl (read, written, stored) ↦ ground (arith, written, stored)
  | inr (stale, refused) ↦ cc
]

-- A save changes no more of a snapshot than its revision.
pub saved_content :
    (x y : RunResult) (rows rows' : Checkpoints)
    → HasUniqueKeys String_discrete task_key rows
    → save x rows ≡ (ok y, rows')
    → y ≡ stamped x (revision_of (checkpoint_of x.task_id rows) + 1)
saved_content x y rows rows' u h = elim (save_lem x rows u) [
  | inl (read, written, stored) ↦ ground (arith, written)
  | inr (stale, refused) ↦ cc
]

-- In a table with one row for a run, two writers that have read the stored revision of one run
-- cannot both save: the first one's snapshot is stored with the next revision, and then the second
-- conflicts and the first one's snapshot stays.
pub save-twice :
    (first second : RunResult) (rows : Checkpoints)
    → HasUniqueKeys String_discrete task_key rows
    → first.task_id ≡ second.task_id
    → first.checkpoint_revision ≡ second.checkpoint_revision
    → first.checkpoint_revision ≡ revision_of (checkpoint_of first.task_id rows)
    → (save second (save first rows).1 ≡ (raise revision_conflict, (save first rows).1))
      × (load first.task_id (save first rows).1
          ≡ some (stamped first (first.checkpoint_revision + 1)))
save-twice first second rows u same_task same_revision read =
    let (written, stored, numbered) = save-revision first rows u read in
    let moved : revision_of (checkpoint_of second.task_id (save first rows).1)
        ≡ second.checkpoint_revision + 1 =
      subst
        (λ t. revision_of (checkpoint_of t (save first rows).1) ≡ second.checkpoint_revision + 1)
        same_task (numbered ∙ ap (λ n. n + 1) (sym read ∙ same_revision)) in
    (
      save-conflict second (save first rows).1 (λ e. n≢n+1 second.checkpoint_revision (e ∙ moved)),
      stored ∙ ap (λ n. some (stamped first (n + 1))) (sym read),
    )
