-- ===== src/Approval/Admission.antt =====
-- `SQLiteApprovalLedger.consume_and_checkpoint` of state/approval.py: a grant is consumed and the
-- resumed run is saved in one transaction of the database that has both tables.
use forgeharness.Common.{
  ℕ, ◌+◌, ◌≡◌, String, Bool, true, false, not, ◌&&◌, Option, none, some, Result, ok, raise, Action,
  gets, or_raise, guard, ◌>>=◌, ◌>>◌, ◌==◌, String_eq, ℕ_eq, String_discrete, arith, refl, sym, ap,
  subst, ◌∙◌, Bool-cases, inl, inr, ◌⊎◌, is_some,
}
use forgeharness.Domain.{
  ToolCall, ToolCall_eq, RunResult, running, awaiting_approval, RunStatus_eq, Messages_eq,
  Evidence_eq, Context_eq, Usage_eq, Identifier_eq, PendingApproval,
}
use forgeharness.Table.{HasUniqueKeys}
use forgeharness.Checkpoint.{CheckpointConflict, Checkpoints, checkpoint_of, save}
use forgeharness.Approval.{
  ApprovalError, separate_database, no_checkpoint, not_an_admission, checkpoint_conflict,
  ApprovalGrant, ApprovalGrant_eq, Digest, GrantRow, Grants, sql_entry, grant_row,
}
use forgeharness.Checkpoint.{task_key, stamped, revision_of, load}
use forgeharness.Checkpoint.Laws.{save_lem}
use forgeharness.Approval.Sqlite.{consume, IsAdmissible}
use forgeharness.Approval.OneShot.{spent, consume_iff, entry-consumed}

pub record Store : Type 0 where
  pub grants : Grants
  pub checkpoints : Checkpoints

-- A statement on one of the tables.
abbrev pub on_grants : {A : Type 0} → Action Grants ApprovalError A → Action Store ApprovalError A
on_grants m s = let (r, rows) = m s.grants in (r, record s { grants = rows })

abbrev pub as_approval : {A : Type 0} → Result CheckpointConflict A → Result ApprovalError A
as_approval (ok a) = ok a
as_approval (raise e) = raise (checkpoint_conflict e)

abbrev pub on_checkpoints :
    {A : Type 0} → Action Checkpoints CheckpointConflict A → Action Store ApprovalError A
on_checkpoints m s =
    let (r, rows) = m s.checkpoints in (as_approval r, record s { checkpoints = rows })

-- The connection's context manager rolls back what was written when an exception leaves it.
abbrev pub commit :
    {A : Type 0} → Store → Result ApprovalError A × Store → Result ApprovalError A × Store
commit s (ok a, s') = (ok a, s')
commit s (raise e, s') = (raise e, s)

abbrev pub transaction : {A : Type 0} → Action Store ApprovalError A → Action Store ApprovalError A
transaction m s = commit s (m s)

abbrev pub awaits : Option PendingApproval → ToolCall → Bool
awaits none call = false
awaits (some p) call = p.call == call

-- the long test of `consume_and_checkpoint`, negated
unfoldable pub is_admission : String → ToolCall → RunResult → RunResult → Bool
is_admission task_id call result current =
    result.task_id == task_id
    && result.status == running
    && result.authorized_call_id == some call.id
    && not (is_some result.pending_approval)
    && current.status == awaiting_approval
    && awaits current.pending_approval call
    && current.run_context == result.run_context
    && current.messages == result.messages
    && current.usage == result.usage
    && current.tool_evidence == result.tool_evidence

module _ (digest : Digest) (binding path : String) where
  -- the body of the transaction
  unfoldable pub admit :
      ℕ → ApprovalGrant → String → ToolCall → RunResult → Action Store ApprovalError RunResult
  admit now grant task_id call result = do
    found ← gets (λ (s : Store). load task_id s.checkpoints)
    current ← or_raise no_checkpoint found
    guard (is_admission task_id call result current) not_an_admission
    on_grants (consume digest binding now grant task_id call)
    on_checkpoints (save result)

  -- `checkpoint_path` is the path of a `SQLiteCheckpointStore`, none for any other store.
  unfoldable pub consume_and_checkpoint :
      Option String
      → ℕ
      → ApprovalGrant
      → String
      → ToolCall
      → RunResult
      → Action Store ApprovalError RunResult
  unfolding admit
  consume_and_checkpoint checkpoint_path now grant task_id call result = do
    guard (checkpoint_path == some path) separate_database
    transaction (admit now grant task_id call result)

  -- What is so after an admission, and was before it.
  pub record IsAdmitted (now : ℕ) (grant : ApprovalGrant) (task_id : String) (call : ToolCall)
      (result : RunResult) (before after : Store) (saved : RunResult) : Type 0 where
    pub suspended :
        (current : RunResult) × (load task_id before.checkpoints ≡ some current)
        × (is_admission task_id call result current ≡ true)
    pub admissible :
        (row : GrantRow) × (grant_row grant.id before.grants ≡ some row)
        × IsAdmissible digest binding now grant task_id call row
    pub used : sql_entry grant.id after.grants ≡ spent grant
    pub numbered : saved ≡ stamped result (result.checkpoint_revision + 1)
    pub stored : load task_id after.checkpoints ≡ some saved

abbrev Saved : Type 0
Saved = Result CheckpointConflict RunResult

ok-injective : {a b : RunResult} → Path Saved (ok a) (ok b) → a ≡ b
ok-injective h = cc

ok≢raise : {a : RunResult} {e : CheckpointConflict} → ¬ Path Saved (ok a) (raise e)
ok≢raise h = cc

module _ (digest : Digest) (binding path : String) (now : ℕ) (grant : ApprovalGrant)
    (task_id : String) (call : ToolCall) (result : RunResult) (s : Store) where
  abbrev admitted : Result ApprovalError RunResult × Store
  admitted = admit digest binding path now grant task_id call result s

  abbrev consumed : Result ApprovalError (Unit {0}) × Grants
  consumed = consume digest binding now grant task_id call s.grants

  abbrev saving : Result CheckpointConflict RunResult × Checkpoints
  saving = save result s.checkpoints

  admit-suspended :
      (o : Option RunResult) (saved : RunResult)
      → load task_id s.checkpoints ≡ o
      → admitted.0 ≡ ok saved
      → (current : RunResult) × (load task_id s.checkpoints ≡ some current)
        × (is_admission task_id call result current ≡ true)
  unfolding admit
  admit-suspended none saved found h = ground arith
  admit-suspended (some current) saved found h = (current, found, ground arith)

  admit-parts :
      (saved : RunResult)
      → admitted.0 ≡ ok saved
      → (consumed.0 ≡ ok tt)
        × (saving.0 ≡ ok saved)
        × (admitted.1.grants ≡ consumed.1)
        × (admitted.1.checkpoints ≡ saving.1)
  unfolding admit
  admit-parts saved h = (ground arith, ground arith, ground arith, ground arith)

  admission-task :
      (current : RunResult)
      → is_admission task_id call result current ≡ true
      → result.task_id ≡ task_id
  unfolding is_admission
  admission-task current h = ground arith

  save-saved :
      (saved : RunResult)
      → HasUniqueKeys String_discrete task_key s.checkpoints
      → saving.0 ≡ ok saved
      → (saved ≡ stamped result (result.checkpoint_revision + 1))
        × (load result.task_id saving.1 ≡ some saved)
  save-saved saved u h = elim (save_lem result s.checkpoints u) [
    | inl (read, written, stored) ↦
        let e : saved
            ≡ stamped result (revision_of (checkpoint_of result.task_id s.checkpoints) + 1) =
          ok-injective (sym h ∙ written) in
        (e ∙ ap (λ n. stamped result (n + 1)) (sym read), stored ∙ ap (λ x. some x) (sym e))
    | inr (stale, refused) ↦ absurd (ok≢raise (sym h ∙ ap (λ p. p.0) refused))
  ]

  admit-IsAdmitted :
      (saved : RunResult)
      → HasUniqueKeys String_discrete task_key s.checkpoints
      → admitted.0 ≡ ok saved
      → IsAdmitted digest binding path now grant task_id call result s admitted.1 saved
  admit-IsAdmitted saved u h =
      let (current, found, suspended) = admit-suspended (load task_id s.checkpoints) saved refl h in
      let (used, kept, grants_after, checkpoints_after) = admit-parts saved h in
      let (numbered, stored) = save-saved saved u kept in
      record {
        suspended = (current, found, suspended);
        admissible = (consume_iff digest binding now grant task_id call s.grants).0 used;
        used = rw grants_after (entry-consumed digest binding now grant task_id call s.grants used);
        numbered = numbered;
        stored =
            rw checkpoints_after
              (subst (λ t. load t saving.1 ≡ some saved) (admission-task current suspended) stored);
      }

  abbrev Atomic : Result ApprovalError RunResult × Store → Type 0
  Atomic (r, after) =
      ((e : ApprovalError) × (r ≡ raise e) × (after ≡ s))
      ⊎ ((saved : RunResult) × (r ≡ ok saved)
          × IsAdmitted digest binding path now grant task_id call result s after saved)

  commit-Atomic :
      HasUniqueKeys String_discrete task_key s.checkpoints
      → (p : Result ApprovalError RunResult × Store) → admitted ≡ p
      → Atomic (commit s p)
  commit-Atomic u (ok saved, after) e =
      let a = admit-IsAdmitted saved u (ap (λ q. q.0) e) in
      inr (
        saved,
        refl,
        subst (λ t. IsAdmitted digest binding path now grant task_id call result s t saved)
            (ap (λ q. q.1) e) a,
      )
  commit-Atomic u (raise x, after) e = inl (x, refl, refl)

  unfold-admission :
      (checkpoint_path : Option String)
      → (consume_and_checkpoint digest binding path checkpoint_path now grant task_id call result s
          ≡ commit s admitted)
        ⊎ (consume_and_checkpoint digest binding path checkpoint_path now grant task_id call result
              s
            ≡ (raise separate_database, s))
  unfolding consume_and_checkpoint
  unfold-admission checkpoint_path = elim (Bool-cases (checkpoint_path == some path)) [
    | inl same ↦ inl (rw same refl)
    | inr other ↦ inr (rw other refl)
  ]

-- With one checkpoint row for a run, consuming a grant and admitting its call are atomic. Either the whole database is as it was, or
-- the run was suspended on this very call, the grant was admissible and is now spent, and the
-- stored run is the resumed one with the next revision.
pub admission-atomic :
    (digest : Digest) (binding path : String) (checkpoint_path : Option String) (now : ℕ)
    (grant : ApprovalGrant) (task_id : String) (call : ToolCall) (result : RunResult) (s : Store)
    → HasUniqueKeys String_discrete task_key s.checkpoints
    → let (r, after) =
        consume_and_checkpoint digest binding path checkpoint_path now grant task_id call result
          s in
      ((e : ApprovalError) × (r ≡ raise e) × (after ≡ s))
      ⊎ ((saved : RunResult) × (r ≡ ok saved)
          × IsAdmitted digest binding path now grant task_id call result s after saved)
admission-atomic digest binding path checkpoint_path now grant task_id call result s u =
    let P = Atomic digest binding path now grant task_id call result s in
    elim (unfold-admission digest binding path now grant task_id call result s checkpoint_path) [
      | inl e ↦
          subst P (sym e)
            (commit-Atomic digest binding path now grant task_id call result s u _ refl)
      | inr e ↦ subst P (sym e) (inl (separate_database, refl, refl))
    ]

module _ (digest : Digest) (binding path : String) (now : ℕ) (grant : ApprovalGrant)
    (task_id : String) (call : ToolCall) (result : RunResult) (s : Store) where
  admit-ok :
      (current saved : RunResult)
      → load task_id s.checkpoints ≡ some current
      → is_admission task_id call result current ≡ true
      → (consume digest binding now grant task_id call s.grants).0 ≡ ok tt
      → (save result s.checkpoints).0 ≡ ok saved
      → (admit digest binding path now grant task_id call result s).0 ≡ ok saved
  unfolding admit
  admit-ok current saved found fits used kept = ground arith

-- With one checkpoint row for a run, an admission goes through: when the checkpoints are in the
-- ledger's database, the run is suspended on this very call, the grant is admissible, and the
-- resumed run carries the stored revision, the resumed run is returned with the next revision.
pub admission-succeeds :
    (digest : Digest) (binding path : String) (now : ℕ) (grant : ApprovalGrant) (task_id : String)
    (call : ToolCall) (result current : RunResult) (row : GrantRow) (s : Store)
    → HasUniqueKeys String_discrete task_key s.checkpoints
    → load task_id s.checkpoints ≡ some current
    → is_admission task_id call result current ≡ true
    → grant_row grant.id s.grants ≡ some row
    → IsAdmissible digest binding now grant task_id call row
    → result.checkpoint_revision ≡ revision_of (checkpoint_of task_id s.checkpoints)
    → (consume_and_checkpoint digest binding path (some path) now grant task_id call result s).0
      ≡ ok (stamped result (result.checkpoint_revision + 1))
unfolding consume_and_checkpoint
admission-succeeds digest binding path now grant task_id call result current row s u found fits
      issued a read =
    let saved = stamped result (result.checkpoint_revision + 1) in
    let used = (consume_iff digest binding now grant task_id call s.grants).1 (row, issued, a) in
    let task = admission-task digest binding path now grant task_id call result s current fits in
    let kept : (save result s.checkpoints).0 ≡ ok saved = elim (save_lem result s.checkpoints u) [
      | inl (same, written, stored) ↦ written ∙ ap (λ n. ok (stamped result (n + 1))) (sym same)
      | inr (stale, refused) ↦
          absurd (stale (read ∙ ap (λ t. revision_of (checkpoint_of t s.checkpoints)) (sym task)))
    ] in
    ground (
      arith,
      admit-ok digest binding path now grant task_id call result s current saved found fits used
          kept,
    )
