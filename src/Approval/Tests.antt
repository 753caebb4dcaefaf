-- ===== src/Approval/Tests.antt =====
-- Small runs of state/approval.py.
use native.Mathlib.Decide.{ℕ_discrete}
use forgeharness.Common.{
  ◌≡◌, ◌⊎◌, ◌↔◌, refl, arith, true, none, some, List, [], ◌∷◌, ok, raise, String_discrete,
}
use forgeharness.Table.{HasUniqueKeys}
use forgeharness.Domain.{
  RunResult, ToolCall, running, awaiting_approval, RunStatus-discrete, Messages-discrete,
  Evidence-discrete, Context-discrete, Identifier-discrete, ToolCall-discrete, Usage-discrete,
}
use forgeharness.Checkpoint.{
  task_key, revision_of, checkpoint_of, load, save, stamped, write_snapshot,
}
use forgeharness.Approval.{
  ApprovalError, already_consumed, expired, ApprovalGrant, ApprovalGrant-discrete, Digest,
  call_fingerprint, Ledger, GrantRow, Grants, grant_row,
}
use forgeharness.Approval.Memory
use forgeharness.Approval.Refinement.{Agree, consume-refines}
use forgeharness.Approval.Sqlite.{consume, matches, issue, new_grant, unused_row, IsAdmissible}
use forgeharness.Approval.OneShot.{
  LedgerCall, issue_call, consume_call, make_all, consume_iff, consume-once,
}
use forgeharness.Approval.Admission.{
  Store, consume_and_checkpoint, admit, is_admission, IsAdmitted, admission-atomic,
  admission-succeeds,
}

abbrev digest : Digest
digest = record { sha256 = λ s. s; dumps = λ (task, id, name, arguments). id }

abbrev call : ToolCall
call = record { id = "c1"; name = "write_file"; arguments = "{}" }

abbrev grant : ApprovalGrant
grant = record {
  id = "g1";
  task_id = "t1";
  call_fingerprint = "c1";
  granted_by = "operator";
  expires_at = 100;
  binding_digest = "b";
  approver_context = none;
}

abbrev rows : Grants
rows = unused_row grant ∷ []

grant_issued : issue digest "b" "g1" 40 "t1" call "operator" 60 none [] ≡ (ok grant, rows)
unfolding issue new_grant call_fingerprint String_discrete
grant_issued = refl

grant_consumed : (consume digest "b" 50 grant "t1" call rows).0 ≡ ok tt
unfolding consume matches call_fingerprint ApprovalGrant-discrete String_discrete ℕ_discrete
grant_consumed = refl

grant_expired : consume digest "b" 100 grant "t1" call rows ≡ (raise expired, rows)
unfolding consume matches call_fingerprint ApprovalGrant-discrete String_discrete ℕ_discrete
grant_expired = refl

consume_iff_example : ((consume digest "b" 50 grant "t1" call rows).0 ≡ ok tt) ↔ (
    (row : GrantRow) × (grant_row "g1" rows ≡ some row)
    × IsAdmissible digest "b" 50 grant "t1" call row)
consume_iff_example = consume_iff digest "b" 50 grant "t1" call rows

abbrev calls : List LedgerCall
calls = issue_call "g2" 60 "t1" call "operator" 60 none ∷ consume_call 61 grant "t1" call ∷ []

consume-once_example :
    let after = make_all digest "b" calls (consume digest "b" 50 grant "t1" call rows).1 in
    consume digest "b" 70 grant "t1" call after ≡ (raise already_consumed, after)
consume-once_example =
    consume-once digest "b" 50 grant "t1" call rows grant_consumed calls 70 "t1" call

abbrev suspended : RunResult
suspended = record {
  task_id = "t1";
  status = awaiting_approval;
  messages = [];
  usage = record { steps = 1; tool_calls = 0; input_tokens = 10; output_tokens = 2 };
  checkpoint_revision = 3;
  final_output = none;
  error = none;
  pending_approval = some (record { call = call; reason = "writes" });
  recovery_semantics_version = 1;
  state_version = 1;
  run_context = none;
  tool_evidence = [];
  authorized_call_id = none;
}

abbrev resumed : RunResult
resumed = record suspended {
  status = running;
  pending_approval = none;
  authorized_call_id = some "c1";
}

abbrev store : Store
store = record {
  grants = rows;
  checkpoints = record { task_id = "t1"; revision = 3; payload = suspended } ∷ [];
}

store_unique : HasUniqueKeys String_discrete task_key store.checkpoints
store_unique = (refl, tt)

admits_resumed :
    (consume_and_checkpoint digest "b" "db" (some "db") 50 grant "t1" call resumed store).0
    ≡ ok (stamped resumed 4)
unfolding consume_and_checkpoint admit is_admission load save write_snapshot consume matches
    call_fingerprint ApprovalGrant-discrete String_discrete ℕ_discrete RunStatus-discrete
    Messages-discrete Evidence-discrete Context-discrete Identifier-discrete ToolCall-discrete
    Usage-discrete
admits_resumed = refl

admission-atomic_example :
    let (r, after) =
      consume_and_checkpoint digest "b" "db" (some "db") 50 grant "t1" call resumed store in
    ((e : ApprovalError) × (r ≡ raise e) × (after ≡ store))
    ⊎ ((saved : RunResult) × (r ≡ ok saved)
        × IsAdmitted digest "b" "db" 50 grant "t1" call resumed store after saved)
admission-atomic_example =
    admission-atomic digest "b" "db" (some "db") 50 grant "t1" call resumed store store_unique

suspended_stored : load "t1" store.checkpoints ≡ some suspended
unfolding load String_discrete
suspended_stored = refl

resumed_fits : is_admission "t1" call resumed suspended ≡ true
unfolding is_admission String_discrete ℕ_discrete RunStatus-discrete Messages-discrete
    Evidence-discrete Context-discrete Identifier-discrete ToolCall-discrete Usage-discrete
resumed_fits = refl

grant_found : grant_row "g1" rows ≡ some (unused_row grant)
unfolding String_discrete
grant_found = refl

grant-IsAdmissible : IsAdmissible digest "b" 50 grant "t1" call (unused_row grant)
unfolding call_fingerprint
grant-IsAdmissible = record {
  issued = refl;
  unused = refl;
  unexpired = omega arith;
  bound_task = refl;
  bound_call = refl;
  bound_context = refl;
}

read_stored : 3 ≡ revision_of (checkpoint_of "t1" store.checkpoints)
unfolding String_discrete
read_stored = refl

admission-succeeds_example :
    (consume_and_checkpoint digest "b" "db" (some "db") 50 grant "t1" call resumed store).0
    ≡ ok (stamped resumed 4)
admission-succeeds_example =
    admission-succeeds digest "b" "db" 50 grant "t1" call resumed suspended (unused_row grant) store
      store_unique suspended_stored resumed_fits grant_found grant-IsAdmissible read_stored

abbrev memory : Ledger
memory = record { issued = []; consumed = [] }

abbrev memory_grant : ApprovalGrant
memory_grant = record grant { binding_digest = "" }

memory_consumed :
    (Memory.consume digest 50 memory_grant "t1" call
      (Memory.issue digest "g1" 40 "t1" call "operator" 60 memory).1).0
    ≡ ok tt
unfolding Memory.consume Memory.issue call_fingerprint ApprovalGrant-discrete String_discrete
    ℕ_discrete
memory_consumed = refl

abbrev issued_memory : Ledger
issued_memory = record { issued = memory_grant ∷ []; consumed = [] }

abbrev issued_table : Grants
issued_table = unused_row memory_grant ∷ []

issued_Agree : Agree issued_memory issued_table
issued_Agree = record { at = λ id. ground arith }

consume-refines_example :
    let in_memory = Memory.consume digest 50 memory_grant "t1" call issued_memory in
    let in_table = consume digest "" 50 memory_grant "t1" call issued_table in
    (in_memory.0 ≡ in_table.0) × Agree in_memory.1 in_table.1
consume-refines_example =
    consume-refines digest "" 50 memory_grant "t1" call issued_memory issued_table issued_Agree refl
