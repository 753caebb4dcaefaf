-- ===== src/Approval/Sqlite.antt =====
-- `SQLiteApprovalLedger.issue`, `_consume` and `consume` of state/approval.py, on the rows of the
-- table `approval_grants`.
use forgeharness.Common.{
  ℕ, ◌+◌, ◌<◌, ◌≡◌, String, Bool, true, false, not, ◌&&◌, Option, [], ◌∷◌, ◌++◌, ok, raise, Action,
  gets, or_raise, guard, modify, ◌>>=◌, ◌>>◌, if◌then◌else◌, ◌==◌, String_eq, ℕ_eq, String_discrete,
  ltb, is_some,
}
use forgeharness.Domain.{
  RunContext, ToolCall, ToolCall_eq, RunStatus_eq, Messages_eq, Evidence_eq, Context_eq, Usage_eq,
  Identifier_eq,
}
use forgeharness.Table.{update_key}
use forgeharness.Approval.{
  ApprovalError, ttl_not_positive, not_issued, already_consumed, expired, mismatched, duplicate_id,
  separate_database, ApprovalGrant, ApprovalGrant_eq, Digest, call_fingerprint, GrantRow, Grants,
  row_key, grant_row, mark,
}

abbrev pub unused_row : ApprovalGrant → GrantRow
unused_row grant = record {
  id = grant.id;
  task_id = grant.task_id;
  payload = grant;
  consumed = false;
}

module _ (digest : Digest) (binding : String) where
  unfoldable pub new_grant :
      String → ℕ → String → ToolCall → String → ℕ → Option RunContext → ApprovalGrant
  unfolding call_fingerprint
  new_grant id now task_id call granted_by ttl approver_context = record {
    id = id;
    task_id = task_id;
    call_fingerprint = call_fingerprint digest task_id call;
    granted_by = granted_by;
    expires_at = now + ttl;
    binding_digest = binding;
    approver_context = approver_context;
  }

  -- The INSERT refuses an id that is in the table: it is the primary key.
  unfoldable pub issue :
      String
      → ℕ
      → String
      → ToolCall
      → String
      → ℕ
      → Option RunContext
      → Action Grants ApprovalError ApprovalGrant
  unfolding new_grant
  issue id now task_id call granted_by ttl approver_context rows =
      let grant = new_grant id now task_id call granted_by ttl approver_context in
      if ltb 0 ttl
      then if is_some (grant_row id rows)
        then (raise duplicate_id, rows)
        else (ok grant, rows ++ unused_row grant ∷ [])
      else (raise ttl_not_positive, rows)

  -- the SELECT and the tests of `_consume`
  unfoldable pub matches : ApprovalGrant → String → ToolCall → Bool
  unfolding call_fingerprint
  matches grant task_id call =
      grant.task_id == task_id
      && grant.call_fingerprint == call_fingerprint digest task_id call
      && grant.binding_digest == binding

  -- `_consume`; `consume` runs it in a transaction of its own
  unfoldable pub consume :
      ℕ → ApprovalGrant → String → ToolCall → Action Grants ApprovalError (Unit {0})
  unfolding matches
  consume now grant task_id call = do
    found ← gets (grant_row grant.id)
    row ← or_raise not_issued found
    guard (row.payload == grant) not_issued
    guard (not row.consumed) already_consumed
    guard (ltb now grant.expires_at) expired
    guard (matches grant task_id call) mismatched
    modify (update_key String_discrete row_key grant.id (λ _. true) mark)

  -- What a row must hold for a grant to be consumed.
  pub record IsAdmissible (now : ℕ) (grant : ApprovalGrant) (task_id : String) (call : ToolCall)
      (row : GrantRow) : Type 0 where
    pub issued : row.payload ≡ grant
    pub unused : row.consumed ≡ false
    pub unexpired : now < grant.expires_at
    pub bound_task : grant.task_id ≡ task_id
    pub bound_call : grant.call_fingerprint ≡ call_fingerprint digest task_id call
    pub bound_context : grant.binding_digest ≡ binding

  -- within a transaction on `database`, which must be the file of the ledger
  unfoldable pub consume_in_transaction :
      String
      → String
      → ℕ
      → ApprovalGrant
      → String
      → ToolCall
      → Action Grants ApprovalError (Unit {0})
  unfolding consume
  consume_in_transaction path database now grant task_id call = do
    guard (database == path) separate_database
    consume now grant task_id call
