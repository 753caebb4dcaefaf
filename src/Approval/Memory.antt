-- ===== src/Approval/Memory.antt =====
-- `InMemoryApprovalLedger` of state/approval.py. `uuid4()` gives the id of a grant, the clock `now`.
use forgeharness.Common.{
  ℕ, ◌+◌, String, not, ◌&&◌, none, ◌∷◌, ok, raise, Action, gets, or_raise, guard, modify, ◌>>=◌,
  ◌>>◌, if◌then◌else◌, ◌==◌, String_eq, ℕ_eq, ltb,
}
use forgeharness.Domain.{
  ToolCall, ToolCall_eq, RunStatus_eq, Messages_eq, Evidence_eq, Context_eq, Usage_eq,
  Identifier_eq,
}
use forgeharness.Approval.{
  ApprovalError, ttl_not_positive, not_issued, already_consumed, expired, mismatched, ApprovalGrant,
  ApprovalGrant_eq, Digest, call_fingerprint, Ledger, issued_grant, is_consumed,
}

module _ (digest : Digest) where
  unfoldable pub issue :
      String → ℕ → String → ToolCall → String → ℕ → Action Ledger ApprovalError ApprovalGrant
  unfolding call_fingerprint
  issue id now task_id call granted_by ttl l =
      let grant : ApprovalGrant = record {
        id = id;
        task_id = task_id;
        call_fingerprint = call_fingerprint digest task_id call;
        granted_by = granted_by;
        expires_at = now + ttl;
        binding_digest = "";
        approver_context = none;
      } in
      if ltb 0 ttl
      then (ok grant, record l { issued = grant ∷ l.issued })
      else (raise ttl_not_positive, l)

  unfoldable pub consume :
      ℕ → ApprovalGrant → String → ToolCall → Action Ledger ApprovalError (Unit {0})
  unfolding call_fingerprint
  consume now grant task_id call = do
    found ← gets (issued_grant grant.id)
    issued ← or_raise not_issued found
    guard (issued == grant) not_issued
    used ← gets (is_consumed grant.id)
    guard (not used) already_consumed
    guard (ltb now grant.expires_at) expired
    guard
        (grant.task_id == task_id && grant.call_fingerprint == call_fingerprint digest task_id call)
        mismatched
    modify (λ (l : Ledger). record l { consumed = grant.id ∷ l.consumed })
