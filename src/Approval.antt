-- ===== src/Approval.antt =====
-- state/approval.py: exact, expiring, one-shot approval grants. This module has the grants and
-- the two ledgers; the payload column holds a grant's JSON text, a row here holds the grant.
-- `Approval.Admission` has the transaction with the checkpoints.
pub mod Memory
pub mod Sqlite
pub mod Admission
pub mod OneShot
pub mod Refinement
mod Tests
use native.Mathlib.Decide.{ℕ_discrete}
use forgeharness.Common.{
  ℕ, ◌+◌, String, Bool, true, false, not, ◌&&◌, Option, none, some, List, [], ◌∷◌, ◌++◌, Result, ok,
  raise, Action, gets, or_raise, guard, modify, continue, ◌>>=◌, ◌>>◌, if◌then◌else◌, ◌==◌, Eq,
  String_eq, String_discrete, ltb, is_some, holds, any, map_option,
}
use forgeharness.Table.{find_key, update_key}
use forgeharness.Domain.{RunContext, ToolCall}
use forgeharness.Checkpoint.{CheckpointConflict}

pub data ApprovalError : Type 0 where
  ttl_not_positive not_issued already_consumed expired mismatched : ApprovalError
  duplicate_id separate_database no_checkpoint not_an_admission : ApprovalError
  checkpoint_conflict : CheckpointConflict → ApprovalError

pub record ApprovalGrant : Type 0 where
  pub id : String
  pub task_id : String
  pub call_fingerprint : String
  pub granted_by : String
  pub expires_at : ℕ
  pub binding_digest : String
  pub approver_context : Option RunContext

unfoldable pub ApprovalGrant-discrete : Discrete ApprovalGrant
ApprovalGrant-discrete = hlevel (String_discrete, ℕ_discrete)

instance abbrev pub ApprovalGrant_eq : Eq ApprovalGrant
ApprovalGrant_eq = record { discrete = ApprovalGrant-discrete }

-- `hashlib.sha256(...).hexdigest()` and the canonical `json.dumps`
pub record Digest : Type 0 where
  pub sha256 : String → String
  pub dumps : String × String × String × String → String

module _ (digest : Digest) where
  unfoldable pub call_fingerprint : String → ToolCall → String
  call_fingerprint task_id call =
      digest.sha256 (digest.dumps (task_id, call.id, call.name, call.arguments))

-- `InMemoryApprovalLedger`: `issued` is the dictionary, the newest entry first
pub record Ledger : Type 0 where
  pub issued : List ApprovalGrant
  pub consumed : List String

abbrev pub grant_key : ApprovalGrant → String
grant_key g = g.id

abbrev pub issued_grant : String → Ledger → Option ApprovalGrant
issued_grant id l = find_key String_discrete grant_key id l.issued

abbrev pub is_consumed : String → Ledger → Bool
is_consumed id l = any (λ (c : String). id == c) l.consumed

-- a row of the table `approval_grants` of `SQLiteApprovalLedger`
pub record GrantRow : Type 0 where
  pub id : String
  pub task_id : String
  pub payload : ApprovalGrant
  pub consumed : Bool

abbrev pub Grants : Type 0
Grants = List GrantRow

abbrev pub row_key : GrantRow → String
row_key r = r.id

abbrev pub grant_row : String → Grants → Option GrantRow
grant_row id rows = find_key String_discrete row_key id rows

abbrev pub mark : GrantRow → GrantRow
mark r = record r { consumed = true }

-- What a ledger knows of an id: the grant that it has issued, and whether it has been consumed.
abbrev pub row_entry : Option GrantRow → Option (ApprovalGrant × Bool)
row_entry none = none
row_entry (some r) = some (r.payload, r.consumed)

abbrev pub sql_entry : String → Grants → Option (ApprovalGrant × Bool)
sql_entry id rows = row_entry (grant_row id rows)

abbrev pub memory_entry : String → Ledger → Option (ApprovalGrant × Bool)
memory_entry id l = map_option (λ (g : ApprovalGrant). (g, is_consumed id l)) (issued_grant id l)
