-- ===== src/Orchestration/Records.antt =====
-- The values of state/orchestration.py, the tables orchestration_runs and orchestration_outbox
-- beside those of the grants and the checkpoints, and what its methods raise. The fields that can
-- hold one literal only (schema_version, definition_version) are left out; times are numbers of
-- microseconds, and a node's output is its JSON text.
use forgeharness.Common.{
  ℕ, String, Bool, ◌&&◌, ◌||◌, Option, List, Action, ◌==◌, Eq, ℕ_eq, String_discrete,
}
use native.Mathlib.Decide.{ℕ_discrete}
use forgeharness.Domain.{
  RunResult, RunStatus, succeeded, run_failed, exhausted, cancelled, RunStatus_eq, Usage, ToolCall,
}
use forgeharness.Table.{find_key}
use forgeharness.Checkpoint.{CheckpointConflict, Checkpoints}
use forgeharness.Approval.{ApprovalGrant, ApprovalError, Digest, Grants}

pub data NodeStatus : Type 0 where
  pending awaiting_approval admitted unknown completed failed node_cancelled : NodeStatus

pub data DispatchPhase : Type 0 where
  not_started queued reserved sending dispatch_unknown settled : DispatchPhase

pub record NodeProgress : Type 0 where
  pub id : String
  pub status : NodeStatus
  pub input_digest : Option String
  pub output : Option String
  pub used : Usage
  pub reservation : Usage
  pub grant : Option ApprovalGrant
  pub error : Option String
  pub evidence_refs : List String
  pub invocation_id : Option String
  pub dispatch_phase : DispatchPhase
  pub prepared_payload_sha256 : Option String
  pub sent_at : Option ℕ
  pub queued_at : Option ℕ
  pub capacity_granted_at : Option ℕ
  pub completed_at : Option ℕ

pub record OrchestrationState : Type 0 where
  pub identity : String
  pub owner : String
  pub revision : ℕ
  pub started_at : ℕ
  pub observed_at : ℕ
  pub deadline : Option ℕ
  pub cancel_requested : Bool
  pub nodes : List NodeProgress
  pub result : RunResult

unfoldable pub NodeStatus-discrete : Discrete NodeStatus
NodeStatus-discrete = hlevel

instance abbrev pub NodeStatus_eq : Eq NodeStatus
NodeStatus_eq = record { discrete = NodeStatus-discrete }

-- `R2_RECOVERY_VERSION`
abbrev pub recovery_version : ℕ
recovery_version = 5

-- `current_projection`, which pydantic runs on what it parses
abbrev pub is_current : OrchestrationState → Bool
is_current s =
    s.result.state_version == 2 && s.result.recovery_semantics_version == recovery_version

-- `status in TERMINAL`
abbrev pub is_terminal : RunStatus → Bool
is_terminal s = s == succeeded || s == run_failed || s == exhausted || s == cancelled

pub record RunRow : Type 0 where
  pub task_id : String
  pub owner : String
  pub revision : ℕ
  pub cancel_requested : Bool
  pub payload : OrchestrationState

-- The payload column is the JSON of the event and the status.
pub record OutboxRow : Type 0 where
  pub task_id : String
  pub revision : ℕ
  pub event : String
  pub status : RunStatus
  pub published : Bool

pub record OrchestrationDb : Type 0 where
  pub grants : Grants
  pub checkpoints : Checkpoints
  pub runs : List RunRow
  pub outbox : List OutboxRow

pub data OrchestrationError : Type 0 where
  create_conflict owner_changed stale_owner terminal_immutable identity_immutable :
      OrchestrationError
  ledger_missing not_one_admitted node_missing action_changed : OrchestrationError
  invalid_call invalid_projection run_missing duplicate_event : OrchestrationError
  approval_error : ApprovalError → OrchestrationError
  checkpoint_error : CheckpointConflict → OrchestrationError

abbrev pub Exec : Type 0 → Type 0
Exec A = Action OrchestrationDb OrchestrationError A

-- The shared approval ledger that a save is given: its file and its binding.
pub record SharedLedger : Type 0 where
  pub path : String
  pub binding : String

-- What is not the program's own: the digest of approvals, and pydantic reading a tool call from
-- the JSON of a node's output.
pub record Parsers : Type 0 where
  pub digest : Digest
  pub parse_call : Option String → Option ToolCall

abbrev pub run_key : RunRow → String
run_key r = r.task_id

abbrev pub run_of : String → OrchestrationDb → Option RunRow
run_of task db = find_key String_discrete run_key task db.runs

-- the primary key of the outbox
abbrev pub event_key : OutboxRow → String × ℕ
event_key e = (e.task_id, e.revision)

unfoldable pub event_key-discrete : Discrete (String × ℕ)
event_key-discrete = hlevel (String_discrete, ℕ_discrete)

abbrev pub event_of : String → ℕ → OrchestrationDb → Option OutboxRow
event_of task revision db = find_key event_key-discrete event_key (task, revision) db.outbox
