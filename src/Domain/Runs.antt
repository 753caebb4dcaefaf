-- ===== src/Domain/Runs.antt =====
-- The snapshot of a run and its parts (domain/models.py). Message and evidence metadata are kept
-- as JSON texts.
use native.Mathlib.Decide.{ℕ_discrete}
use forgeharness.Common.{ℕ, String, Bool, Option, List, Eq, String_discrete}
use forgeharness.Domain.Values.{ToolCall, Usage, RunContext, BusinessReceipt}

pub data MessageRole : Type 0 where
  system user assistant tool : MessageRole

pub data RunStatus : Type 0 where
  created running awaiting_approval succeeded run_failed exhausted cancelled : RunStatus

unfoldable pub RunStatus-discrete : Discrete RunStatus
RunStatus-discrete = hlevel

pub record Message : Type 0 where
  pub role : MessageRole
  pub content : Option String
  pub tool_calls : List ToolCall
  pub tool_call_id : Option String
  pub tool_name : Option String

pub record PendingApproval : Type 0 where
  pub call : ToolCall
  pub reason : String

pub record ToolEvidence : Type 0 where
  pub name : String
  pub is_ok : Bool
  pub content : String
  pub metadata : String
  pub logical_call_id : Option String
  pub receipt : Option BusinessReceipt

pub record RunResult : Type 0 where
  pub task_id : String
  pub status : RunStatus
  pub messages : List Message
  pub usage : Usage
  pub checkpoint_revision : ℕ
  pub final_output : Option String
  pub error : Option String
  pub pending_approval : Option PendingApproval
  pub recovery_semantics_version : ℕ
  pub state_version : ℕ
  pub run_context : Option RunContext
  pub tool_evidence : List ToolEvidence
  pub authorized_call_id : Option String

unfoldable pub Messages-discrete : Discrete (List Message)
Messages-discrete = hlevel String_discrete

unfoldable pub Evidence-discrete : Discrete (List ToolEvidence)
Evidence-discrete = hlevel (String_discrete, ℕ_discrete)

unfoldable pub Context-discrete : Discrete (Option RunContext)
Context-discrete = hlevel (String_discrete, ℕ_discrete)

unfoldable pub Identifier-discrete : Discrete (Option String)
Identifier-discrete = hlevel String_discrete

instance abbrev pub RunStatus_eq : Eq RunStatus
RunStatus_eq = record { discrete = RunStatus-discrete }

instance abbrev pub Messages_eq : Eq (List Message)
Messages_eq = record { discrete = Messages-discrete }

instance abbrev pub Evidence_eq : Eq (List ToolEvidence)
Evidence_eq = record { discrete = Evidence-discrete }

instance abbrev pub Context_eq : Eq (Option RunContext)
Context_eq = record { discrete = Context-discrete }

instance abbrev pub Identifier_eq : Eq (Option String)
Identifier_eq = record { discrete = Identifier-discrete }
