-- ===== src/Domain/Values.antt =====
-- The values that the runtime, the journal and the ledgers exchange: domain/models.py,
-- tools/base.py and the budget of runtime/budget.py (all under src/forgeharness). Identifiers,
-- digests and texts are strings; a time is a number of microseconds. The limits that pydantic
-- checks when a value is built (lengths, patterns) are not part of the types. Tool arguments and
-- metadata, which may be any JSON value, are kept as their JSON text.
use Prim.Native.Nat.{ℕ}
use native.Mathlib.Decide.{ℕ_discrete}
use forgeharness.Common.{String, Bool, Option, List, Eq, String_discrete}

-- `ToolEffectClass`
pub data ToolEffectClass : Type 0 where
  read_only idempotent non_idempotent : ToolEffectClass

-- `ToolErrorCode`
pub data ToolErrorCode : Type 0 where
  path_not_found invalid_arguments timeout transient_error tool_execution_error : ToolErrorCode

pub record Usage : Type 0 where
  pub steps : ℕ
  pub tool_calls : ℕ
  pub input_tokens : ℕ
  pub output_tokens : ℕ

pub record Actor : Type 0 where
  pub id : String
  pub roles : List String

pub record ResourceScope : Type 0 where
  pub tenant_id : String
  pub resources : List String
  pub workspace : Option String

pub record RunContext : Type 0 where
  pub application_id : String
  pub application_version : String
  pub run_id : String
  pub session_id : String
  pub actor : Actor
  pub scope : ResourceScope
  pub policy_version : String
  pub correlation_id : String
  pub contract_version : ℕ

pub record BusinessReceipt : Type 0 where
  pub resource_id : String
  pub status : String
  pub version : String
  pub evidence_refs : List String
  pub schema_version : ℕ

pub record ToolFailure : Type 0 where
  pub code : ToolErrorCode
  pub message : String
  pub recoverable : Bool
  pub details : List (String × String)
  pub suggestion : Option String

pub record ToolOutput : Type 0 where
  pub is_ok : Bool
  pub content : String
  pub error : Option ToolFailure
  pub metadata : String
  pub usage : Option Usage
  pub receipt : Option BusinessReceipt

pub record ToolCall : Type 0 where
  pub id : String
  pub name : String
  pub arguments : String

unfoldable pub ToolEffectClass-discrete : Discrete ToolEffectClass
ToolEffectClass-discrete = hlevel

unfoldable pub ToolErrorCode-discrete : Discrete ToolErrorCode
ToolErrorCode-discrete = hlevel

unfoldable pub ToolCall-discrete : Discrete ToolCall
ToolCall-discrete = hlevel String_discrete

unfoldable pub Usage-discrete : Discrete Usage
Usage-discrete = hlevel ℕ_discrete

-- `RiskLevel`, and what the registry says of a tool (the fields of `ToolSpec` that decide).
pub data RiskLevel : Type 0 where
  read write process network : RiskLevel

unfoldable pub RiskLevel-discrete : Discrete RiskLevel
RiskLevel-discrete = hlevel

pub record ToolSpec : Type 0 where
  pub name : String
  pub risk : RiskLevel
  pub effect_class : ToolEffectClass
  pub timeout_ms : ℕ

-- runtime/budget.py
pub record RunBudget : Type 0 where
  pub max_steps : ℕ
  pub max_tool_calls : ℕ
  pub max_input_tokens : ℕ
  pub max_output_tokens : ℕ
  pub max_context_tokens : ℕ
  pub reserve_output_tokens : ℕ
  pub request_overhead_tokens : ℕ
  pub max_protocol_violations : ℕ
  pub max_attempts_per_call : ℕ
  pub initial_backoff_ms : ℕ
  -- the float `backoff_multiplier` as a fraction
  pub backoff_numerator : ℕ
  pub backoff_denominator : ℕ
  pub max_backoff_ms : ℕ
  pub max_wall_ms : Option ℕ
  pub tool_timeout_ms : ℕ
  pub max_planner_retries : ℕ

pub record ExecutionAllowance : Type 0 where
  pub remaining_steps : ℕ
  pub remaining_tool_calls : ℕ
  pub remaining_input_tokens : ℕ
  pub remaining_output_tokens : ℕ

pub record ToolContext : Type 0 where
  pub task_id : String
  pub workspace : Option String
  pub run_context : Option RunContext
  pub attempt_id : Option String
  pub allowance : ExecutionAllowance
  pub logical_call_id : Option String
  pub idempotency_key : Option String

instance abbrev pub RiskLevel_eq : Eq RiskLevel
RiskLevel_eq = record { discrete = RiskLevel-discrete }

instance abbrev pub ToolEffectClass_eq : Eq ToolEffectClass
ToolEffectClass_eq = record { discrete = ToolEffectClass-discrete }

instance abbrev pub ToolErrorCode_eq : Eq ToolErrorCode
ToolErrorCode_eq = record { discrete = ToolErrorCode-discrete }

unfoldable pub RunContext-discrete : Discrete RunContext
RunContext-discrete = hlevel (String_discrete, ℕ_discrete)

instance abbrev pub ToolCall_eq : Eq ToolCall
ToolCall_eq = record { discrete = ToolCall-discrete }

instance abbrev pub Usage_eq : Eq Usage
Usage_eq = record { discrete = Usage-discrete }
