-- ===== src/Journal/Records.antt =====
-- The records of state/invocation_journal.py and its pure decisions.
use forgeharness.Common.{ℕ, String, Bool, not, ◌&&◌, ◌||◌, Option, Eq, ◌==◌, if◌then◌else◌}
use forgeharness.Domain.{
  ToolEffectClass, read_only, idempotent, ToolEffectClass_eq, ToolErrorCode, ToolOutput, Usage,
}

pub data InvocationState : Type 0 where
  claimed started completed failed indeterminate : InvocationState

unfoldable pub InvocationState-discrete : Discrete InvocationState
InvocationState-discrete = hlevel

instance abbrev pub InvocationState_eq : Eq InvocationState
InvocationState_eq = record { discrete = InvocationState-discrete }

-- `InvocationState.terminal`
abbrev pub terminal : InvocationState → Bool
terminal s = not (s == claimed) && not (s == started)

pub data RecoveryDecision : Type 0 where
  execute reuse_result replay_read_only replay_idempotent refuse_replay : RecoveryDecision

unfoldable pub RecoveryDecision-discrete : Discrete RecoveryDecision
RecoveryDecision-discrete = hlevel

instance abbrev pub RecoveryDecision_eq : Eq RecoveryDecision
RecoveryDecision_eq = record { discrete = RecoveryDecision-discrete }

abbrev pub journal_version : ℕ
journal_version = 1

abbrev pub max_journaled_result_bytes : ℕ
max_journaled_result_bytes = 2000000

pub record InvocationRecord : Type 0 where
  pub invocation_id : String
  pub run_id : String
  pub logical_call_id : String
  pub tool_name : String
  pub effect_class : ToolEffectClass
  pub args_digest : String
  pub idempotency_key : String
  pub state : InvocationState
  pub attempt_count : ℕ
  pub claimed_at : ℕ
  pub started_at : Option ℕ
  pub finished_at : Option ℕ
  pub result : Option ToolOutput
  pub result_digest : Option String
  pub result_size_bytes : ℕ
  pub result_storage_kind : String
  pub error_code : Option ToolErrorCode
  pub checkpoint_revision : ℕ
  pub recovery_decision : Option RecoveryDecision
  pub version : ℕ

pub data AttemptOutcome : Type 0 where
  attempt_completed attempt_failed timed_out : AttemptOutcome

pub record AttemptRecord : Type 0 where
  pub attempt_id : String
  pub invocation_id : String
  pub attempt_no : ℕ
  pub started_at : ℕ
  pub finished_at : Option ℕ
  pub outcome : Option AttemptOutcome
  pub error_code : Option ToolErrorCode
  pub timeout_ms : ℕ
  pub backoff_before_ms : ℕ
  pub usage : Option Usage

-- The chain of `if`s in `decide_recovery`.
unfoldable pub decide_recovery : InvocationRecord → RecoveryDecision
decide_recovery r =
    if r.state == completed
    then reuse_result
    else (if r.state == indeterminate
        then refuse_replay
        else (if r.state == failed
            then refuse_replay
            else (if r.state == claimed
                then execute
                else (if r.effect_class == read_only
                    then replay_read_only
                    else (if r.effect_class == idempotent
                        then replay_idempotent
                        else refuse_replay)))))

unfoldable pub terminal_state_for_failure : ToolEffectClass → Bool → InvocationState
terminal_state_for_failure effect_class execution_attempted =
    if not execution_attempted
    then failed
    else (if effect_class == read_only || effect_class == idempotent then failed else indeterminate)
