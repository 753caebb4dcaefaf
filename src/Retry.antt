-- ===== src/Retry.antt =====
-- runtime/retry.py: whether a failed attempt may be repeated, and how long to wait before it.
pub mod Laws
mod Tests
use forgeharness.Common.{
  ℕ, zero, suc, ◌-◌, ◌*◌, ◌^◌, min, Bool, ◌&&◌, ◌||◌, not, Option, none, some, ◌==◌, leb,
  if◌then◌else◌, Eq,
}
use Prim.Native.Nat.{◌/◌}
use forgeharness.Domain.{
  ToolEffectClass, non_idempotent, ToolErrorCode, timeout, transient_error, tool_execution_error,
  ToolEffectClass_eq, ToolErrorCode_eq,
}
use forgeharness.Journal.{InvocationState, failed, indeterminate}

pub data RetryDecision : Type 0 where
  retry fail uncertain : RetryDecision

unfoldable pub RetryDecision-discrete : Discrete RetryDecision
RetryDecision-discrete = hlevel

instance abbrev pub RetryDecision_eq : Eq RetryDecision
RetryDecision_eq = record { discrete = RetryDecision-discrete }

-- `RetryDecision.terminal_state`
abbrev pub terminal_state : RetryDecision → Option InvocationState
terminal_state retry = none
terminal_state fail = some failed
terminal_state uncertain = some indeterminate

-- `error_code in _TRANSIENT_CODES`
abbrev pub is_transient : ToolErrorCode → Bool
is_transient c = c == timeout

unfoldable pub decide_retry : ToolEffectClass → ToolErrorCode → ℕ → ℕ → RetryDecision
decide_retry effect_class error_code attempt_no max_attempts =
    let outcome_unknown =
      effect_class == non_idempotent
      && (is_transient error_code
          || error_code == tool_execution_error
          || error_code == transient_error) in
    if outcome_unknown
    then uncertain
    else (if not (is_transient error_code)
        then fail
        else (if leb max_attempts attempt_no then fail else retry))

-- The multiplier, a float in the source, is a fraction, and the arithmetic is exact. `none` is
-- the ValueError for an attempt number below 1.
unfoldable pub backoff_ms : ℕ → ℕ → ℕ → ℕ → ℕ → Option ℕ
backoff_ms zero initial_ms numerator denominator max_ms = none
backoff_ms (suc n) initial_ms numerator denominator max_ms =
    some (min (initial_ms * numerator ^ n / denominator ^ n) max_ms)
