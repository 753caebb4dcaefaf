-- ===== src/Retry/Laws.antt =====
-- The retry rule of runtime/retry.py against its documented table.
use forgeharness.Common.{ℕ, ◌<◌, ◌≡◌, ◌≢◌, ◌↔◌, arith}
use forgeharness.Domain.{ToolEffectClass, non_idempotent, ToolErrorCode, timeout}
use forgeharness.Retry.{retry, decide_retry}

-- A failed attempt is repeated exactly when it timed out, the effect is safe to repeat, and
-- attempts are left.
pub decide_retry-retry :
    (effect : ToolEffectClass) (code : ToolErrorCode) (n limit : ℕ)
    → (decide_retry effect code n limit ≡ retry)
      ↔ ((code ≡ timeout) × (effect ≢ non_idempotent) × (n < limit))
unfolding decide_retry
decide_retry-retry effect code n limit = (λ h. ground arith, λ h. ground arith)
