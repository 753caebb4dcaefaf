-- ===== src/Retry/Tests.antt =====
-- Small runs of runtime/retry.py.
use forgeharness.Common.{◌≡◌, ◌≢◌, ◌<◌, ◌↔◌, refl, some}
use forgeharness.Domain.{
  idempotent, non_idempotent, timeout, ToolEffectClass-discrete, ToolErrorCode-discrete,
}
use forgeharness.Retry.{retry, uncertain, decide_retry, backoff_ms}
use forgeharness.Retry.Laws.{decide_retry-retry}

-- the second of three attempts
decide_retry-retry_example :
    (decide_retry idempotent timeout 2 3 ≡ retry)
    ↔ ((timeout ≡ timeout) × (idempotent ≢ non_idempotent) × (2 < 3))
decide_retry-retry_example = decide_retry-retry idempotent timeout 2 3

-- a write that is not idempotent may have run, so it is not repeated and not a plain failure
unsafe_uncertain : decide_retry non_idempotent timeout 1 3 ≡ uncertain
unfolding decide_retry ToolEffectClass-discrete ToolErrorCode-discrete
unsafe_uncertain = refl

doubled_twice : backoff_ms 3 100 2 1 1000 ≡ some 400
unfolding backoff_ms
doubled_twice = refl

capped : backoff_ms 5 100 2 1 1000 ≡ some 1000
unfolding backoff_ms
capped = refl
