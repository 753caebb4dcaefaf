-- ===== src/Executor/Bounds.antt =====
-- How often the tool of one logical call is dispatched, and that the loop of attempts ends
-- (runtime/tool_executor.py).
use forgeharness.Common.{
  ℕ, zero, suc, ◌+◌, ◌-◌, ◌≤◌, ◌≡◌, ◌≢◌, refl, Bool, true, false, Option, none, some, arith, Result,
  ok, raise, continue, pure, throw, max_by, ltb, String, ◌<◌, ◌>>◌, guard, Bool-cases, inl, inr,
}
use forgeharness.Domain.{
  non_idempotent, ToolOutput, ToolCall, Usage, Error, hook_failed, attempts_exhausted,
  out_of_rounds,
}
use forgeharness.Journal.{
  AttemptRecord, start_attempt, claim, mark_started, InvocationRecord, error_code_of,
}
use forgeharness.Retry.{RetryDecision, retry, fail, uncertain}
use forgeharness.Retry.Laws.{decide_retry-retry}
use forgeharness.Executor.Setting
use forgeharness.Executor.Setting.{
  Executor, Event, World, Run, on_journal, emit, settling, attempt_ends,
}
use forgeharness.Executor.Attempt
use forgeharness.Executor.Attempt.{
  Job, failure_code, emit_backoff, begin_attempt, finish, perform, settle_call, decision_for,
  settle_unless_retry, conclude_ok, conclude_failed, conclude, round, attempts_from, run_attempts,
}
use forgeharness.Executor.Calls.{
  effect_of, call_subject, invocation_id_for, new_record, job_for, dispatch_journalled, dispatch,
  answer,
}
use forgeharness.Executor.Termination.{GoesOn, round-GoesOn}
use forgeharness.Executor.Adding.{
  Adds, Adds-bind, Adds-emit, Adds-guard, Adds-if, Adds-on_journal, Adds-pure, Adds-throw,
  Adds-weaken, dispatches, is_dispatch,
}

module _ (x : Executor) (job : Job) where
  emit_backoff-Adds : (n delay : ℕ) → Adds 0 (emit_backoff x job n delay)
  unfolding emit_backoff is_dispatch
  emit_backoff-Adds n zero = Adds-pure tt
  emit_backoff-Adds n (suc delay) = Adds-emit (Setting.retry_backoff _ n (suc delay))

  begin_attempt-Adds : (n : ℕ) → Adds 1 (begin_attempt x job n)
  unfolding begin_attempt is_dispatch
  begin_attempt-Adds n =
      Adds-bind 0 1 1 (omega arith) _ _ (emit_backoff-Adds n (Attempt.delay_before x job n)) λ _.
        Adds-bind 0 1 1 (omega arith) _ _ (Adds-guard (x.before_attempt n) hook_failed) λ _.
          Adds-bind 0 1 1 (omega arith) _ _
            (Adds-on_journal (start_attempt (Attempt.attempt_record x job n)))
            λ _.
              Adds-emit (
                Setting.attempt_started (Attempt.subject x job) n (Attempt.effective_timeout x job))

  finish-Adds : (n : ℕ) (o : Option ToolOutput) → Adds 0 (finish x job n o)
  unfolding finish
  finish-Adds n none = Adds-throw _
  finish-Adds n (some o) = Adds-bind 0 0 0 (omega arith) _ _ (Adds-on_journal _) λ _. Adds-pure o

  perform-Adds : (n : ℕ) → Adds 0 (perform x job n)
  unfolding perform
  perform-Adds n = finish-Adds n (x.dispatch job.call (Attempt.attempt_context x job n))

  settle_call-Adds :
      (o : ToolOutput) (n : ℕ) (d : Option RetryDecision) → Adds 0 (settle_call x job o n d)
  unfolding settle_call is_dispatch
  settle_call-Adds o n d =
      Adds-bind 0 0 0 (omega arith) _ _ (Adds-on_journal _)
        λ rec. Adds-emit (Setting.invocation_settled _ rec.state n rec.error_code)

  settle_unless_retry-Adds :
      (o : ToolOutput) (n : ℕ) (d : RetryDecision) → Adds 0 (settle_unless_retry x job o n d)
  unfolding settle_unless_retry
  settle_unless_retry-Adds o n retry = Adds-pure none
  settle_unless_retry-Adds o n fail =
      Adds-bind 0 0 0 (omega arith) _ _ (settle_call-Adds o n (some fail)) λ _. Adds-pure (some o)
  settle_unless_retry-Adds o n uncertain =
      Adds-bind 0 0 0 (omega arith) _ _ (settle_call-Adds o n (some uncertain))
        λ _. Adds-pure (some o)

  conclude_ok-Adds : (n : ℕ) (o : ToolOutput) → Adds 0 (conclude_ok x job n o)
  unfolding conclude_ok is_dispatch
  conclude_ok-Adds n o =
      Adds-bind 0 0 0 (omega arith) _ _ (Adds-emit (Setting.attempt_completed _ n))
        λ _. Adds-bind 0 0 0 (omega arith) _ _ (settle_call-Adds o n none) λ _. Adds-pure (some o)

  conclude_failed-Adds : (n : ℕ) (o : ToolOutput) → Adds 0 (conclude_failed x job n o)
  unfolding conclude_failed is_dispatch
  conclude_failed-Adds n o =
      Adds-bind 0 0 0 (omega arith) _ _ (Adds-emit (Setting.attempt_failed _ n _)) λ _.
        Adds-bind 0 0 0 (omega arith) _ _
          (Adds-emit (
            Setting.retry_decided (Attempt.subject x job) n (error_code_of o)
              (decision_for x job o n) x.budget.max_attempts_per_call))
          λ _. settle_unless_retry-Adds o n (decision_for x job o n)

  conclude-Adds : (n : ℕ) (o : ToolOutput) → Adds 0 (conclude x job n o)
  unfolding conclude
  conclude-Adds n o =
      Adds-if o.is_ok (conclude_ok x job n o) (conclude_failed x job n o) (conclude_ok-Adds n o)
        (conclude_failed-Adds n o)

  round-Adds : (n : ℕ) → Adds 1 (round x job n)
  unfolding round
  round-Adds n =
      Adds-bind 1 0 1 (omega arith) _ _ (begin_attempt-Adds n)
        λ _. Adds-bind 0 0 0 (omega arith) _ _ (perform-Adds n) λ o. conclude-Adds n o

  after_round-Adds :
      (n t : ℕ) (m : Run ToolOutput) (r : Result Error (Option ToolOutput)) (w : World)
      → GoesOn x job n r
      → n ≤ x.budget.max_attempts_per_call
      → (n < x.budget.max_attempts_per_call → Adds (x.budget.max_attempts_per_call - n) m)
      → dispatches w.trace ≤ t + 1
      → dispatches
          (continue r
            (λ (result : Option ToolOutput). elim result [ some o ↦ pure o | none ↦ m ])
            w).1.trace
        ≤ t + suc (x.budget.max_attempts_per_call - n)
  after_round-Adds n t m (ok none) w g le h b = omega (arith, (h g).at w)
  after_round-Adds n t m (ok (some o)) w g le h b = omega arith
  after_round-Adds n t m (raise e) w g le h b = omega arith

  -- Each further round is one that the retry decision allowed below the limit on the attempts.
  attempts_from-Adds :
      (rounds n : ℕ)
      → n < x.budget.max_attempts_per_call
      → Adds (x.budget.max_attempts_per_call - n) (attempts_from x job rounds n)
  unfolding attempts_from
  attempts_from-Adds zero n lt = Adds-weaken _ (omega arith) (Adds-throw out_of_rounds)
  attempts_from-Adds (suc rounds) n lt = record {
    at = λ w. omega (
      arith,
      after_round-Adds (suc n) (dispatches w.trace) (attempts_from x job rounds (suc n))
          (round x job (suc n) w).0 (round x job (suc n) w).1 (round-GoesOn x job (suc n) w) lt
          (attempts_from-Adds rounds (suc n)) ((round-Adds (suc n)).at w),
    );
  }

  from_last-Adds :
      (last : ℕ)
      → Adds x.budget.max_attempts_per_call (
          guard (ltb last x.budget.max_attempts_per_call) attempts_exhausted
          >> attempts_from x job (suc x.budget.max_attempts_per_call) last)
  from_last-Adds last = elim (Bool-cases (ltb last x.budget.max_attempts_per_call)) [
    | inl e ↦ rw e (
        Adds-weaken _ (omega arith)
          (attempts_from-Adds (suc x.budget.max_attempts_per_call) last (ground arith)))
    | inr e ↦ rw e (Adds-weaken _ (omega arith) (Adds-throw attempts_exhausted))
  ]

  pub run_attempts-Adds : Adds x.budget.max_attempts_per_call (run_attempts x job)
  unfolding run_attempts
  run_attempts-Adds =
      Adds-bind 0 x.budget.max_attempts_per_call x.budget.max_attempts_per_call (omega arith) _ _
        (Adds-on_journal _)
        λ existing. from_last-Adds (max_by (λ (a : AttemptRecord). a.attempt_no) existing)

  module _ (unsafe : job.effect_class ≡ non_idempotent) where
    conclude_ends : (n : ℕ) (o : ToolOutput) (w : World) → (conclude x job n o w).0 ≢ ok none
    unfolding conclude conclude_ok conclude_failed settle_unless_retry
    conclude_ends n o w = ground (
      arith,
      decide_retry-retry job.effect_class (failure_code o) n x.budget.max_attempts_per_call,
    )

    bind-ne :
        {A : Type 0} (r : Result Error A) (f : A → Run (Option ToolOutput))
        → ((a : A) (w : World) → (f a w).0 ≢ ok none)
        → (w : World) → (continue r f w).0 ≢ ok none
    bind-ne (ok a) f h w = h a w
    bind-ne (raise e) f h w = λ p. cc

    round_ends : (n : ℕ) (w : World) → (round x job n w).0 ≢ ok none
    unfolding round
    round_ends n w =
        bind-ne (begin_attempt x job n w).0 _
          (λ _ w1. bind-ne (perform x job n w1).0 _ (conclude_ends n) (perform x job n w1).1)
          (begin_attempt x job n w).1

    no_second_round :
        (m : Run ToolOutput) (r : Result Error (Option ToolOutput)) (w : World)
        → r ≢ ok none
        → dispatches
            (continue r
              (λ (result : Option ToolOutput). elim result [ some o ↦ pure o | none ↦ m ])
              w).1.trace
          ≡ dispatches w.trace
    no_second_round m (ok none) w h = absurd (h refl)
    no_second_round m (ok (some o)) w h = refl
    no_second_round m (raise e) w h = refl

    attempts_from-once : (rounds n : ℕ) → Adds 1 (attempts_from x job rounds n)
    unfolding attempts_from
    attempts_from-once zero n =
        Adds-weaken (throw out_of_rounds) (omega arith) (Adds-throw out_of_rounds)
    attempts_from-once (suc rounds) n = record {
      at = λ w. omega (
        arith,
        (round-Adds (suc n)).at w,
        no_second_round (attempts_from x job rounds (suc n)) (round x job (suc n) w).0
            (round x job (suc n) w).1 (round_ends (suc n) w),
      );
    }

    run_attempts-once : Adds 1 (run_attempts x job)
    unfolding run_attempts
    run_attempts-once = Adds-bind 0 1 1 (omega arith) _ _ (Adds-on_journal _) λ existing.
        let last = max_by (λ (a : AttemptRecord). a.attempt_no) existing in
        Adds-bind 0 1 1 (omega arith) _ _
          (Adds-guard (ltb last x.budget.max_attempts_per_call) attempts_exhausted)
          λ _. attempts_from-once (suc x.budget.max_attempts_per_call) last

module _ (x : Executor) (task_id : String) (call : ToolCall) (workspace : Option String)
    (usage : Usage) (revision : ℕ) where
  around_attempts :
      (k : ℕ)
      → ((started : InvocationRecord)
          → Adds k (run_attempts x (job_for x task_id call workspace usage revision started)))
      → Adds k (dispatch_journalled x task_id call workspace usage revision)
  unfolding dispatch_journalled is_dispatch
  around_attempts k h =
      Adds-bind 0 k k (omega arith) _ _
        (Adds-on_journal (claim (new_record x task_id call revision)))
        λ _.
          Adds-bind 0 k k (omega arith) _ _
            (Adds-emit (Setting.invocation_claimed (call_subject x task_id call)))
            λ _.
              Adds-bind 0 k k (omega arith) _ _
                (Adds-on_journal (
                  mark_started x.codec (x.clock Setting.starting)
                    (invocation_id_for task_id call.id) revision))
                λ started.
                  Adds-bind 0 k k (omega arith) _ _
                    (Adds-emit (
                      Setting.invocation_started (call_subject x task_id call)
                        started.attempt_count))
                    λ _. h started

  -- However a journalled call ends, its tool has been dispatched at most as often as the budget
  -- allows attempts.
  pub dispatches-le-budget :
      (w : World)
      → dispatches (dispatch_journalled x task_id call workspace usage revision w).1.trace
        ≤ dispatches w.trace + x.budget.max_attempts_per_call
  dispatches-le-budget =
      (around_attempts x.budget.max_attempts_per_call (λ started. run_attempts-Adds x _)).at

  -- However a journalled call of a tool that is not idempotent ends, the tool has been dispatched
  -- at most once.
  pub dispatches-once :
      effect_of x call ≡ non_idempotent
      → (w : World)
      → dispatches (dispatch_journalled x task_id call workspace usage revision w).1.trace
        ≤ dispatches w.trace + 1
  dispatches-once unsafe = (around_attempts 1 (λ started. run_attempts-once x _ unsafe)).at

  -- The same for a call by `dispatch`, with a journal or without one.
  pub dispatch-le-budget :
      (has_journal : Bool) (w : World)
      → dispatches (dispatch x has_journal task_id call workspace usage revision none w).1.trace
        ≤ dispatches w.trace + x.budget.max_attempts_per_call
  unfolding dispatch
  dispatch-le-budget true w = dispatches-le-budget w
  dispatch-le-budget false w = answered (x.dispatch call _) w
    where
      answered :
          (o : Option ToolOutput) (w : World)
          → dispatches (answer x o w).1.trace ≤ dispatches w.trace + x.budget.max_attempts_per_call
      answered none w = omega arith
      answered (some o) w = omega arith
