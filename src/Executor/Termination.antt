-- ===== src/Executor/Termination.antt =====
-- The `while True` of `_run_attempts` (runtime/tool_executor.py) goes on only while the budget leaves
-- attempts, so it ends by its own exits.
use forgeharness.Common.{
  ℕ, zero, suc, String, Bool-cases, inl, inr, sym, ◌+◌, ◌<◌, ◌≤◌, ◌≡◌, ◌≢◌, refl, Bool, true, false,
  Option, none, some, arith, Result, ok, raise, Action, continue, ◌>>=◌, ◌>>◌, pure, guard, ltb,
  max_by, if◌then◌else◌,
}
use forgeharness.Domain.{ToolOutput, Error, hook_failed, attempts_exhausted, out_of_rounds}
use forgeharness.Journal.{
  Exec, AttemptRecord, InvocationRecord, attempts_for, start_attempt, finish_attempt, settle,
  update_one,
}
use forgeharness.Retry.{RetryDecision, retry, fail, uncertain}
use forgeharness.Retry.Laws.{decide_retry-retry}
use forgeharness.Executor.Setting
use forgeharness.Executor.Setting.{Executor, Event, World, Run, on_journal, emit}
use forgeharness.Executor.Attempt
use forgeharness.Executor.Attempt.{
  Job, failure_code, emit_backoff, begin_attempt, finish, perform, settle_call, decision_for,
  settle_unless_retry, conclude_ok, conclude_failed, conclude, round, attempts_from, run_attempts,
}

-- An action that does not raise `out_of_rounds`.
record InBounds {S A : Type 0} (m : Action S Error A) : Type 0 where
  at : (s : S) → (m s).0 ≢ raise out_of_rounds

module _ {S A : Type 0} where
  InBounds-pure : (a : A) → InBounds (pure {S = S} {E = Error} a)
  InBounds-pure a = record { at = λ s p. cc }

module _ {S A B : Type 0} where
  continue-ne :
      (r : Result Error A) (f : A → Action S Error B)
      → ((a : A) → InBounds (f a))
      → r ≢ raise out_of_rounds
      → (s : S) → (continue r f s).0 ≢ raise out_of_rounds
  continue-ne (ok a) f h n s = (h a).at s
  continue-ne (raise e) f h n s = λ p. n (ground arith)

  InBounds-bind :
      (m : Action S Error A) (f : A → Action S Error B)
      → InBounds m
      → ((a : A) → InBounds (f a))
      → InBounds (m >>= f)
  InBounds-bind m f km kf = record { at = λ s. continue-ne (m s).0 f kf (km.at s) (m s).1 }

InBounds-guard :
    {S : Type 0} (b : Bool) (e : Error) → e ≢ out_of_rounds → InBounds (guard {S = S} b e)
InBounds-guard true e h = record { at = λ s p. cc }
InBounds-guard false e h = record { at = λ s p. h (ground arith) }

InBounds-emit : (e : Event) → InBounds (emit e)
InBounds-emit e = record { at = λ w p. cc }

InBounds-on_journal : {A : Type 0} (m : Exec A) → InBounds m → InBounds (on_journal m)
InBounds-on_journal m k = record { at = λ w. k.at w.db }

start_attempt-InBounds : (a : AttemptRecord) → InBounds (start_attempt a)
unfolding start_attempt
start_attempt-InBounds a = record { at = λ db p. ground arith }

finish_attempt-InBounds : (now : ℕ) (a : AttemptRecord) → InBounds (finish_attempt now a)
unfolding finish_attempt
finish_attempt-InBounds now a = record { at = λ db p. ground arith }

attempts_for-InBounds : (id : String) → InBounds (attempts_for id)
unfolding attempts_for
attempts_for-InBounds id = record { at = λ db p. cc }

module _ (x : Executor) (job : Job) where
  settle-InBounds : (now : ℕ) (rec : InvocationRecord) → InBounds (settle x.codec now rec)
  unfolding settle update_one
  settle-InBounds now rec = record { at = λ db p. ground arith }

  emit_backoff-InBounds : (n delay : ℕ) → InBounds (emit_backoff x job n delay)
  unfolding emit_backoff
  emit_backoff-InBounds n zero = InBounds-pure tt
  emit_backoff-InBounds n (suc delay) = InBounds-emit _

  begin_attempt-InBounds : (n : ℕ) → InBounds (begin_attempt x job n)
  unfolding begin_attempt
  begin_attempt-InBounds n =
      InBounds-bind _ _ (emit_backoff-InBounds n (Attempt.delay_before x job n)) λ _.
        InBounds-bind _ _ (InBounds-guard (x.before_attempt n) hook_failed (λ p. cc)) λ _.
          InBounds-bind _ _
            (InBounds-on_journal _ (start_attempt-InBounds (Attempt.attempt_record x job n)))
            λ _.
              InBounds-emit (
                Setting.attempt_started (Attempt.subject x job) n (Attempt.effective_timeout x job))

  finish-InBounds : (n : ℕ) (o : Option ToolOutput) → InBounds (finish x job n o)
  unfolding finish
  finish-InBounds n none = record { at = λ w p. cc }
  finish-InBounds n (some o) =
      InBounds-bind _ _
        (InBounds-on_journal _ (
          finish_attempt-InBounds (x.clock (Setting.attempt_ends n))
            (Attempt.finished_attempt x job n o)))
        λ _. InBounds-pure o

  settle_call-InBounds :
      (o : ToolOutput) (n : ℕ) (d : Option RetryDecision) → InBounds (settle_call x job o n d)
  unfolding settle_call
  settle_call-InBounds o n d =
      InBounds-bind _ _
        (InBounds-on_journal _
          (settle-InBounds (x.clock Setting.settling) (Attempt.settled_record x job o n d)))
        λ rec.
          InBounds-emit
            (Setting.invocation_settled (Attempt.subject x job) rec.state n rec.error_code)

  -- A round returns nothing only while attempts are left.
  abbrev pub GoesOn : ℕ → Result Error (Option ToolOutput) → Type 0
  GoesOn n (ok none) = n < x.budget.max_attempts_per_call
  GoesOn n (ok (some o)) = Unit
  GoesOn n (raise e) = e ≢ out_of_rounds

  settled-GoesOn :
      (n : ℕ) (o : ToolOutput) (r : Result Error (Unit {0})) (w : World)
      → r ≢ raise out_of_rounds
      → GoesOn n (continue r (λ _. pure (some o)) w).0
  settled-GoesOn n o (ok a) w h = tt
  settled-GoesOn n o (raise e) w h = λ p. h (ground arith)

  settle_unless_retry-GoesOn :
      (n : ℕ) (o : ToolOutput) (d : RetryDecision) (w : World)
      → d ≡ decision_for x job o n
      → GoesOn n (settle_unless_retry x job o n d w).0
  unfolding settle_unless_retry
  settle_unless_retry-GoesOn n o retry w e =
      ((decide_retry-retry job.effect_class (failure_code o) n x.budget.max_attempts_per_call).0
        (sym e)).2
  settle_unless_retry-GoesOn n o fail w e =
      settled-GoesOn n o (settle_call x job o n (some fail) w).0 _
        ((settle_call-InBounds o n (some fail)).at w)
  settle_unless_retry-GoesOn n o uncertain w e =
      settled-GoesOn n o (settle_call x job o n (some uncertain) w).0 _
        ((settle_call-InBounds o n (some uncertain)).at w)

  conclude-GoesOn : (n : ℕ) (o : ToolOutput) (w : World) → GoesOn n (conclude x job n o w).0
  unfolding conclude conclude_ok conclude_failed
  conclude-GoesOn n o w =
      elim o.is_ok
        as (λ b.
          let m : Run (Option ToolOutput) =
            if b then conclude_ok x job n o else conclude_failed x job n o in
          GoesOn n (m w).0) [
            | true ↦
                settled-GoesOn n o (settle_call x job o n none _).0 _
                  ((settle_call-InBounds o n none).at _)
            | false ↦ settle_unless_retry-GoesOn n o (decision_for x job o n) _ refl
          ]

  bind-GoesOn :
      {A : Type 0} (n : ℕ) (r : Result Error A) (f : A → Run (Option ToolOutput)) (w : World)
      → r ≢ raise out_of_rounds
      → ((a : A) → GoesOn n (f a w).0)
      → GoesOn n (continue r f w).0
  bind-GoesOn n (ok a) f w h g = g a
  bind-GoesOn n (raise e) f w h g = λ p. h (ground arith)

  pub round-GoesOn : (n : ℕ) (w : World) → GoesOn n (round x job n w).0
  unfolding round perform
  round-GoesOn n w =
      bind-GoesOn n (begin_attempt x job n w).0 _ (begin_attempt x job n w).1
        ((begin_attempt-InBounds n).at w)
        λ _.
          let w1 = (begin_attempt x job n w).1 in
          bind-GoesOn n (perform x job n w1).0 _ (perform x job n w1).1
            ((finish-InBounds n (x.dispatch job.call (Attempt.attempt_context x job n))).at w1)
            (λ o. conclude-GoesOn n o (perform x job n w1).1)

  after_round-InBounds :
      (n : ℕ) (m : Run ToolOutput) (r : Result Error (Option ToolOutput)) (w : World)
      → GoesOn n r
      → (n < x.budget.max_attempts_per_call → InBounds m)
      → (continue r
          (λ (result : Option ToolOutput). elim result [ some o ↦ pure o | none ↦ m ])
          w).0
        ≢ raise out_of_rounds
  after_round-InBounds n m (ok none) w g h = (h g).at w
  after_round-InBounds n m (ok (some o)) w g h = λ p. cc
  after_round-InBounds n m (raise e) w g h = λ p. g (ground arith)

  attempts_from-InBounds :
      (rounds n : ℕ)
      → n < x.budget.max_attempts_per_call
      → x.budget.max_attempts_per_call ≤ n + rounds
      → InBounds (attempts_from x job rounds n)
  unfolding attempts_from
  attempts_from-InBounds zero n h e = absurd (omega arith)
  attempts_from-InBounds (suc rounds) n h e = record {
    at = λ w.
        after_round-InBounds (suc n) (attempts_from x job rounds (suc n)) (round x job (suc n) w).0
          (round x job (suc n) w).1 (round-GoesOn (suc n) w)
          (λ lt. attempts_from-InBounds rounds (suc n) lt (omega arith));
  }

  from_last-InBounds :
      (last : ℕ)
      → InBounds (
          guard (ltb last x.budget.max_attempts_per_call) attempts_exhausted
          >> attempts_from x job (suc x.budget.max_attempts_per_call) last)
  from_last-InBounds last = elim (Bool-cases (ltb last x.budget.max_attempts_per_call)) [
    | inl e ↦ rw e (
        InBounds-bind _ _ (InBounds-guard true attempts_exhausted (λ p. cc)) λ _.
          attempts_from-InBounds (suc x.budget.max_attempts_per_call) last (ground arith)
            (omega arith))
    | inr e ↦ rw e (record { at = λ w p. cc })
  ]

  run_attempts-InBounds : InBounds (run_attempts x job)
  unfolding run_attempts
  run_attempts-InBounds =
      InBounds-bind _ _ (InBounds-on_journal _ (attempts_for-InBounds job.invocation.invocation_id))
        λ existing. from_last-InBounds (max_by (λ (a : AttemptRecord). a.attempt_no) existing)

  -- The loop of attempts always ends by one of its own exits: an output is returned or an error of
  -- the program is raised, and the bound on the rounds is never met.
  pub run_attempts-ends : (w : World) → (run_attempts x job w).0 ≢ raise out_of_rounds
  run_attempts-ends = run_attempts-InBounds.at
