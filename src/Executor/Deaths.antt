-- ===== src/Executor/Deaths.antt =====
-- Where the process dies inside a call (runtime/tool_executor.py): the tool was given this very
-- call, and did not return.
use forgeharness.Common.{
  ℕ, zero, suc, String, Bool, true, false, Option, none, some, ◌≡◌, ◌≢◌, refl, arith, Result, ok,
  raise, Action, continue, ◌>>=◌, ◌>>◌, pure, throw, guard, if◌then◌else◌,
}
use forgeharness.Domain.{
  ToolOutput, ToolCall, ToolContext, Usage, Error, process_crashed, hook_failed, attempts_exhausted,
  out_of_rounds, bad_idempotency_key, shared_authority,
}
use forgeharness.Journal.{
  Exec, Codec, AttemptRecord, InvocationRecord, attempts_for, start_attempt, finish_attempt, settle,
  claim, mark_started, update_one, load_by_id, row_to_record,
}
use forgeharness.Retry.{RetryDecision, retry, fail, uncertain}
use forgeharness.Executor.Setting
use forgeharness.Executor.Setting.{Executor, Event, World, Run, on_journal, emit}
use forgeharness.Executor.Attempt
use forgeharness.Executor.Attempt.{
  Job, emit_backoff, begin_attempt, finish, perform, settle_call, decision_for, settle_unless_retry,
  conclude_ok, conclude_failed, conclude, round, attempts_from, run_attempts,
}
use forgeharness.Executor.Calls.{
  new_record, job_for, dispatch_journalled, dispatch, answer, invocation_id_for,
}

-- Where the action raises `process_crashed`, `P` holds.
record Dies {S A : Type 0} (P : Type 0) (m : Action S Error A) : Type 0 where
  at : (s : S) → (m s).0 ≡ raise process_crashed → P

module _ (P : Type 0) where
  module _ {S A : Type 0} where
    Dies-pure : (a : A) → Dies P (pure {S = S} {E = Error} a)
    Dies-pure a = record { at = λ s p. absurd cc }

    Dies-throw : (e : Error) → e ≢ process_crashed → Dies P (throw {S = S} {A = A} e)
    Dies-throw e h = record { at = λ s p. absurd (h (ground arith)) }

  module _ {S A B : Type 0} where
    continue-Dies :
        (r : Result Error A) (f : A → Action S Error B)
        → (r ≡ raise process_crashed → P)
        → ((a : A) → Dies P (f a))
        → (s : S) → (continue r f s).0 ≡ raise process_crashed
        → P
    continue-Dies (ok a) f h k s p = (k a).at s p
    continue-Dies (raise e) f h k s p = h (ground arith)

    Dies-bind :
        (m : Action S Error A) (f : A → Action S Error B)
        → Dies P m
        → ((a : A) → Dies P (f a))
        → Dies P (m >>= f)
    Dies-bind m f km kf = record { at = λ s. continue-Dies (m s).0 f (km.at s) kf (m s).1 }

    Dies-then :
        (m : Action S Error A) (k : Action S Error B) → Dies P m → Dies P k → Dies P (m >> k)
    Dies-then m k km kk = Dies-bind m (λ _. k) km (λ _. kk)

  Dies-guard :
      {S : Type 0} (b : Bool) (e : Error) → e ≢ process_crashed → Dies P (guard {S = S} b e)
  Dies-guard true e h = record { at = λ s p. absurd cc }
  Dies-guard false e h = record { at = λ s p. absurd (h (ground arith)) }

  Dies-emit : (e : Event) → Dies P (emit e)
  Dies-emit e = record { at = λ w p. absurd cc }

  Dies-on_journal : {A : Type 0} (m : Exec A) → Dies P m → Dies P (on_journal m)
  Dies-on_journal m k = record { at = λ w. k.at w.db }

  start_attempt-Dies : (a : AttemptRecord) → Dies P (start_attempt a)
  unfolding start_attempt
  start_attempt-Dies a = record { at = λ db p. absurd (ground arith) }

  finish_attempt-Dies : (now : ℕ) (a : AttemptRecord) → Dies P (finish_attempt now a)
  unfolding finish_attempt
  finish_attempt-Dies now a = record { at = λ db p. absurd (ground arith) }

  attempts_for-Dies : (id : String) → Dies P (attempts_for id)
  unfolding attempts_for
  attempts_for-Dies id = record { at = λ db p. absurd cc }

  claim-Dies : (rec : InvocationRecord) → Dies P (claim rec)
  unfolding claim
  claim-Dies rec = record { at = λ db p. absurd (ground arith) }

  settle-Dies : (codec : Codec) (now : ℕ) (rec : InvocationRecord) → Dies P (settle codec now rec)
  unfolding settle update_one
  settle-Dies codec now rec = record { at = λ db p. absurd (ground arith) }

  mark_started-Dies :
      (codec : Codec) (now : ℕ) (id : String) (revision : ℕ)
      → Dies P (mark_started codec now id revision)
  unfolding mark_started update_one load_by_id row_to_record
  mark_started-Dies codec now id revision = record { at = λ db p. absurd (ground arith) }

-- The dispatcher was given the call and did not return.
abbrev pub HasDied : Executor → ToolCall → Type 0
HasDied x call = (context : ToolContext) × (x.dispatch call context ≡ none)

module _ (x : Executor) (job : Job) where
  emit_backoff-Dies : (n delay : ℕ) → Dies (HasDied x job.call) (emit_backoff x job n delay)
  unfolding emit_backoff
  emit_backoff-Dies n zero = Dies-pure _ tt
  emit_backoff-Dies n (suc delay) = Dies-emit _ _

  begin_attempt-Dies : (n : ℕ) → Dies (HasDied x job.call) (begin_attempt x job n)
  unfolding begin_attempt
  begin_attempt-Dies n = Dies-then _ _ _ (emit_backoff-Dies n (Attempt.delay_before x job n)) (
      Dies-then _ _ _ (Dies-guard _ (x.before_attempt n) hook_failed (λ p. cc)) (
        Dies-then _ _ _
          (Dies-on_journal _ _ (start_attempt-Dies _ (Attempt.attempt_record x job n)))
          (Dies-emit _ _)))

  finish-Dies :
      (n : ℕ) (o : Option ToolOutput)
      → x.dispatch job.call (Attempt.attempt_context x job n) ≡ o
      → Dies (HasDied x job.call) (finish x job n o)
  unfolding finish
  finish-Dies n none e = record { at = λ w p. (Attempt.attempt_context x job n, e) }
  finish-Dies n (some o) e =
      Dies-then _ _ _
        (Dies-on_journal _ _ (
          finish_attempt-Dies _ (x.clock (Setting.attempt_ends n))
            (Attempt.finished_attempt x job n o)))
        (Dies-pure _ o)

  settle_call-Dies :
      (o : ToolOutput) (n : ℕ) (d : Option RetryDecision)
      → Dies (HasDied x job.call) (settle_call x job o n d)
  unfolding settle_call
  settle_call-Dies o n d =
      Dies-bind _ _ _
        (Dies-on_journal _ _
          (settle-Dies _ x.codec (x.clock Setting.settling) (Attempt.settled_record x job o n d)))
        λ rec.
          Dies-emit _
            (Setting.invocation_settled (Attempt.subject x job) rec.state n rec.error_code)

  settle_unless_retry-Dies :
      (o : ToolOutput) (n : ℕ) (d : RetryDecision)
      → Dies (HasDied x job.call) (settle_unless_retry x job o n d)
  unfolding settle_unless_retry
  settle_unless_retry-Dies o n retry = Dies-pure _ none
  settle_unless_retry-Dies o n fail =
      Dies-then _ _ _ (settle_call-Dies o n (some fail)) (Dies-pure _ (some o))
  settle_unless_retry-Dies o n uncertain =
      Dies-then _ _ _ (settle_call-Dies o n (some uncertain)) (Dies-pure _ (some o))

  conclude_ok-Dies : (n : ℕ) (o : ToolOutput) → Dies (HasDied x job.call) (conclude_ok x job n o)
  unfolding conclude_ok
  conclude_ok-Dies n o =
      Dies-then _ _ _ (Dies-emit _ (Setting.attempt_completed (Attempt.subject x job) n))
        (Dies-then _ _ _ (settle_call-Dies o n none) (Dies-pure _ (some o)))

  conclude_failed-Dies :
      (n : ℕ) (o : ToolOutput) → Dies (HasDied x job.call) (conclude_failed x job n o)
  unfolding conclude_failed
  conclude_failed-Dies n o =
      Dies-then _ _ _ (Dies-emit _ _)
        (Dies-then _ _ _ (Dies-emit _ _) (settle_unless_retry-Dies o n (decision_for x job o n)))

  conclude-Dies : (n : ℕ) (o : ToolOutput) → Dies (HasDied x job.call) (conclude x job n o)
  unfolding conclude
  conclude-Dies n o = by_test o.is_ok
    where
      by_test :
          (b : Bool)
          → Dies
              (HasDied x job.call)
              (if b then conclude_ok x job n o else conclude_failed x job n o)
      by_test true = conclude_ok-Dies n o
      by_test false = conclude_failed-Dies n o

  round-Dies : (n : ℕ) → Dies (HasDied x job.call) (round x job n)
  unfolding round perform
  round-Dies n =
      Dies-then _ _ _ (begin_attempt-Dies n)
        (Dies-bind _ _ _ (finish-Dies n _ refl) (conclude-Dies n))

  attempts_from-Dies : (rounds n : ℕ) → Dies (HasDied x job.call) (attempts_from x job rounds n)
  unfolding attempts_from
  attempts_from-Dies zero n = Dies-throw _ out_of_rounds (λ p. cc)
  attempts_from-Dies (suc rounds) n =
      Dies-bind _ _ _ (round-Dies (suc n)) (by_result (attempts_from-Dies rounds (suc n)))
    where
      by_result :
          Dies (HasDied x job.call) (attempts_from x job rounds (suc n))
          → (r : Option ToolOutput)
          → Dies
              (HasDied x job.call)
              (elim r [ some o ↦ pure o | none ↦ attempts_from x job rounds (suc n) ])
      by_result later (some o) = Dies-pure _ o
      by_result later none = later

  run_attempts-Dies : Dies (HasDied x job.call) (run_attempts x job)
  unfolding run_attempts
  run_attempts-Dies =
      Dies-bind _ _ _ (Dies-on_journal _ _ (attempts_for-Dies _ job.invocation.invocation_id))
        λ existing.
          Dies-then _ _ _ (Dies-guard _ _ attempts_exhausted (λ p. cc)) (attempts_from-Dies _ _)

module _ (x : Executor) (task_id : String) (call : ToolCall) (workspace : Option String)
    (usage : Usage) (revision : ℕ) where
  dispatch_journalled-Dies :
      Dies (HasDied x call) (dispatch_journalled x task_id call workspace usage revision)
  unfolding dispatch_journalled
  dispatch_journalled-Dies =
      Dies-then _ _ _ (Dies-on_journal _ _ (claim-Dies _ (new_record x task_id call revision))) (
        Dies-then _ _ _ (Dies-emit _ _) (
          Dies-bind _ _ _
            (Dies-on_journal _ _ (
              mark_started-Dies _ x.codec (x.clock Setting.starting)
                (invocation_id_for task_id call.id) revision))
            λ started.
              Dies-then _ _ _ (Dies-emit _ _)
                (run_attempts-Dies x (job_for x task_id call workspace usage revision started))))

  answer-Dies :
      (context : ToolContext) (o : Option ToolOutput)
      → x.dispatch call context ≡ o
      → Dies (HasDied x call) (answer x o)
  answer-Dies context none e = record { at = λ w p. (context, e) }
  answer-Dies context (some o) e = Dies-pure _ o

  -- A dispatch raises `process_crashed` only where the tool of its own call did not return.
  pub dispatch-died :
      (has_journal : Bool) (key : Option String) (w : World)
      → (dispatch x has_journal task_id call workspace usage revision key w).0
        ≡ raise process_crashed
      → HasDied x call
  unfolding dispatch
  dispatch-died has_journal key = dies.at
    where
      by_journal :
          (b : Bool) (context : ToolContext)
          → Dies (HasDied x call) (
              if b
              then dispatch_journalled x task_id call workspace usage revision
              else answer x (x.dispatch call context))
      by_journal true context = dispatch_journalled-Dies
      by_journal false context = answer-Dies context _ refl

      dies :
          Dies (HasDied x call) (dispatch x has_journal task_id call workspace usage revision key)
      dies =
          Dies-then _ _ _ (Dies-guard _ _ bad_idempotency_key (λ p. cc))
            (Dies-then _ _ _ (Dies-guard _ _ shared_authority (λ p. cc)) (by_journal has_journal _))
