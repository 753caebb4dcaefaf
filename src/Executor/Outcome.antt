-- ===== src/Executor/Outcome.antt =====
-- How a run of attempts ends (runtime/tool_executor.py): the invocation's row is settled with the
-- output that is returned, or, after any raise, it is still the row that says that the call has
-- started.
use forgeharness.Common.{
  ℕ, zero, suc, ◌≡◌, ◌≢◌, true, false, Option, none, some, arith, Keeps, keeps_rules, Keeps-guard,
  Keeps-pure, Ends, Ends-bind, Ends-after, Ends-if, Keeps-guard, String, Outcome, Result, ok, raise,
  List, if◌then◌else◌, pure, Keeps-throw, subst, ◌>>◌,
}
use forgeharness.Domain.{ToolOutput, Error, attempts_exhausted, process_crashed}
use forgeharness.Journal.{
  InvocationRow, AttemptRecord, Db, Exec, settled_row, start_attempt, finish_attempt, attempts_for,
  is_unsettled, settle, settle_invocation, error_code_of,
}
use forgeharness.Journal.Invariant.{start_attempt-Safe, finish_attempt-Safe}
use forgeharness.Journal.Final.{start_attempt-Stands, finish_attempt-Stands}
use forgeharness.Journal.Settling.{Holds, settle_at-Ends}
use forgeharness.Retry.{RetryDecision, retry, fail, uncertain}
use forgeharness.Executor.Setting
use forgeharness.Executor.Setting.{
  Executor, Event, Subject, Moment, settling, attempt_ends, World, Run, on_journal, emit,
  retry_backoff, retry_decided,
}
use forgeharness.Executor.Attempt
use forgeharness.Executor.Attempt.{
  Job, subject, delay_before, attempt_record, finished_attempt, emit_backoff, begin_attempt, finish,
  perform, settled_record, settle_call, decision_for, settle_unless_retry, conclude_ok,
  conclude_failed, conclude, round, attempts_from, run_attempts,
}

-- The decision with which the last attempt settled the call.
abbrev pub final_decision : Executor → Job → ToolOutput → ℕ → Option RetryDecision
final_decision x job o n = if o.is_ok then none else some (decision_for x job o n)

module _ {A : Type 0} (P : Db → Type 0) (R : A → Db → Type 0) where
  Outcome-on :
      (t : List Event) (res : Result Error A) (db : Db)
      → Outcome P R (res, db)
      → Outcome
          (λ (w : World). P w.db)
          (λ a (w : World). R a w.db)
          (res, record { db = db; trace = t })
  Outcome-on t (ok a) db h = h
  Outcome-on t (raise e) db h = h

  pub on_journal-Ends :
      {m : Exec A}
      → Ends P R m
      → Ends (λ (w : World). P w.db) (λ a (w : World). R a w.db) (on_journal m)
  on_journal-Ends {m} k = record {
    at = λ w h. let (r, db') = m w.db in Outcome-on w.trace r db' (k.at w.db h);
  }

module _ (x : Executor) (job : Job) (r : InvocationRow) where
  abbrev pub Running : World → Type 0
  Running w = Holds job.invocation.invocation_id r w.db

  -- The call is settled with this output after its attempt `n`.
  pub record IsSettled (o : ToolOutput) (w : World) : Type 0 where
    pub last : ℕ
    pub no_retry : final_decision x job o last ≢ some retry
    pub settled :
        Holds job.invocation.invocation_id
          (settled_row x.codec
            (x.clock settling)
            (settled_record x job o last (final_decision x job o last))
            r)
          w.db

  start_attempt-Running : (a : AttemptRecord) → Keeps Running (on_journal (start_attempt a))
  start_attempt-Running a = record {
    at = λ w h. record {
      valid = (start_attempt-Safe a).at w.db h.valid;
      stands = (start_attempt-Stands x.codec job.invocation.invocation_id r a).at w.db h.stands;
    };
  }

  finish_attempt-Running :
      (now : ℕ) (a : AttemptRecord) → Keeps Running (on_journal (finish_attempt now a))
  finish_attempt-Running now a = record {
    at = λ w h. record {
      valid = (finish_attempt-Safe now a).at w.db h.valid;
      stands =
          (finish_attempt-Stands x.codec job.invocation.invocation_id r now a).at w.db h.stands;
    };
  }

  attempts_for-Running : (id : String) → Keeps Running (on_journal (attempts_for id))
  unfolding attempts_for
  attempts_for-Running id = record { at = λ w h. h }

  emit-Running : (e : Event) → Keeps Running (emit e)
  emit-Running e = record { at = λ w h. h }

  emit_backoff-Running : (n delay : ℕ) → Keeps Running (emit_backoff x job n delay)
  unfolding emit_backoff
  emit_backoff-Running n zero = Keeps-pure tt
  emit_backoff-Running n (suc delay) = emit-Running _

  begin_attempt-Running : (n : ℕ) → Keeps Running (begin_attempt x job n)
  unfolding begin_attempt
  begin_attempt-Running n =
      search (keeps_rules, emit_backoff-Running, start_attempt-Running, emit-Running)

  finish-Running : (n : ℕ) (o : Option ToolOutput) → Keeps Running (finish x job n o)
  unfolding finish
  finish-Running n none = Keeps-throw process_crashed
  finish-Running n (some o) = search (keeps_rules, finish_attempt-Running)

  perform-Running : (n : ℕ) → Keeps Running (perform x job n)
  unfolding perform
  perform-Running n = finish-Running n (x.dispatch job.call (Attempt.attempt_context x job n))

  abbrev pub FinishRound : Option ToolOutput → World → Type 0
  FinishRound none w = Running w
  FinishRound (some o) w = IsSettled o w

  module _ (same_id : job.started.invocation_id ≡ job.invocation.invocation_id)
      (open_row : is_unsettled r ≡ true) where
    settle_call-Ends :
        (o : ToolOutput) (n : ℕ)
        → final_decision x job o n ≢ some retry
        → Ends Running (λ _. IsSettled o) (settle_call x job o n (final_decision x job o n))
    unfolding settle_call settle_invocation
    settle_call-Ends o n final =
        let rec = settled_record x job o n (final_decision x job o n) in
        Ends-after Running
          (λ rec' w.
            (rec' ≡ rec)
            × Holds job.invocation.invocation_id (settled_row x.codec (x.clock settling) rec r)
                w.db)
          (λ _. IsSettled o) (on_journal (settle x.codec (x.clock settling) rec)) _
          (on_journal-Ends _ _ (
            settle_at-Ends x.codec (x.clock settling) rec r job.invocation.invocation_id same_id
              open_row))
          (λ rec' w h. record { last = n; no_retry = final; settled = h.1 })

    settle_with-Ends :
        (o : ToolOutput) (n : ℕ) (d : Option RetryDecision)
        → final_decision x job o n ≡ d
        → d ≢ some retry
        → Ends Running FinishRound (settle_call x job o n d >> pure (some o))
    settle_with-Ends o n d e final =
        Ends-after Running (λ _. IsSettled o) FinishRound (settle_call x job o n d) _
          (subst (λ t. Ends Running (λ _. IsSettled o) (settle_call x job o n t)) e
            (settle_call-Ends o n (rw e final)))
          (λ _ w h. h)

    settle_unless_retry-Ends :
        (o : ToolOutput) (n : ℕ) (d : RetryDecision)
        → final_decision x job o n ≡ some d
        → Ends Running FinishRound (settle_unless_retry x job o n d)
    unfolding settle_unless_retry
    settle_unless_retry-Ends o n retry e = record { at = λ w h. h }
    settle_unless_retry-Ends o n fail e = settle_with-Ends o n (some fail) e (λ p. cc)
    settle_unless_retry-Ends o n uncertain e = settle_with-Ends o n (some uncertain) e (λ p. cc)

    conclude_ok-Ends :
        (n : ℕ) (o : ToolOutput) → o.is_ok ≡ true → Ends Running FinishRound (conclude_ok x job n o)
    unfolding conclude_ok
    conclude_ok-Ends n o e =
        Ends-bind _ _ (emit-Running (Setting.attempt_completed (subject x job) n))
          λ _. settle_with-Ends o n none (ground arith) (λ p. cc)

    conclude_failed-Ends :
        (n : ℕ) (o : ToolOutput)
        → o.is_ok ≡ false
        → Ends Running FinishRound (conclude_failed x job n o)
    unfolding conclude_failed
    conclude_failed-Ends n o e =
        Ends-bind _ _ (emit-Running (Setting.attempt_failed (subject x job) n (error_code_of o)))
          λ _.
            Ends-bind _ _
              (emit-Running (
                retry_decided (subject x job) n (error_code_of o) (decision_for x job o n)
                  x.budget.max_attempts_per_call))
              λ _. settle_unless_retry-Ends o n (decision_for x job o n) (ground arith)

    conclude-Ends : (n : ℕ) (o : ToolOutput) → Ends Running FinishRound (conclude x job n o)
    unfolding conclude
    conclude-Ends n o =
        Ends-if o.is_ok (conclude_ok x job n o) (conclude_failed x job n o) (conclude_ok-Ends n o)
          (conclude_failed-Ends n o)

    round-Ends : (n : ℕ) → Ends Running FinishRound (round x job n)
    unfolding round
    round-Ends n =
        Ends-bind _ _ (begin_attempt-Running n)
          λ _. Ends-bind _ _ (perform-Running n) λ o. conclude-Ends n o

    after_round :
        (m : Run ToolOutput)
        → Ends Running IsSettled m
        → (result : Option ToolOutput) (w : World) → FinishRound result w
        → let next : Run ToolOutput = elim result [ some o ↦ pure o | none ↦ m ] in
          Outcome Running IsSettled (next w)
    after_round m k none w h = k.at w h
    after_round m k (some o) w h = h

    attempts_from-Ends : (rounds n : ℕ) → Ends Running IsSettled (attempts_from x job rounds n)
    unfolding attempts_from
    attempts_from-Ends zero n = record { at = λ w h. h }
    attempts_from-Ends (suc rounds) n =
        Ends-after Running FinishRound IsSettled (round x job (suc n)) _ (round-Ends (suc n))
          (after_round (attempts_from x job rounds (suc n)) (attempts_from-Ends rounds (suc n)))

    -- A run of attempts on a started invocation.
    pub run_attempts-Ends : Ends Running IsSettled (run_attempts x job)
    unfolding run_attempts
    run_attempts-Ends =
        Ends-bind _ _ (attempts_for-Running job.invocation.invocation_id)
          λ existing. Ends-bind _ _ (Keeps-guard _ attempts_exhausted) λ _. attempts_from-Ends _ _
