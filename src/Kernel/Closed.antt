-- ===== src/Kernel/Closed.antt =====
-- How a kernel's run ends, and that it stays ended (sdk/kernel.py).
use forgeharness.Common.{
  ◌≡◌, refl, sym, ap, subst, ◌∙◌, Bool, true, false, not, String, Option, none, some, List, [], ◌∷◌,
  ◌++◌, Result, ok, raise, pure, gets, guard, modify, continue, ◌>>=◌, ◌>>◌, if◌then◌else◌, ◌==◌,
  arith, Outcome, ◌⊎◌, inl, inr,
}
use forgeharness.Domain.{RunResult, RunStatus, succeeded, RunStatus_eq, ToolEvidence}
use forgeharness.Checkpoint
use forgeharness.Checkpoint.{Checkpoints, CheckpointConflict, task_key}
use forgeharness.Checkpoint.Laws.{saved_checkpoint, saved_content}
use forgeharness.Agent.{VerificationResult, checkpoint_saved, run_finished}
use forgeharness.Kernel.Setting.{
  Host, Kernel, KernelError, shared, misused, Run, log, lift_conflict, ensure_active, state_of,
  save_to_store, count_save, save,
}
use forgeharness.Kernel.Finish.{
  Ending, question, verify, report, verdict, judge, judge_success, stated_error, is_open, close,
  finish, KernelCall, after_calls,
}
use forgeharness.Kernel.Refusals.{IsKeyed, IsClosed, ensure_active-cases, after_calls-Unchanged}

module _ (h : Host) where
  -- The verifier has passed the final action on the evidence that the kernel holds.
  pub record IsVerified (evidence : List ToolEvidence) (output : Option String) : Type 0 where
    pub final : String
    pub answered : output ≡ some final
    pub verdict : VerificationResult
    pub asked : h.verifier (question h final evidence) ≡ ok verdict
    pub passed : verdict.passed ≡ true

  abbrev Justified : RunStatus → Option String → Kernel → Type 0
  Justified status output k =
      (IsVerified k.evidence output × (status ≡ succeeded)) ⊎ ((status == succeeded) ≡ false)

  abbrev Active : Kernel → Type 0
  Active k = IsKeyed k × (k.started ≡ true)

  abbrev Judged : Ending → Kernel → Type 0
  Judged e k = Active k × Justified e.status e.final_output k

  verdict-Justified :
      (final : String) (error : Option String) (k : Kernel) (v : VerificationResult) (b : Bool)
      → v.passed ≡ b
      → h.verifier (question h final k.evidence) ≡ ok v
      → Justified (verdict h final error v).status (verdict h final error v).final_output k
  verdict-Justified final error k v true passed asked = inl (
    (record {
      final = final;
      answered = ground arith;
      verdict = v;
      asked = asked;
      passed = passed;
    }),
    ground arith,
  )
  verdict-Justified final error k v false passed asked = inr (ground arith)

  abbrev Anything : Kernel → Type 0
  Anything k = Unit

  report-Outcome :
      (final : String) (error : Option String) (k : Kernel) (r : Result String VerificationResult)
      → h.verifier (question h final k.evidence) ≡ r
      → Active k
      → Outcome Anything Judged ((report h r >>= λ v. pure (verdict h final error v)) k)
  report-Outcome final error k (raise name) asked a = tt
  report-Outcome final error k (ok v) asked a =
      (a, verdict-Justified final error k v v.passed refl asked)

  verify-Outcome :
      (final : String) (error : Option String) (k : Kernel)
      → Active k
      → Outcome Anything Judged (judge_success h (some final) error k)
  unfolding verify ensure_active
  verify-Outcome final error k a =
      let rest : Run VerificationResult =
        gets (λ (k : Kernel). question h final k.evidence) >>= λ request.
        report h (h.verifier request) in
      let f : VerificationResult → Run Ending = λ v. pure (verdict h final error v) in
      elim (ensure_active-cases k) [
        | inl (e, s) ↦
            subst
              (λ p.
                Outcome Anything Judged
                  (continue (continue p.0 (λ _. rest) p.1).0 f (continue p.0 (λ _. rest) p.1).1))
              (sym e)
              (report-Outcome final error k (h.verifier (question h final k.evidence)) refl a)
        | inr (r, e) ↦
            subst
              (λ p.
                Outcome Anything Judged
                  (continue (continue p.0 (λ _. rest) p.1).0 f (continue p.0 (λ _. rest) p.1).1))
              (sym e) tt
      ]

  judge_success-Outcome :
      (final error : Option String) (k : Kernel)
      → Active k
      → Outcome Anything Judged (judge_success h final error k)
  judge_success-Outcome none error k a = (a, inr (ground arith))
  judge_success-Outcome (some final) error k a = verify-Outcome final error k a

  judge-Outcome :
      (final : Option String) (status : RunStatus) (error : Option String) (k : Kernel)
      → Active k
      → Outcome Anything Judged (judge h final status error k)
  judge-Outcome final status error k a = by_status (status == succeeded) refl
    where
      by_status :
          (b : Bool)
          → (status == succeeded) ≡ b
          → Outcome Anything Judged (
              (if b
                  then judge_success h final error
                  else pure (record { status = status; final_output = none; error = error }))
                k)
      by_status true e = judge_success-Outcome final error k a
      by_status false e = (a, inr e)

  -- The result is stored, and it is justified by the kernel's evidence.
  abbrev Closed : RunResult → Kernel → Type 0
  Closed r k =
      IsClosed k
      × (Checkpoint.load h.task_id k.checkpoints ≡ some r)
      × Justified r.status r.final_output k

  -- what a save leaves
  record Saved (result : RunResult) (k : Kernel) (saved : RunResult) (k' : Kernel) : Type 0 where
    loaded : Checkpoint.load result.task_id k'.checkpoints ≡ some saved
    same : (saved.status ≡ result.status) × (saved.final_output ≡ result.final_output)
    kept : (k'.started ≡ k.started) × (k'.evidence ≡ k.evidence)

  save_to_store-Outcome :
      (result : RunResult) (k : Kernel)
      → IsKeyed k
      → Outcome Anything (Saved result k) (save_to_store h result k)
  unfolding save_to_store
  save_to_store-Outcome result k u =
      by_row (Checkpoint.save result k.checkpoints).0 (Checkpoint.save result k.checkpoints).1 refl
    where
      by_row :
          (r : Result CheckpointConflict RunResult) (rows : Checkpoints)
          → Checkpoint.save result k.checkpoints ≡ (r, rows)
          → Outcome Anything (Saved result k) (
              continue
                (lift_conflict r)
                (λ saved. do
                  modify
                      (λ (k : Kernel). record k { checkpoint_revision = saved.checkpoint_revision })
                  log (shared (checkpoint_saved saved.checkpoint_revision saved.status))
                  pure saved)
                (record k { checkpoints = rows }))
      by_row (raise e) rows found = tt
      by_row (ok saved) rows found = record {
        loaded = saved_checkpoint result saved k.checkpoints rows u found;
        same =
            let stamp = saved_content result saved k.checkpoints rows u found in
            (ap (λ (r : RunResult). r.status) stamp, ap (λ (r : RunResult). r.final_output) stamp);
        kept = (refl, refl);
      }

  Justified-as :
      (k k' : Kernel) {s s' : RunStatus} {o o' : Option String}
      → s' ≡ s
      → o' ≡ o
      → k'.evidence ≡ k.evidence
      → Justified s o k
      → Justified s' o' k'
  Justified-as k k' {s} {s'} {o} {o'} es eo ee (inl (v, e)) = inl (
    subst (λ output. IsVerified k'.evidence output) (sym eo)
        (subst (λ evidence. IsVerified evidence o) (sym ee) v),
    es ∙ e,
  )
  Justified-as k k' es eo ee (inr e) = inr (ap (λ s. s == succeeded) es ∙ e)

  close_saved :
      (e : Ending) (k : Kernel) (result : RunResult)
      → result ≡ state_of h e.status e.final_output (stated_error h e) k
      → Judged e k
      → (r : Result KernelError RunResult) (k' : Kernel) → Outcome Anything (Saved result k) (r, k')
      → Outcome Anything Closed (
          continue r
            (λ result. do modify (λ (k : Kernel). record k { finished = true }); pure result)
            k')
  close_saved e k result same j (raise c) k' s = tt
  close_saved e k result same j (ok saved) k' s = (
    (s.kept.0 ∙ j.0.1, refl),
    subst (λ t. Checkpoint.load t k'.checkpoints ≡ some saved)
        (ap (λ (r : RunResult). r.task_id) same) s.loaded,
    Justified-as k k' (s.same.0 ∙ ap (λ (r : RunResult). r.status) same)
        (s.same.1 ∙ ap (λ (r : RunResult). r.final_output) same) s.kept.1 j.1,
  )

  -- `ensure_active` and a guard come before the rest.
  guarded :
      (b : Bool) (rest : Run RunResult) (k : Kernel)
      → (k.started ≡ true → Outcome Anything Closed (rest k))
      → Outcome Anything Closed
          ((ensure_active >> (guard b (misused "invalid terminal status") >> rest)) k)
  guarded b rest k after =
      let next : Run RunResult = guard b (misused "invalid terminal status") >> rest in
      elim (ensure_active-cases k) [
        | inl (e, started) ↦
            subst (λ p. Outcome Anything Closed (continue p.0 (λ _. next) p.1)) (sym e)
              (passed b (after started))
        | inr (c, e) ↦
            subst (λ p. Outcome Anything Closed (continue p.0 (λ _. next) p.1)) (sym e) tt
      ]
    where
      passed :
          (b : Bool)
          → Outcome Anything Closed (rest k)
          → Outcome Anything Closed ((guard b (misused "invalid terminal status") >> rest) k)
      passed true o = o
      passed false o = tt

  close-Outcome :
      (e : Ending) (k : Kernel)
      → h.runtime.has_checkpoints ≡ true
      → Judged e k
      → Outcome Anything Closed (close h e k)
  unfolding close save
  close-Outcome e k has j =
      let k1 : Kernel = record k {
        trace = k.trace ++ shared (run_finished e.status (stated_error h e)) ∷ [];
      } in
      let result = state_of h e.status e.final_output (stated_error h e) k1 in
      let f : RunResult → Run RunResult =
        λ r. (do modify (λ (k : Kernel). record k { finished = true }); pure r) in
      let saved = save_to_store h result k1 in
      subst
        (λ b.
          Outcome Anything Closed
            (((if b then save_to_store h result else count_save h result) >>= f) k1))
        (sym has)
        (close_saved e k1 result refl j saved.0 saved.1 (save_to_store-Outcome result k1 j.0.0))

  continue-close-Outcome :
      (r : Result KernelError Ending) (k : Kernel)
      → h.runtime.has_checkpoints ≡ true
      → Outcome Anything Judged (r, k)
      → Outcome Anything Closed (continue r (close h) k)
  continue-close-Outcome (raise e) k has j = tt
  continue-close-Outcome (ok e) k has j = close-Outcome e k has j

  finish-Outcome :
      (final : Option String) (status : RunStatus) (error : Option String) (k : Kernel)
      → h.runtime.has_checkpoints ≡ true
      → IsKeyed k
      → Outcome Anything Closed (finish h final status error k)
  unfolding finish
  finish-Outcome final status error k has u =
      let judged = judge h final status error k in
      let rest : Run RunResult = judge h final status error >>= close h in
      let after : k.started ≡ true → Outcome Anything Closed (rest k) = λ s.
        continue-close-Outcome judged.0 judged.1 has (judge-Outcome final status error k (u, s)) in
      guarded (not (is_open h status)) rest k after

  -- Where the host stores checkpoints, with one row for a run: once `finish` has returned a result,
  -- that result stays the run's stored snapshot whatever is called after it, and it reports success
  -- only where the verifier has passed its output on the evidence that the kernel then held.
  pub finish-stands :
      (final : Option String) (status : RunStatus) (error : Option String) (k : Kernel)
      (calls : List KernelCall) {r : RunResult} {k' : Kernel}
      → h.runtime.has_checkpoints ≡ true
      → IsKeyed k
      → finish h final status error k ≡ (ok r, k')
      → (Checkpoint.load h.task_id (after_calls h calls k').checkpoints ≡ some r)
        × ((IsVerified k'.evidence r.final_output × (r.status ≡ succeeded))
            ⊎ ((r.status == succeeded) ≡ false))
  finish-stands final status error k calls {r} {k'} has u e =
      let (closed, loaded, justified) =
        subst (Outcome Anything Closed) e (finish-Outcome final status error k has u) in
      (ap (Checkpoint.load h.task_id) (after_calls-Unchanged h calls k' closed) ∙ loaded, justified)
