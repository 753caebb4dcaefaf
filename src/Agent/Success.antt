-- ===== src/Agent/Success.antt =====
-- When a run succeeds (runtime/loop.py).
use forgeharness.Common.{
  ℕ, zero, suc, ◌+◌, ◌≡◌, ◌≢◌, refl, sym, ◌∙◌, ap, subst, String, Bool, true, false, Option, none,
  some, List, [], ◌∷◌, ◌++◌, Result, ok, raise, continue, pure, if◌then◌else◌, inl, inr,
}
use forgeharness.Domain.{
  RunResult, RunStatus, succeeded, awaiting_approval, run_failed, exhausted, Message, Usage,
  ToolCall, ToolSpec, ToolOutput, ToolEvidence, assistant, user,
}
use forgeharness.Todos.{TodoSnapshot}
use forgeharness.Agent.Setting.{
  AgentEvent, run_awaiting_approval, Runtime, World, AgentError, PolicyDecisionType, allow, deny,
  require_approval, VerificationRequest, VerificationResult, AgentAction, tool_action, final_action,
  ModelFault,
}
use forgeharness.Agent.Texts.{verification_feedback}
use forgeharness.Agent.ModelCall.{
  ModelCallKind, success, overflowed, preparation_failed, failed, violated,
}
use forgeharness.Agent.Snapshots.{result_of, checkpoint, finish_run}
use forgeharness.Agent.Pieces.{Progress, Turn, ended, again, saying, said, blocking_board}
use forgeharness.Agent.Loop.{
  finish, save_again, handle_violation, reject_final, handle_verdict, verify_final, gate_final,
  take_final, take_output, run_admitted, suspend, by_policy, admit_call, refuse_reused, take_tool,
  take_action, handle_outcome, step, turn, rounds, drive, verification_request, begin_evidence,
}
use forgeharness.Agent.Replies.{IsReply, Ending-reply}
use forgeharness.Agent.Earning.{
  IsReplied, Ending, Ending-if, not_exhausted, Ending-again, Ending-bind, IsEarned, OnEnd,
  checkpoint_fields, ending_rules, finish_run_fields, not_failed, not_suspended,
}

module _ (x : Runtime) (task : String) (workspace : Option String) where
  abbrev suspended : Progress → ToolCall → String → RunResult
  suspended p call reason =
      record (result_of task awaiting_approval p.messages p.usage p.revision) {
        pending_approval = some (record { call = call; reason = reason });
      }

  abbrev Succeeds : RunResult → World → Type 0
  Succeeds r w = r.status ≡ succeeded → IsEarned x task workspace r w

  finish_end :
      (p : Progress) (status : RunStatus) (final_output error : Option String) (w : World)
      → ((r : RunResult) (w' : World)
          → r.status ≡ status
          → r.final_output ≡ final_output
          → w'.todos ≡ w.todos
          → r.messages ≡ p.messages
          → Succeeds r w')
      → OnEnd Succeeds (finish x task workspace p status final_output error w)
  unfolding finish
  finish_end p status final_output error w h =
      by_end (finish_run x task status p.messages p.usage p.revision final_output error w) refl
    where
      by_end :
          (e : Result AgentError RunResult × World)
          → finish_run x task status p.messages p.usage p.revision final_output error w ≡ e
          → OnEnd Succeeds (continue e.0 (λ (r : RunResult). pure (ended r)) e.1)
      by_end (ok r, w') e =
          let (s, o, t, l) =
            finish_run_fields x task status p.messages p.usage p.revision final_output error r w w'
              e in
          h r w' s o t l
      by_end (raise c, w') e = tt

  finish-Ending :
      (p : Progress) (status : RunStatus) (final_output error : Option String)
      → status ≢ succeeded
      → Ending Succeeds (finish x task workspace p status final_output error)
  finish-Ending p status final_output error ne = record {
    at = λ w.
        finish_end p status final_output error w (λ r w' s o t l good. absurd (ne (sym s ∙ good)));
  }

  save_again-Ending : (p : Progress) → Ending Succeeds (save_again x task workspace p)
  unfolding save_again
  save_again-Ending p = Ending-bind Succeeds _ _ (λ n. Ending-again Succeeds _)

  suspend-Ending :
      (p : Progress) (call : ToolCall) (reason : String)
      → Ending Succeeds (suspend x task workspace p call reason)
  unfolding suspend
  suspend-Ending p call reason = record {
    at = λ w. by_end (record w { trace = w.trace ++ run_awaiting_approval call ∷ [] }) _ refl;
  }
    where
      by_end :
          (w : World) (e : Result AgentError RunResult × World)
          → checkpoint x (suspended p call reason) w ≡ e
          → OnEnd Succeeds (continue e.0 (λ (r : RunResult). pure (ended r)) e.1)
      by_end w (ok r, w') e = λ good.
          absurd
            (not_suspended (sym (checkpoint_fields x (suspended p call reason) r w w' e).0 ∙ good))
      by_end w (raise c, w') e = tt

  module _ (p : Progress) where
    handle_violation-Ending :
        (e : ModelFault) → Ending Succeeds (handle_violation x task workspace p e)
    unfolding handle_violation
    handle_violation-Ending e = search (ending_rules, finish-Ending, save_again-Ending)

    reject_final-Ending :
        (s : TodoSnapshot) (n : ℕ) → Ending Succeeds (reject_final x task workspace p s n)
    unfolding reject_final
    reject_final-Ending s n = search (ending_rules, finish-Ending, save_again-Ending)

    take_output-Ending :
        (call : ToolCall) (o : ToolOutput) → Ending Succeeds (take_output x task workspace call o p)
    unfolding take_output
    take_output-Ending call o = search (ending_rules, save_again-Ending)

  module _ (p : Progress) where
    run_admitted-Ending : (call : ToolCall) → Ending Succeeds (run_admitted x task workspace p call)
    unfolding run_admitted
    run_admitted-Ending call = search (ending_rules, take_output-Ending)

    by_policy-Ending :
        (call : ToolCall) (d : PolicyDecisionType) (reason : String)
        → Ending Succeeds (by_policy x task workspace p call d reason)
    unfolding by_policy
    by_policy-Ending call allow reason = run_admitted-Ending call
    by_policy-Ending call deny reason = save_again-Ending _
    by_policy-Ending call require_approval reason = suspend-Ending p call reason

  module _ (p : Progress) where
    admit_call-Ending :
        (call : ToolCall) (o : Option ToolSpec)
        → Ending Succeeds (admit_call x task workspace p call o)
    unfolding admit_call
    admit_call-Ending call none = search (ending_rules, save_again-Ending)
    admit_call-Ending call (some spec) = search (ending_rules, by_policy-Ending)

  module _ (p : Progress) where
    take_tool-Ending : (call : ToolCall) → Ending Succeeds (take_tool x task workspace p call)
    unfolding take_tool refuse_reused
    take_tool-Ending call = search (ending_rules, finish-Ending, admit_call-Ending)

  -- The final answers.
  module _ (p : Progress) (text : String) (transcript : List Message)
      (answered : IsReplied x task transcript (final_action text))
      (grown : p.messages ≡ transcript ++ said assistant text ∷ []) where
    handle_verdict-OnEnd :
        (w : World) (verify : ℕ → VerificationRequest → Result String VerificationResult)
        → x.verifier ≡ some verify
        → blocking_board w.todos ≡ none
        → (r : Result String VerificationResult)
        → verify p.usage.steps (verification_request x task workspace text w) ≡ r
        → OnEnd Succeeds (handle_verdict x task workspace p text r w)
    unfolding handle_verdict
    handle_verdict-OnEnd w verify has clear (raise e) asked =
        (finish-Ending p run_failed none _ not_failed).at _
    handle_verdict-OnEnd w verify has clear (ok v) asked = by_verdict v.passed refl _
      where
        by_verdict :
            (b : Bool)
            → v.passed ≡ b
            → (event : AgentEvent)
            → OnEnd Succeeds (
                (if b
                    then finish x task workspace p succeeded (some text) none
                    else save_again x task workspace
                        (saying (said user (verification_feedback v)) p))
                  (record w { trace = w.trace ++ event ∷ [] }))
        by_verdict false h event = (save_again-Ending _).at _
        by_verdict true h event = finish_end p succeeded (some text) none _ λ r w' s o t l good.
            record {
              text = text;
              output = o;
              transcript = transcript;
              answered = answered;
              recorded = l ∙ grown;
              done = ap blocking_board t ∙ clear;
              verified = inr (
                verify,
                has,
                p.usage.steps,
                verification_request x task workspace text w,
                v,
                asked,
                h,
                refl,
                refl,
                refl,
              );
            }

    verify_final-OnEnd :
        (w : World)
        → blocking_board w.todos ≡ none
        → (v : Option (ℕ → VerificationRequest → Result String VerificationResult)) → x.verifier ≡ v
        → OnEnd Succeeds (verify_final x task workspace p text v w)
    unfolding verify_final
    verify_final-OnEnd w clear none has =
        finish_end p succeeded (some text) none w λ r w' s o t l good. record {
          text = text;
          output = o;
          transcript = transcript;
          answered = answered;
          recorded = l ∙ grown;
          done = ap blocking_board t ∙ clear;
          verified = inl has;
        }
    verify_final-OnEnd w clear (some verify) has = handle_verdict-OnEnd w verify has clear _ refl

    gate_final-OnEnd :
        (w : World) (o : Option TodoSnapshot)
        → blocking_board w.todos ≡ o
        → OnEnd Succeeds (gate_final x task workspace p text o w)
    unfolding gate_final
    gate_final-OnEnd w none clear = verify_final-OnEnd w clear x.verifier refl
    gate_final-OnEnd w (some s) open_items = (reject_final-Ending p s (w.todo_rejections + 1)).at w

  module _ (p : Progress) where
    take_action-Ending :
        (a : AgentAction)
        → IsReplied x task p.messages a
        → Ending Succeeds (take_action x task workspace p a)
    unfolding take_action take_final
    take_action-Ending (final_action text) answered = record {
      at = λ w.
          gate_final-OnEnd (saying (said assistant text) p) text p.messages answered refl w _ refl;
    }
    take_action-Ending (tool_action call) answered = take_tool-Ending p call

    handle_outcome-Ending :
        (k : ModelCallKind)
        → IsReply x task p.messages k
        → Ending Succeeds (handle_outcome x task workspace p k)
    unfolding handle_outcome
    handle_outcome-Ending (overflowed e) reply = finish-Ending p run_failed none _ not_failed
    handle_outcome-Ending (preparation_failed e) reply =
        finish-Ending p run_failed none _ not_failed
    handle_outcome-Ending (failed e) reply = finish-Ending p run_failed none _ not_failed
    handle_outcome-Ending (violated e) reply = handle_violation-Ending p e
    handle_outcome-Ending (success r) reply =
        Ending-if Succeeds _ _ _ (finish-Ending p exhausted none _ not_exhausted)
          (take_action-Ending r.action reply)

  step-Ending : (p : Progress) → Ending Succeeds (step x task workspace p)
  unfolding step
  step-Ending p = record {
    at = λ w. Ending-reply x task Succeeds p.usage p.messages _ w λ outcome reply.
        handle_outcome-Ending (record p { usage = outcome.usage }) outcome.kind reply;
  }

  turn-Ending :
      (deadline : Option ℕ) (p : Progress) → Ending Succeeds (turn x task workspace deadline p)
  unfolding turn
  turn-Ending deadline p = search (ending_rules, finish-Ending, step-Ending)

  abbrev Returns : Result AgentError RunResult × World → Type 0
  Returns (ok r, w) = Succeeds r w
  Returns (raise c, w) = Unit

  rounds_end :
      (n : ℕ) (deadline : Option ℕ) (p : Progress) (w : World) (r : RunResult) (w' : World)
      → rounds x task workspace n deadline p w ≡ (ok r, w')
      → Succeeds r w'
  unfolding rounds
  rounds_end zero deadline p w r w' e = absurd cc
  rounds_end (suc n) deadline p w r w' e =
      by_turn (turn x task workspace deadline p w) ((turn-Ending deadline p).at w)
        (λ q v. rounds_end n deadline q v r w') e
    where
      by_turn :
          (end : Result AgentError Turn × World)
          → OnEnd Succeeds end
          → ((q : Progress) (v : World)
              → rounds x task workspace n deadline q v ≡ (ok r, w')
              → Succeeds r w')
          → continue end.0
              (λ (t : Turn). elim t [
                | ended r ↦ pure r
                | again q ↦ rounds x task workspace n deadline q
              ])
              end.1
            ≡ (ok r, w')
          → Succeeds r w'
      by_turn (ok (ended v), w1) h later e = subst Returns e h
      by_turn (ok (again q), w1) h later e = later q w1 e
      by_turn (raise c, w1) h later e = absurd cc

  -- If the loop returns a result that has succeeded, then its output is an answer that the model has
  -- given to a request prepared for this task and for the transcript, which the answer then ends,
  -- while the todo board had no open item, and the verifier, where the runtime has one, has passed
  -- this very answer for this task and workspace.
  pub drive-succeeded :
      (messages : List Message) (usage : Usage) (revision : ℕ) (given : List ToolEvidence)
      (w w' : World) (r : RunResult)
      → drive x task workspace messages usage revision given w ≡ (ok r, w')
      → r.status ≡ succeeded
      → IsEarned x task workspace r w'
  unfolding drive
  drive-succeeded messages usage revision given w w' r e =
      rounds_end _ _ _ (begin_evidence x task workspace given w) r w' e
