-- ===== src/Kernel/ReadOnly.antt =====
-- A kernel runs only read-only tools that the policy allows (sdk/kernel.py).
use forgeharness.Common.{
  ℕ, ◌≡◌, refl, true, String, Option, none, some, List, [], ◌∷◌, map, Result, ok, raise, Action,
  ◌==◌, All, All-append, arith, Keeps, Keeps-modify, Keeps-guarded, Keeps-then, keeps_rules, join,
}
use forgeharness.Domain.{RunStatus, Message, ToolCall, ToolSpec, Usage, read, read_only, Error}
use forgeharness.Checkpoint
use forgeharness.Executor
use forgeharness.Executor.{authorize}
use forgeharness.Agent
use forgeharness.Agent.{
  AgentEvent, PolicyDecision, allow, PolicyDecisionType_eq, policy_decided, ModelCallKind,
  overflowed, preparation_failed, failed, violated, success, VerificationResult,
}
use forgeharness.Kernel.Setting.{
  Host, Kernel, KernelEvent, tool_denied, shared, tool_started, tool_ended, emitted, log, on_store,
  ensure_active, check_deadline, save_to_store, save, start, checkpoint, emit,
}
use forgeharness.Kernel.Calls.{
  on_model, on_tool, call_model, run_tool, run_decided, call_tool, read_only_decision, settle_kind,
}
use forgeharness.Kernel.Finish.{
  verify, report, close, finish, KernelCall, start_call, checkpoint_call, emit_call, model_call,
  tool_call, verify_call, finish_call, after_call, after_calls, judge_success,
}

module _ (h : Host) where
  -- The tool is registered as one that only reads, and the policy has allowed the call.
  pub record IsAllowed (call : ToolCall) : Type 0 where
    pub spec : ToolSpec
    pub registered : h.runtime.registry call.name ≡ some spec
    pub reads : (spec.risk ≡ read) × (spec.effect_class ≡ read_only)
    pub steps : ℕ
    pub allowed : (h.runtime.evaluate steps h.task_id spec call).type ≡ allow

  abbrev pub IsGoverned : KernelEvent → Type 0
  IsGoverned (shared e) = Unit
  IsGoverned (tool_started call) = IsAllowed call
  IsGoverned (tool_ended call b) = Unit
  IsGoverned (emitted event_type payload) = Unit

  abbrev pub Governed : Kernel → Type 0
  Governed k = All IsGoverned k.trace

  Governed-log : (e : KernelEvent) → IsGoverned e → Keeps Governed (log e)
  Governed-log e g = record { at = λ k p. All-append IsGoverned k.trace (e ∷ []) p (g, tt) }

  shared-Governed : (l : List AgentEvent) → All IsGoverned (map shared l)
  shared-Governed [] = tt
  shared-Governed (e ∷ l) = (tt, shared-Governed l)

  Governed-on_model : {A : Type 0} (m : Agent.Run A) → Keeps Governed (on_model m)
  Governed-on_model m = record { at = λ k p. All-append IsGoverned k.trace _ p (shared-Governed _) }

  Governed-on_tool : {A : Type 0} (m : Executor.Run A) → Keeps Governed (on_tool m)
  Governed-on_tool m = record { at = λ k p. p }

  Governed-on_store :
      {A : Type 0} (m : Action Checkpoint.Checkpoints Checkpoint.CheckpointConflict A)
      → Keeps Governed (on_store m)
  Governed-on_store m = record { at = λ k p. p }

  ruleset governed_rules = (
    keeps_rules, Keeps-modify, Governed-log, Governed-on_model, Governed-on_tool, Governed-on_store,
  )

  Governed-ensure_active : Keeps Governed ensure_active
  unfolding ensure_active
  Governed-ensure_active = search governed_rules depth 12

  Governed-check_deadline : (now : ℕ) → Keeps Governed (check_deadline now)
  unfolding check_deadline
  Governed-check_deadline now = search governed_rules depth 12

  Governed-save : (status : RunStatus) (o e : Option String) → Keeps Governed (save h status o e)
  unfolding save save_to_store
  Governed-save status o e = search governed_rules depth 16

  Governed-run_tool :
      (call : ToolCall) (usage : Usage) → IsAllowed call → Keeps Governed (run_tool h call usage)
  unfolding run_tool
  Governed-run_tool call usage allowed = search governed_rules depth 20

  module _ (call : ToolCall) (usage : Usage) (d : PolicyDecision) where
    call-IsAllowed :
        (found : Option ToolSpec)
        → h.runtime.registry call.name ≡ found
        → read_only_decision h usage call ≡ ok d
        → (d.type == allow) ≡ true
        → IsAllowed call
    unfolding authorize
    call-IsAllowed none e r a = absurd (ground arith)
    call-IsAllowed (some spec) e r a = record {
      spec = spec;
      registered = e;
      reads = ground arith;
      steps = usage.steps;
      allowed = ground arith;
    }

  Governed-run_decided :
      (call : ToolCall) (usage : Usage) (r : Result Error PolicyDecision)
      → read_only_decision h usage call ≡ r
      → Keeps Governed (run_decided h call usage r)
  unfolding run_decided
  Governed-run_decided call usage (raise e) found = search governed_rules depth 12
  Governed-run_decided call usage (ok d) found =
      Keeps-then (log (shared (policy_decided call d))) _
        (Governed-log (shared (policy_decided call d)) tt)
        (Keeps-guarded (d.type == allow) (tool_denied (join ": " "tool not allowed" d.reason))
          (run_tool h call usage)
          (λ a.
            Governed-run_tool call usage
              (call-IsAllowed call usage d (h.runtime.registry call.name) refl found a)))

  ruleset governed_parts = (
    governed_rules, Governed-ensure_active, Governed-check_deadline, Governed-save,
    Governed-run_tool,
  )

  Governed-call_tool : (now : ℕ) (call : ToolCall) → Keeps Governed (call_tool h now call)
  unfolding call_tool
  Governed-call_tool now call =
      let decided : (usage : Usage)
          → Keeps Governed (run_decided h call usage (read_only_decision h usage call)) =
        λ usage. Governed-run_decided call usage (read_only_decision h usage call) refl in
      search (governed_parts, decided) depth 20

  Governed-settle_kind : (kind : ModelCallKind) → Keeps Governed (settle_kind h kind)
  Governed-settle_kind (overflowed text) = search governed_rules depth 8
  Governed-settle_kind (preparation_failed text) = search governed_rules depth 8
  Governed-settle_kind (failed e) = search governed_rules depth 8
  Governed-settle_kind (violated e) = search governed_rules depth 8
  Governed-settle_kind (success r) = search governed_rules depth 12

  Governed-call_model :
      (now : ℕ) (messages : Option (List Message)) → Keeps Governed (call_model h now messages)
  unfolding call_model
  Governed-call_model now messages = search (governed_parts, Governed-settle_kind) depth 20

  Governed-report : (r : Result String VerificationResult) → Keeps Governed (report h r)
  Governed-report (ok v) = search governed_rules depth 8
  Governed-report (raise name) = search governed_rules depth 8

  Governed-verify : (final : String) → Keeps Governed (verify h final)
  unfolding verify
  Governed-verify final = search (governed_parts, Governed-report) depth 16

  Governed-judge_success :
      (final error : Option String) → Keeps Governed (judge_success h final error)
  Governed-judge_success none error = search governed_rules depth 8
  Governed-judge_success (some final) error = search (governed_rules, Governed-verify) depth 12

  Governed-finish :
      (final : Option String) (status : RunStatus) (error : Option String)
      → Keeps Governed (finish h final status error)
  unfolding finish close
  Governed-finish final status error = search (governed_parts, Governed-judge_success) depth 20

  Governed-start :
      (now : ℕ) (task : String) (instructions : List Message)
      → Keeps Governed (start h now task instructions)
  unfolding start
  Governed-start now task instructions = search governed_parts depth 20

  Governed-checkpoint : Keeps Governed (checkpoint h)
  unfolding checkpoint
  Governed-checkpoint = search governed_parts depth 12

  Governed-emit : (event_type payload : String) → Keeps Governed (emit h event_type payload)
  unfolding emit
  Governed-emit event_type payload = search governed_rules depth 12

  after_call-Governed : (c : KernelCall) (k : Kernel) → Governed k → Governed (after_call h c k)
  unfolding after_call
  after_call-Governed (start_call now task instructions) k g =
      (Governed-start now task instructions).at k g
  after_call-Governed checkpoint_call k g = Governed-checkpoint.at k g
  after_call-Governed (emit_call event_type payload) k g = (Governed-emit event_type payload).at k g
  after_call-Governed (model_call now messages) k g = (Governed-call_model now messages).at k g
  after_call-Governed (tool_call now call) k g = (Governed-call_tool now call).at k g
  after_call-Governed (verify_call final) k g = (Governed-verify final).at k g
  after_call-Governed (finish_call final status error) k g =
      (Governed-finish final status error).at k g

  -- Whatever an orchestrator calls, in whatever order: each tool that the kernel has started is
  -- registered with the risk `read` and the effect class `read_only`, and the policy has allowed
  -- that call, if this holds of the trace at the beginning.
  pub after_calls-Governed :
      (calls : List (KernelCall)) (k : Kernel) → Governed k → Governed (after_calls h calls k)
  unfolding after_calls
  after_calls-Governed [] k g = g
  after_calls-Governed (c ∷ calls) k g =
      after_calls-Governed calls (after_call h c k) (after_call-Governed c k g)
