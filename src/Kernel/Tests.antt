-- ===== src/Kernel/Tests.antt =====
-- A kernel of sdk/kernel.py that asks the model, runs a read-only tool and finishes.
use native.Mathlib.Decide.{ℕ_discrete}
use forgeharness.Common.{
  ◌≡◌, refl, true, false, List, [], ◌∷◌, none, some, ok, raise, String_discrete, if◌then◌else◌,
  ◌==◌, Result, ◌⊎◌, String, String_eq, ℕ_eq, length,
}
use forgeharness.Domain.{
  RunResult, running, succeeded, run_failed, RunStatus-discrete, RunStatus_eq, RunBudget, ToolCall,
  ToolOutput, read, write, read_only, non_idempotent, RiskLevel-discrete, ToolEffectClass-discrete,
}
use forgeharness.Checkpoint
use forgeharness.Checkpoint.{write_snapshot}
use forgeharness.Executor
use forgeharness.Executor.{authorize}
use forgeharness.Agent
use forgeharness.Agent.{
  Runtime, final_action, prepared, allow, PolicyDecisionType-discrete, invoke_model_once,
  invoke_prepared, dispatch_model_once, settle_reply,
}
use forgeharness.Kernel.{
  Host, Kernel, ensure_active, check_deadline, save, save_to_store, start, call_model, call_tool,
  run_decided, run_tool, verify, close, finish, KernelCall, start_call, model_call, tool_call,
  after_call, after_calls, KernelError,
}
use forgeharness.Kernel.Refusals.{IsKeyed}
use forgeharness.Kernel.Closed.{IsVerified, finish-stands}
use forgeharness.Kernel.ReadOnly.{Governed, after_calls-Governed}

abbrev answer : ToolOutput
answer = record {
  is_ok = true;
  content = "two lines";
  error = none;
  metadata = "{}";
  usage = none;
  receipt = none;
}

abbrev budget : RunBudget
budget = record {
  max_steps = 5;
  max_tool_calls = 3;
  max_input_tokens = 1000;
  max_output_tokens = 1000;
  max_context_tokens = 4000;
  reserve_output_tokens = 0;
  request_overhead_tokens = 0;
  max_protocol_violations = 2;
  max_attempts_per_call = 2;
  initial_backoff_ms = 1;
  backoff_numerator = 2;
  backoff_denominator = 1;
  max_backoff_ms = 8;
  max_wall_ms = none;
  tool_timeout_ms = 30000;
  max_planner_retries = 1;
}

-- the tool `read` only reads, and every other tool writes
abbrev runtime : Runtime
runtime = record {
  budget = budget;
  prepare = λ _ _ request. prepared request;
  decide = λ _ _. ok (record { action = final_action "two"; input_tokens = 10; output_tokens = 5 });
  verifier = none;
  registry = λ name. some (
      if name == "read"
      then record { name = name; risk = read; effect_class = read_only; timeout_ms = 1000 }
      else record { name = name; risk = write; effect_class = non_idempotent; timeout_ms = 1000 });
  evaluate = λ _ _ _ _. record { type = allow; reason = "" };
  dispatch = λ _ _. some answer;
  board_after = λ _ _ b. b;
  replay_board = λ _ _. ok (record { todos = []; revision = 0 });
  has_checkpoints = true;
  has_journal = false;
  max_todo_rejections = 3;
  compress = λ s. s;
  pinned_messages = λ _. [];
  codec = record { sha256 = λ s. s; dump = λ _. "{}"; parse = λ _. none };
  args_digest = λ s. s;
  decimal = λ _. "1";
  seconds = λ _. "1";
  journal_text = λ _. "journal";
  as_observation = λ f. f.message;
  clock = λ _. 7;
  tool_clock = λ _ _. 7;
}

abbrev host : Host
host = record {
  runtime = runtime;
  verifier = λ request. ok (record {
    passed = length request.tool_results == 1;
    reason = "lines counted";
    evidence = [];
  });
  context = record {
    application_id = "app";
    application_version = "1";
    run_id = "r1";
    session_id = "s1";
    actor = record { id = "u1"; roles = [] };
    scope = record { tenant_id = "t"; resources = []; workspace = none };
    policy_version = "1";
    correlation_id = "c";
    contract_version = 1;
  };
  task_id = "t1";
  workspace = none;
}

abbrev new_kernel : Kernel
new_kernel = record {
  checkpoints = [];
  trace = [];
  usage = record { steps = 0; tool_calls = 0; input_tokens = 0; output_tokens = 0 };
  messages = [];
  evidence = [];
  started = false;
  finished = false;
  checkpoint_revision = 0;
  deadline = none;
}

abbrev call_of : String → ToolCall
call_of name = record { id = "c1"; name = name; arguments = "{}" }

-- the second tool writes and is refused
abbrev script : List KernelCall
script =
    start_call 0 "count the lines" []
    ∷ model_call 1 none
    ∷ tool_call 2 (call_of "read")
    ∷ tool_call 3 (call_of "remove")
    ∷ []

abbrev used : Kernel
used = after_calls host script new_kernel

abbrev no_result : RunResult
no_result = Agent.result_of "" run_failed [] new_kernel.usage 0

abbrev finished_of : Result KernelError RunResult × Kernel → RunResult × Kernel
finished_of (ok r, k) = (r, k)
finished_of (raise e, k) = (no_result, k)

-- a kernel that has started and has run the tool once
abbrev ready : Kernel
ready = record new_kernel {
  checkpoints =
      record {
        task_id = "t1";
        revision = 1;
        payload = Agent.result_of "t1" running [] new_kernel.usage 1;
      }
      ∷ [];
  evidence = Agent.evidence_of (call_of "read") answer ∷ [];
  started = true;
  checkpoint_revision = 1;
}

abbrev ended : Result KernelError RunResult × Kernel
ended = finish host (some "two") succeeded none ready

after_calls-Governed_example : Governed host used
after_calls-Governed_example = after_calls-Governed host script new_kernel tt

one_evidence : length used.evidence ≡ 1
unfolding after_calls after_call start save save_to_store Checkpoint.save write_snapshot
    ensure_active check_deadline call_model invoke_model_once invoke_prepared dispatch_model_once
    settle_reply call_tool authorize run_decided run_tool Executor.dispatch String_discrete
    ℕ_discrete RiskLevel-discrete ToolEffectClass-discrete PolicyDecisionType-discrete
one_evidence = refl

ready-IsKeyed : IsKeyed ready
ready-IsKeyed = (refl, tt)

ended-ok : ended ≡ (ok (finished_of ended).0, (finished_of ended).1)
unfolding save save_to_store Checkpoint.save write_snapshot ensure_active String_discrete ℕ_discrete
    RunStatus-discrete verify close finish
ended-ok = refl

finish-stands_example :
    (Checkpoint.load host.task_id (after_calls host script (finished_of ended).1).checkpoints
      ≡ some (finished_of ended).0)
    × ((IsVerified host (finished_of ended).1.evidence (finished_of ended).0.final_output
          × ((finished_of ended).0.status ≡ succeeded))
        ⊎ (((finished_of ended).0.status == succeeded) ≡ false))
finish-stands_example =
    finish-stands host (some "two") succeeded none ready script refl ready-IsKeyed ended-ok

ended_well : (finished_of ended).0.status ≡ succeeded
unfolding save save_to_store Checkpoint.save write_snapshot ensure_active String_discrete ℕ_discrete
    RunStatus-discrete verify close finish
ended_well = refl
