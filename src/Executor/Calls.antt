-- ===== src/Executor/Calls.antt =====
-- `authorize`, `dispatch` and `recover_call` of runtime/tool_executor.py.
use Prim.Native.Char.{code}
use Prim.Native.String.{String, count}
use forgeharness.Common.{
  ℕ, Bool, true, false, not, ◌&&◌, ◌||◌, Option, none, some, Result, ok, raise, pure, throw, guard,
  ◌>>=◌, ◌>>◌, leb, or_else, is_none, join, if◌then◌else◌, ◌==◌, ℕ_eq,
}
use forgeharness.Domain.{
  ToolEffectClass, read_only, non_idempotent, ToolEffectClass_eq, read, RiskLevel_eq, ToolOutput,
  ToolCall, ToolSpec, Usage, Error, process_crashed, bad_idempotency_key, shared_authority,
  unknown_tool, write_denied,
}
use forgeharness.Journal.{
  InvocationState, claimed, indeterminate, InvocationState_eq, InvocationRecord, RecoveryDecision,
  refuse_replay, RecoveryDecision_eq, decide_recovery, claim, mark_started, load,
  record_recovery_decision,
}
use forgeharness.Executor.Setting.{
  Executor, claiming, starting, recovering, Subject, Run, on_journal, emit, tool_context,
  invocation_claimed, invocation_started, recovery_decided, recovery_indeterminate,
}
use forgeharness.Executor.Attempt.{Job, run_attempts}

-- `[A-Za-z0-9_.:-]`
abbrev is_key_code : ℕ → Bool
is_key_code c =
    (leb b'A' c && leb c b'Z')
    || (leb b'a' c && leb c b'z')
    || (leb b'0' c && leb c b'9')
    || c == b'_'
    || c == b'.'
    || c == b':'
    || c == b'-'

abbrev all_key_codes : String → Bool
all_key_codes String.[] = true
all_key_codes (String.◌∷◌ c s) = is_key_code (code c) && all_key_codes s

-- `validate_idempotency_key`
unfoldable pub is_valid_key : String → Bool
is_valid_key s = leb 1 (count s) && leb (count s) 256 && all_key_codes s

-- `idempotency_key_for`
abbrev pub idempotency_key_for : String → String → String
idempotency_key_for run_id logical_call_id = join ":" run_id logical_call_id

-- `f"{task_id}:{call.id}"`
abbrev pub invocation_id_for : String → String → String
invocation_id_for task_id call_id = join ":" task_id call_id

-- `authorize`: the policy's decision, where the mode admits the tool at all
unfoldable pub authorize :
    {Decision : Type 0}
    → Executor
    → (String → ToolSpec → ToolCall → Decision)
    → ToolCall
    → String
    → Bool
    → Result Error Decision
authorize x evaluate call task_id only_reads = elim (x.registry call.name) [
  | none ↦ raise unknown_tool
  | some spec ↦
      if only_reads && (not (spec.risk == read) || not (spec.effect_class == read_only))
      then raise write_denied
      else ok (evaluate task_id spec call)
]

module _ (x : Executor) where
  abbrev pub effect_of : ToolCall → ToolEffectClass
  effect_of call = elim (x.registry call.name) [
    | some spec ↦ spec.effect_class
    | none ↦ non_idempotent
  ]

  abbrev pub call_subject : String → ToolCall → Subject
  call_subject task_id call = record {
    invocation_id = invocation_id_for task_id call.id;
    logical_call_id = call.id;
    tool = call.name;
    effect_class = effect_of call;
  }

  abbrev pub new_record : String → ToolCall → ℕ → InvocationRecord
  new_record task_id call revision = record {
    invocation_id = invocation_id_for task_id call.id;
    run_id = task_id;
    logical_call_id = call.id;
    tool_name = call.name;
    effect_class = effect_of call;
    args_digest = x.args_digest call.arguments;
    idempotency_key = idempotency_key_for task_id call.id;
    state = claimed;
    attempt_count = 0;
    claimed_at = x.clock claiming;
    started_at = none;
    finished_at = none;
    result = none;
    result_digest = none;
    result_size_bytes = 0;
    result_storage_kind = "inline";
    error_code = none;
    checkpoint_revision = revision;
    recovery_decision = none;
    version = 1;
  }

  abbrev pub job_for : String → ToolCall → Option String → Usage → ℕ → InvocationRecord → Job
  job_for task_id call workspace usage revision started = record {
    call = call;
    invocation = new_record task_id call revision;
    started = started;
    workspace = workspace;
    usage = usage;
    task_id = task_id;
    effect_class = effect_of call;
  }

  -- `_dispatch_journalled` with a journal, from the claim on
  unfoldable pub dispatch_journalled :
      String → ToolCall → Option String → Usage → ℕ → Run ToolOutput
  dispatch_journalled task_id call workspace usage revision = do
    on_journal (claim (new_record task_id call revision))
    emit (invocation_claimed (call_subject task_id call))
    started ←
        on_journal
          (mark_started x.codec (x.clock starting) (invocation_id_for task_id call.id) revision)
    emit (invocation_started (call_subject task_id call) started.attempt_count)
    run_attempts x (job_for task_id call workspace usage revision started)

  abbrev pub answer : Option ToolOutput → Run ToolOutput
  answer none = throw process_crashed
  answer (some o) = pure o

  -- `_dispatch_journalled`; `has_journal` says whether the executor was given a journal.
  unfoldable pub dispatch :
      Bool → String → ToolCall → Option String → Usage → ℕ → Option String → Run ToolOutput
  dispatch has_journal task_id call workspace usage revision key = do
    guard (is_none key || is_valid_key (or_else key "")) bad_idempotency_key
    guard (is_none key || not has_journal) shared_authority
    (if has_journal
        then dispatch_journalled task_id call workspace usage revision
        else answer (
            x.dispatch call (
              tool_context x task_id workspace usage (some call.id)
                (some (or_else key (idempotency_key_for task_id call.id))))))

  abbrev pub recovered_state : InvocationRecord → InvocationState
  recovered_state rec = if decide_recovery rec == refuse_replay then indeterminate else rec.state

  abbrev pub record_subject : InvocationRecord → Subject
  record_subject rec = record {
    invocation_id = rec.invocation_id;
    logical_call_id = rec.logical_call_id;
    tool = rec.tool_name;
    effect_class = rec.effect_class;
  }

  unfoldable pub announce : InvocationRecord → Bool → Run (Unit {0})
  announce rec true = emit (recovery_indeterminate (record_subject rec) rec.attempt_count)
  announce rec false = pure tt

  -- the record with the decision, and the decision: `RecoveryOutcome`
  unfoldable pub recover_record : InvocationRecord → Run (InvocationRecord × RecoveryDecision)
  recover_record rec = do
    on_journal (
        record_recovery_decision (x.clock recovering) rec.invocation_id (recovered_state rec)
          (decide_recovery rec))
    emit (recovery_decided (record_subject rec) rec.attempt_count rec.state (decide_recovery rec))
    announce rec (recovered_state rec == indeterminate)
    pure (
      record rec { state = recovered_state rec; recovery_decision = some (decide_recovery rec) },
      decide_recovery rec,
    )

  unfoldable pub recover_loaded :
      Option InvocationRecord → Run (Option (InvocationRecord × RecoveryDecision))
  recover_loaded none = pure none
  recover_loaded (some rec) = do outcome ← recover_record rec; pure (some outcome)

  unfoldable pub recover_call : String → String → Run (Option (InvocationRecord × RecoveryDecision))
  recover_call task_id logical_call_id = do
    loaded ← on_journal (load x.codec task_id logical_call_id)
    recover_loaded loaded

-- `RecoveryOutcome.blocks_resume`
abbrev pub blocks_resume : InvocationRecord × RecoveryDecision → Bool
blocks_resume outcome = outcome.1 == refuse_replay
