-- ===== src/Agent/ModelCall.antt =====
-- `invoke_model_once` of runtime/model_call.py, without an execution backend: one governed model
-- call and what it charges.
use forgeharness.Common.{
  ℕ, ◌+◌, String, Bool, true, false, Option, none, some, [], ◌∷◌, Result, ok, raise, pure, gets,
  ◌>>=◌, ◌>>◌, or_else, if◌then◌else◌,
}
use forgeharness.Domain.{Usage}
use forgeharness.Agent.Setting.{
  Runtime, Run, World, log, ModelRequest, ModelResult, ModelFault, Preparation, prepared, too_large,
  not_prepared, context_overflow, model_preparation_failed, model_request, model_failed,
  model_action,
}
use forgeharness.Agent.Texts.{concat}

pub data ModelCallKind : Type 0 where
  success : ModelResult → ModelCallKind
  overflowed preparation_failed : String → ModelCallKind
  failed : ModelFault → ModelCallKind
  violated : ModelFault → ModelCallKind

-- One branch for each kind, with what is meaningful on it.
pub record ModelCallOutcome : Type 0 where
  pub kind : ModelCallKind
  pub usage : Usage
  pub response_received : Bool

abbrev pub reported : Option (Option ℕ × Option ℕ) → Option ℕ × Option ℕ
reported none = (none, none)
reported (some u) = u

abbrev pub rejected_input_tokens : ModelFault → ℕ
rejected_input_tokens e = or_else (reported e.used).0 0

abbrev pub rejected_output_tokens : ModelFault → ℕ
rejected_output_tokens e = or_else (reported e.used).1 0

abbrev pub charged : Usage → ℕ → ℕ → Usage
charged usage input output = record {
  steps = usage.steps + 1;
  tool_calls = usage.tool_calls;
  input_tokens = usage.input_tokens + input;
  output_tokens = usage.output_tokens + output;
}

abbrev pub failed_outcome : Usage → ModelFault → ModelCallOutcome
failed_outcome usage e =
    if e.recoverable
    then record {
      kind = violated e;
      usage = charged usage (rejected_input_tokens e) (rejected_output_tokens e);
      response_received = true;
    }
    else record { kind = failed e; usage = usage; response_received = e.is_protocol_error }

module _ (x : Runtime) (usage : Usage) where
  unfoldable pub settle_reply : Result ModelFault ModelResult → Run ModelCallOutcome
  settle_reply (raise e) = do log (model_failed e.name e.recoverable); pure (failed_outcome usage e)
  settle_reply (ok r) = do
    let after = charged usage r.input_tokens r.output_tokens
    log (model_action r.action after)
    pure (record { kind = success r; usage = after; response_received = true })

  unfoldable pub dispatch_model_once : ModelRequest → Run ModelCallOutcome
  dispatch_model_once request = settle_reply (x.decide usage.steps request)

  unfoldable pub invoke_prepared : Preparation → Run ModelCallOutcome
  invoke_prepared (too_large text) = do
    log context_overflow
    pure (record {
      kind = overflowed (concat ("context budget exceeded: " ∷ text ∷ []));
      usage = usage;
      response_received = false;
    })
  invoke_prepared not_prepared = do
    log model_preparation_failed
    pure (record {
      kind = preparation_failed "model request preparation failed";
      usage = usage;
      response_received = false;
    })
  invoke_prepared (prepared request) = do log model_request; dispatch_model_once request

  -- `prepare_model_once` and, where it succeeds, `dispatch_model_once`
  unfoldable pub invoke_model_once : ModelRequest → Run ModelCallOutcome
  invoke_model_once request = do
    pinned ← gets (λ (w : World). x.pinned_messages w.todos)
    invoke_prepared (x.prepare usage.steps pinned request)
