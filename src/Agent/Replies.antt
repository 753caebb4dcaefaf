-- ===== src/Agent/Replies.antt =====
-- Where a model call succeeds, its action is the model's reply to the request that was prepared
-- (runtime/model_call.py).
use forgeharness.Common.{◌≡◌, refl, String, true, false, List, Result, ok, raise, continue}
use forgeharness.Domain.{Usage, Message}
use forgeharness.Agent.Setting.{
  Runtime, Run, World, AgentError, ModelRequest, ModelResult, ModelFault, Preparation, prepared,
  too_large, not_prepared,
}
use forgeharness.Agent.Pieces.{Turn}
use forgeharness.Agent.ModelCall.{
  ModelCallKind, success, ModelCallOutcome, failed_outcome, settle_reply, dispatch_model_once,
  invoke_prepared, invoke_model_once,
}
use forgeharness.Agent.Earning.{IsReplied, Ending, OnEnd}
use forgeharness.Domain.{RunResult}

module _ (x : Runtime) (task : String) where
  abbrev pub IsReply : List Message → ModelCallKind → Type 0
  IsReply messages (success r) = IsReplied x task messages r.action
  IsReply messages _ = Unit

  abbrev AllReplies : List Message → Result AgentError ModelCallOutcome → Type 0
  AllReplies messages (ok outcome) = IsReply messages outcome.kind
  AllReplies messages (raise e) = Unit

  module _ (usage : Usage) (messages : List Message) where
    failed_outcome-IsReply : (e : ModelFault) → IsReply messages (failed_outcome usage e).kind
    failed_outcome-IsReply e =
        elim e.recoverable
          as (λ b. IsReply messages (
            let o : ModelCallOutcome = failed_outcome usage (record e { recoverable = b }) in
            o.kind)) [ true ↦ tt | false ↦ tt ]

    settle_reply-IsReply :
        (pinned : List Message) (request : ModelRequest) (r : Result ModelFault ModelResult)
        (w : World)
        → x.prepare usage.steps pinned (record { task_id = task; messages = messages })
          ≡ prepared request
        → x.decide usage.steps request ≡ r
        → AllReplies messages (settle_reply x usage r w).0
    unfolding settle_reply
    settle_reply-IsReply pinned request (raise e) w asked replied = failed_outcome-IsReply e
    settle_reply-IsReply pinned request (ok r) w asked replied = record {
      usage = usage;
      pinned = pinned;
      request = request;
      result = r;
      asked = asked;
      replied = replied;
      action = refl;
    }

    invoke_prepared-IsReply :
        (pinned : List Message) (p : Preparation) (w : World)
        → x.prepare usage.steps pinned (record { task_id = task; messages = messages }) ≡ p
        → AllReplies messages (invoke_prepared x usage p w).0
    unfolding invoke_prepared dispatch_model_once
    invoke_prepared-IsReply pinned (too_large text) w asked = tt
    invoke_prepared-IsReply pinned not_prepared w asked = tt
    invoke_prepared-IsReply pinned (prepared request) w asked =
        settle_reply-IsReply pinned request _ _ asked refl

    invoke_model_once-IsReply :
        (w : World)
        → AllReplies messages
            (invoke_model_once x usage (record { task_id = task; messages = messages }) w).0
    unfolding invoke_model_once
    invoke_model_once-IsReply w = invoke_prepared-IsReply (x.pinned_messages w.todos) _ w refl

  module _ (Q : RunResult → World → Type 0) where
    after_reply :
        (messages : List Message) (r : Result AgentError ModelCallOutcome)
        (f : ModelCallOutcome → Run Turn) (w : World)
        → AllReplies messages r
        → ((outcome : ModelCallOutcome) → IsReply messages outcome.kind → Ending Q (f outcome))
        → OnEnd Q (continue r f w)
    after_reply messages (ok outcome) f w given h = (h outcome given).at w
    after_reply messages (raise e) f w given h = tt

    -- What is made of a model call may use that a success is the model's reply.
    pub Ending-reply :
        (usage : Usage) (messages : List Message) (f : ModelCallOutcome → Run Turn) (w : World)
        → ((outcome : ModelCallOutcome) → IsReply messages outcome.kind → Ending Q (f outcome))
        → let (r, w') =
            invoke_model_once x usage (record { task_id = task; messages = messages }) w in
          OnEnd Q (continue r f w')
    Ending-reply usage messages f w h =
        after_reply messages _ f _ (invoke_model_once-IsReply usage messages w) h
