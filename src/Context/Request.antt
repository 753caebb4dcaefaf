-- ===== src/Context/Request.antt =====
-- context/request_budget.py: the estimate of a whole model request, and the loop that reassembles
-- the conversation until the request is admitted.
use forgeharness.Common.{
  ℕ, zero, suc, ◌+◌, ◌-◌, ◌≤◌, ◌≡◌, refl, min, max, String, Bool, true, false, Option, none, some,
  List, [], ◌∷◌, ◌++◌, Result, ok, raise, Action, throw, pure, modify, lift, ◌>>=◌, ◌>>◌,
  if◌then◌else◌, ◌==◌, ℕ_eq, leb, length, arith, Returned, continue, length-append, subst, sym,
}
use forgeharness.Domain.{Message, RunBudget}
use forgeharness.Context.Compiler.{character_estimate}
use forgeharness.Context.Result.{ContextAssembler, AssembledContext, ContextError, over_budget}
use forgeharness.Context.Assembly.{assemble}
use forgeharness.Context.Fits.{assemble-le}

-- what `estimate_request` reads of a `PreparedModelCall`: its JSON texts and the limits declared
pub record PreparedModelCall : Type 0 where
  pub payload_json : String
  pub messages_json : String
  pub tools_json : String
  pub options_json : String
  pub context_window : Option ℕ
  pub provider_overhead_tokens : Option ℕ
  pub output_limit : Option ℕ

pub record RequestBudgetEstimate : Type 0 where
  pub input_tokens : ℕ
  pub message_tokens : ℕ
  pub tool_tokens : ℕ
  pub option_tokens : ℕ
  pub overhead_tokens : ℕ
  pub reserved_output_tokens : ℕ
  pub projected_tokens : ℕ
  pub limit : ℕ
  pub admitted : Bool

-- `n or default`
abbrev pub or_number : Option ℕ → ℕ → ℕ
or_number none default = default
or_number (some n) default = if n == 0 then default else n

unfoldable pub estimate_request : PreparedModelCall → RunBudget → RequestBudgetEstimate
estimate_request p budget =
    let input = character_estimate p.payload_json in
    let overhead = budget.request_overhead_tokens + or_number p.provider_overhead_tokens 0 in
    let reserved = max budget.reserve_output_tokens (or_number p.output_limit 0) in
    let limit =
      min budget.max_context_tokens (or_number p.context_window budget.max_context_tokens) in
    let projected = input + overhead + reserved in
    record {
      input_tokens = input;
      message_tokens = character_estimate p.messages_json;
      tool_tokens = character_estimate p.tools_json;
      option_tokens = character_estimate p.options_json;
      overhead_tokens = overhead;
      reserved_output_tokens = reserved;
      projected_tokens = projected;
      limit = limit;
      admitted = leb projected limit;
    }

-- The trace: the estimates of the requests that were rejected.
abbrev pub Preparing : Type 0 → Type 0
Preparing A = Action (List RequestBudgetEstimate) ContextError A

pub record PreparedRequest : Type 0 where
  pub assembled : AssembledContext
  pub prepared : PreparedModelCall
  pub estimate : RequestBudgetEstimate

-- The model's `prepare_model_call` on the messages of a request, the budget, the assembler, and the
-- messages of the conversation.
module _ (prepare : List Message → PreparedModelCall) (budget : RunBudget) (a : ContextAssembler)
    (messages : List Message) where
  abbrev next_reserved : ℕ → RequestBudgetEstimate → AssembledContext → ℕ
  next_reserved reserved e r =
      max (reserved + 1)
        (budget.max_context_tokens - e.limit + e.projected_tokens - r.estimated_tokens)

  abbrev considered : AssembledContext → PreparedRequest
  considered r =
      let p = prepare r.messages in
      record { assembled = r; prepared = p; estimate = estimate_request p budget }

  abbrev assemble_again :
      (AssembledContext → Preparing PreparedRequest) → AssembledContext → Preparing PreparedRequest
  assemble_again again assembled = do
    modify (λ trace. trace ++ (considered assembled).estimate ∷ [])
    again assembled

  -- the body of the loop after `assemble`: `again` is the next round
  abbrev pub consider :
      (AssembledContext → Preparing PreparedRequest) → AssembledContext → Preparing PreparedRequest
  consider again assembled =
      let request = considered assembled in
      if request.estimate.admitted then pure request else assemble_again again assembled

  -- the loop of `prepare_request`, with the rounds that are left
  unfoldable pub prepare_rounds : ℕ → ℕ → Preparing PreparedRequest
  prepare_rounds zero reserved = throw over_budget
  prepare_rounds (suc rounds) reserved = do
    assembled ← lift (assemble a messages reserved [])
    consider (λ r. prepare_rounds rounds (next_reserved reserved (considered r).estimate r))
        assembled

  -- `prepare_request`
  unfoldable pub prepare_request : Preparing PreparedRequest
  prepare_request = prepare_rounds 3 0

  -- An admitted request: its call is the one prepared from the messages assembled, its estimate is
  -- that of this call, and it fits the budget; so do the messages the assembler's window.
  pub record IsAdmitted (r : PreparedRequest) : Type 0 where
    pub prepared_from : r.prepared ≡ prepare r.assembled.messages
    pub estimated : r.estimate ≡ estimate_request (prepare r.assembled.messages) budget
    pub projected_le : r.estimate.projected_tokens ≤ budget.max_context_tokens
    pub assembled_le : r.assembled.estimated_tokens ≤ a.max_tokens

  abbrev Ended : ℕ → Result ContextError PreparedRequest × List RequestBudgetEstimate → Type 0
  Ended n r = Returned (λ p. IsAdmitted p × (suc (length r.1) ≤ n)) r.0

  considered-IsAdmitted :
      (reserved : ℕ) (r : AssembledContext)
      → assemble a messages reserved [] ≡ ok r
      → (considered r).estimate.admitted ≡ true
      → IsAdmitted (considered r)
  unfolding estimate_request
  considered-IsAdmitted reserved r e h =
      let le = assemble-le a messages reserved [] e in
      record {
        prepared_from = refl;
        estimated = refl;
        projected_le = ground arith;
        assembled_le = omega arith;
      }

  Ended-if :
      (n : ℕ) (b : Bool) (m k : Preparing PreparedRequest) (trace : List RequestBudgetEstimate)
      → (b ≡ true → Ended n (m trace))
      → Ended n (k trace)
      → Ended n ((if b then m else k) trace)
  Ended-if n true m k trace hm hk = hm refl
  Ended-if n false m k trace hm hk = hk

  continue-Ended :
      (rounds reserved : ℕ) (r : Result ContextError AssembledContext)
      (again : AssembledContext → Preparing PreparedRequest) (trace : List RequestBudgetEstimate)
      → assemble a messages reserved [] ≡ r
      → ((c : AssembledContext) (longer : List RequestBudgetEstimate)
          → Ended (length longer + rounds) (again c longer))
      → Ended (length trace + suc rounds) (continue r (consider again) trace)
  continue-Ended rounds reserved (raise e) again trace h ih = tt
  continue-Ended rounds reserved (ok c) again trace h ih =
      let longer = trace ++ (considered c).estimate ∷ [] in
      let one_more = length-append trace ((considered c).estimate ∷ []) in
      let n : length trace + suc rounds ≡ length longer + rounds = omega arith in
      Ended-if (length trace + suc rounds) (considered c).estimate.admitted (pure (considered c))
        (assemble_again again c) trace (λ e. (considered-IsAdmitted reserved c h e, omega arith))
        (subst (λ k. Ended k (again c longer)) (sym n) (ih c longer))

  prepare_rounds-Ended :
      (rounds reserved : ℕ) (trace : List RequestBudgetEstimate)
      → Ended (length trace + rounds) (prepare_rounds rounds reserved trace)
  unfolding prepare_rounds
  prepare_rounds-Ended zero reserved trace = tt
  prepare_rounds-Ended (suc rounds) reserved trace =
      continue-Ended rounds reserved (assemble a messages reserved [])
        (λ r. prepare_rounds rounds (next_reserved reserved (considered r).estimate r)) trace refl
        (λ c longer.
          prepare_rounds-Ended rounds (next_reserved reserved (considered c).estimate c) longer)

  -- A request that `prepare_request` returns comes with the call prepared from its messages and with
  -- the estimate of that call; what that call is projected to take is within the budget's context tokens, the
  -- messages are within the assembler's window, and at most two requests were rejected before it.
  pub prepare_request-IsAdmitted :
      {request : PreparedRequest} {trace : List RequestBudgetEstimate}
      → prepare_request [] ≡ (ok request, trace)
      → IsAdmitted request × (length trace ≤ 2)
  unfolding prepare_request
  prepare_request-IsAdmitted e =
      let (admitted, few) = subst (Ended 3) e (prepare_rounds-Ended 3 0 []) in
      (admitted, omega (arith, few))
