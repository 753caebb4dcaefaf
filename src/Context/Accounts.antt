-- ===== src/Context/Accounts.antt =====
-- `assemble` neither loses a message nor sends one twice.
use forgeharness.Common.{
  ℕ, ◌+◌, ◌-◌, ◌≤◌, ◌≡◌, refl, ap, sym, subst, Bool, true, false, not, String, Option, none, some,
  List, [], ◌∷◌, ◌++◌, length, any, is_some, Result, ok, raise, leb, ltb, if◌then◌else◌, ◌==◌,
  total, arith, join, Returned, Returned-if, Returned-choice, Returned-ok,
}
use forgeharness.Domain.{Message, system}
use forgeharness.Context.Units.{TurnUnit, turn_units, tokens_of, Role_eq}
use forgeharness.Context.Result.{
  ContextAssembler, AssembledContext, ContextDecision, decision, tool_source, estimate, result,
  messages_of, decisions_from, leading_system, after_system, spill_dropped, not_system_pinned,
  collected_pins, over_budget, dropped_part, summary_part,
}
use forgeharness.Context.Assembly.{
  Selection, included_of, dropped_of, room_of, summarized, summary_text, compact, required_units,
  selection, select_from, assemble_tail, assemble_units, assemble,
}
use forgeharness.Context.Selection.{
  unit_weight, total-messages_of, total-sent_messages, BeginsTurn, total-turn_units, total-system,
  total-required-optional,
}
use forgeharness.Context.Fits.{included-dropped}

-- One decision for each message in order, under its position, with its source and estimate.
abbrev pub AreDecided : ContextAssembler → ℕ → List Message → List ContextDecision → Type 0
AreDecided a n [] [] = Unit
AreDecided a n [] (d ∷ decisions) = ⊥
AreDecided a n (m ∷ messages) [] = ⊥
AreDecided a n (m ∷ messages) (d ∷ decisions) =
    (d.item_id ≡ join "-" "message" (a.decimal n))
    × (d.source ≡ tool_source m.role m.tool_name)
    × (d.estimated_tokens ≡ estimate a m)
    × AreDecided a (n + 1) messages decisions

-- By every weight of a message, what is sent and what is dropped are what was given, the pinned
-- messages and the summaries.
pub record IsAccounted (a : ContextAssembler) (messages pins : List Message) (r : AssembledContext)
    : Type 0 where
  pub dropped : List Message
  pub summaries : List Message
  pub balanced :
      (w : Message → ℕ)
      → total w r.messages + total w dropped ≡ total w messages + total w pins + total w summaries
  pub counted : r.dropped_messages ≡ length dropped
  pub one_summary : length summaries ≡ (if r.compacted then 1 else 0)
  pub estimated : r.estimated_tokens ≡ total (estimate a) r.messages
  pub decided : AreDecided a 0 messages r.decisions

length-total : (messages : List Message) → total (λ _. 1) messages ≡ length messages
length-total [] = refl
length-total (m ∷ messages) = omega (arith, length-total messages)

total-lengths :
    (units : List TurnUnit)
    → total (λ (u : TurnUnit). length u.messages) units ≡ length (messages_of units)
total-lengths [] = refl
total-lengths (u ∷ units) =
    omega
      (arith, total-lengths units, forgeharness.Common.length-append u.messages (messages_of units))

one_summary_of :
    (c : Option (Message × List TurnUnit)) → length (summary_part c) ≡ (if is_some c then 1 else 0)
one_summary_of none = refl
one_summary_of (some c) = refl

module _ (a : ContextAssembler) where
  decision-fields :
      (leading : ℕ) (kept : List TurnUnit) (objective : Option ℕ) (n : ℕ) (m : Message)
      → let d = decision a leading kept objective n m in
        (d.item_id ≡ join "-" "message" (a.decimal n))
        × (d.source ≡ tool_source m.role m.tool_name)
        × (d.estimated_tokens ≡ estimate a m)
  decision-fields leading kept objective n m = (ground arith, ground arith, ground arith)

  decisions_from-AreDecided :
      (leading : ℕ) (kept : List TurnUnit) (objective : Option ℕ) (n : ℕ) (messages : List Message)
      → AreDecided a n messages (decisions_from a leading kept objective n messages)
  decisions_from-AreDecided leading kept objective n [] = tt
  decisions_from-AreDecided leading kept objective n (m ∷ messages) =
      let (id, source, tokens) = decision-fields leading kept objective n m in
      (id, source, tokens, decisions_from-AreDecided leading kept objective (n + 1) messages)

  result-IsAccounted :
      (leading pinned : List Message) (included required : List TurnUnit)
      (c : Option (Message × List TurnUnit)) (original : List Message) (objective : Option ℕ)
      (reference : Option String)
      → ((w : Message → ℕ)
          → total w leading
              + total (unit_weight w) (dropped_part c)
              + total (unit_weight w) included
              + total (unit_weight w) required
            ≡ total w original)
      → IsAccounted a original pinned
          (result a leading pinned included required c original objective reference)
  unfolding result
  result-IsAccounted leading pinned included required c original objective reference h = record {
    dropped = messages_of (dropped_part c);
    summaries = summary_part c;
    balanced = λ w. omega (
      arith,
      h w,
      total-messages_of w (dropped_part c),
      total-sent_messages w leading pinned included required c objective,
    );
    counted = total-lengths (dropped_part c);
    one_summary = one_summary_of c;
    estimated = refl;
    decided = decisions_from-AreDecided (length leading) _ objective 0 original;
  }

  -- The turns of a selection are those of the conversation.
  abbrev Covers : Selection a → Type 0
  Covers s =
      (w : Message → ℕ)
      → total w s.leading + total (unit_weight w) s.required + total (unit_weight w) s.optional
        ≡ total w s.original

  summarized-IsAccounted :
      (s : Selection a) (reference : Option (Option String))
      → Covers s
      → Returned (IsAccounted a s.original s.pinned) (summarized a s reference)
  summarized-IsAccounted s none h = tt
  summarized-IsAccounted s (some reference) h =
      Returned-if (IsAccounted a s.original s.pinned)
        (ltb (room_of a s) (estimate a (summary_text a s reference))) over_budget
        (ok (
          result a s.leading s.pinned (included_of a s) s.required
            (some (summary_text a s reference, dropped_of a s)) s.original s.objective reference))
        (λ e.
          result-IsAccounted s.leading s.pinned (included_of a s) s.required
            (some (summary_text a s reference, dropped_of a s)) s.original s.objective reference
            (λ w. omega (arith, h w, included-dropped a (unit_weight w) s)))

  select_from-IsAccounted :
      (s : Selection a) → Covers s → Returned (IsAccounted a s.original s.pinned) (select_from a s)
  unfolding compact
  select_from-IsAccounted s h =
      Returned-choice (IsAccounted a s.original s.pinned)
        (leb (total tokens_of s.optional) s.remaining)
        (ok (result a s.leading s.pinned s.optional s.required none s.original s.objective none))
        (compact a s)
        (λ e.
          result-IsAccounted s.leading s.pinned s.optional s.required none s.original s.objective
            none (λ w. omega (arith, h w)))
        (λ e. summarized-IsAccounted s (spill_dropped a (dropped_of a s)) h)

  assemble_units-IsAccounted :
      (leading pinned : List Message) (units : List TurnUnit) (original : List Message)
      (base reserved : ℕ)
      → ((w : Message → ℕ) → total w leading + total (unit_weight w) units ≡ total w original)
      → Returned
          (IsAccounted a original pinned)
          (assemble_units a leading pinned units original base reserved)
  unfolding assemble_units
  assemble_units-IsAccounted leading pinned units original base reserved h =
      let s = selection a leading pinned units original base reserved in
      Returned-if (IsAccounted a original pinned)
        (ltb a.max_tokens (base + total tokens_of (required_units a units) + reserved)) over_budget
        (select_from a s)
        (λ e.
          select_from-IsAccounted s
            (λ w. omega (arith, h w, total-required-optional a (unit_weight w) units)))

  assemble_tail-IsAccounted :
      (messages pinned tail : List Message) (base reserved : ℕ)
      → tail ≡ after_system messages
      → BeginsTurn tail
      → Returned
          (IsAccounted a messages pinned)
          (assemble_tail a (leading_system messages) pinned tail messages base reserved)
  assemble_tail-IsAccounted messages pinned [] base reserved e h =
      Returned-if (IsAccounted a messages pinned) (ltb a.max_tokens (base + reserved)) over_budget
        (ok (result a (leading_system messages) pinned [] [] none messages none none))
        (λ _.
          result-IsAccounted (leading_system messages) pinned [] [] none messages none none
            (λ w. omega (arith, total-system w messages, ap (total w) e)))
  assemble_tail-IsAccounted messages pinned (m ∷ tail) base reserved e h =
      let leading = leading_system messages in
      assemble_units-IsAccounted leading pinned
        (turn_units (estimate a) (length leading) (m ∷ tail)) messages base reserved
        (λ w. omega (
          arith,
          total-system w messages,
          ap (total w) e,
          total-turn_units (estimate a) w (length leading) (m ∷ tail) h,
        ))

  -- For a conversation that begins with a turn after its system messages: what `assemble` returns
  -- sends each message as often as it was given, but for those that it counts as dropped, with the
  -- pinned messages added and one summary exactly where it reports a compaction; it decides on
  -- each message given, in order, by its position, source and estimate; and the tokens that it
  -- reports are the estimates of the messages that it sends.
  pub assemble-IsAccounted :
      (messages : List Message) (reserved : ℕ) (pinned : List Message) {r : AssembledContext}
      → BeginsTurn (after_system messages)
      → assemble a messages reserved pinned ≡ ok r
      → IsAccounted a messages (collected_pins a pinned) r
  unfolding assemble
  assemble-IsAccounted messages reserved pinned h e =
      let pins = collected_pins a pinned in
      Returned-ok (IsAccounted a messages pins) _
        (Returned-if (IsAccounted a messages pins)
          (any (λ (m : Message). not (m.role == system)) pins) not_system_pinned _
          (λ _. assemble_tail-IsAccounted messages pins (after_system messages) _ reserved refl h))
        e
