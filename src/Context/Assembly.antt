-- ===== src/Context/Assembly.antt =====
-- `ContextAssembler.assemble` of context/assembly.py: which messages of a conversation a request sends
-- verbatim, and which it folds into a summary. Sizes are compared on the natural numbers, so a
-- difference that Python lets go below 0 is written as a sum on the other side.
use forgeharness.Common.{
  ℕ, ◌+◌, ◌-◌, ◌*◌, min, max, String, Bool, not, ◌&&◌, Option, none, some, List, [], ◌∷◌, ◌++◌,
  Result, ok, raise, length, ltb, leb, if◌then◌else◌, ◌==◌, ℕ_eq, String_eq, any, take, drop, total,
}
use forgeharness.Domain.{Message, system}
use forgeharness.Context.Summary.{summarize, min_summary_chars}
use forgeharness.Context.Units.{TurnUnit, turn_units, newest_units_within, tokens_of, Role_eq}
use forgeharness.Context.Result.{
  AssembledContext, ContextAssembler, ContextError, after_system, collected_pins, estimate,
  from_end, is_objective, leading_system, messages_of, not_system_pinned, over_budget, result,
  spill_dropped, spill_failed, system_message,
}

module _ (a : ContextAssembler) where
  -- What `assemble` has computed when it compacts.
  pub record Selection : Type 0 where
    pub leading : List Message
    pub pinned : List Message
    pub required : List TurnUnit
    pub optional : List TurnUnit
    pub objective : Option ℕ
    pub original : List Message
    pub remaining : ℕ

  abbrev pub summary_of : List TurnUnit → ℕ → Option String → Message
  summary_of units chars reference =
      system_message (summarize a.decimal (messages_of units) chars reference)

  abbrev pub included_of : Selection → List TurnUnit
  included_of s =
      let reserve = estimate a (summary_of s.optional a.summary_chars none) in
      newest_units_within s.optional (s.remaining - reserve)

  abbrev pub dropped_of : Selection → List TurnUnit
  dropped_of s = take (length s.optional - length (included_of s)) s.optional

  abbrev pub room_of : Selection → ℕ
  room_of s = s.remaining - total tokens_of (included_of s)

  -- one token of headroom is left for the newline of the estimate a
  abbrev pub summary_text : Selection → Option String → Message
  summary_text s reference =
      summary_of (dropped_of s) (min a.summary_chars (max min_summary_chars ((room_of s - 1) * 4)))
        reference

  abbrev pub summarized : Selection → Option (Option String) → Result ContextError AssembledContext
  summarized s none = raise spill_failed
  summarized s (some reference) =
      let summary = summary_text s reference in
      if ltb (room_of s) (estimate a summary)
      then raise over_budget
      else ok (
          result a s.leading s.pinned (included_of s) s.required (some (summary, dropped_of s))
            s.original s.objective reference)

  -- the rest of `assemble` where the optional turns do not all fit
  unfoldable pub compact : Selection → Result ContextError AssembledContext
  compact s = summarized s (spill_dropped a (dropped_of s))

  abbrev pub has_objective : List TurnUnit → Bool
  has_objective units = a.pin_task && ltb a.min_recent_units (length units) && is_objective units

  -- the turns that every request keeps
  abbrev pub required_units : List TurnUnit → List TurnUnit
  required_units units =
      let recent = drop (from_end (length units) a.min_recent_units) units in
      if has_objective units then take 1 units ++ recent else recent

  abbrev pub optional_units : List TurnUnit → List TurnUnit
  optional_units units =
      drop (if has_objective units then 1 else 0)
        (take (from_end (length units) a.min_recent_units) units)

  abbrev pub selection :
      List Message → List Message → List TurnUnit → List Message → ℕ → ℕ → Selection
  selection leading pinned units original base reserved = record {
    leading = leading;
    pinned = pinned;
    required = required_units units;
    optional = optional_units units;
    objective = if has_objective units then some (length leading) else none;
    original = original;
    remaining = a.max_tokens - reserved - (base + total tokens_of (required_units units));
  }

  abbrev pub select_from : Selection → Result ContextError AssembledContext
  select_from s =
      if leb (total tokens_of s.optional) s.remaining
      then ok (result a s.leading s.pinned s.optional s.required none s.original s.objective none)
      else compact s

  -- `assemble` from the turns
  unfoldable pub assemble_units :
      List Message
      → List Message
      → List TurnUnit
      → List Message
      → ℕ
      → ℕ
      → Result ContextError AssembledContext
  assemble_units leading pinned units original base reserved =
      if ltb a.max_tokens (base + total tokens_of (required_units units) + reserved)
      then raise over_budget
      else select_from (selection leading pinned units original base reserved)

  abbrev pub assemble_tail :
      List Message
      → List Message
      → List Message
      → List Message
      → ℕ
      → ℕ
      → Result ContextError AssembledContext
  assemble_tail leading pinned [] original base reserved =
      if ltb a.max_tokens (base + reserved)
      then raise over_budget
      else ok (result a leading pinned [] [] none original none none)
  assemble_tail leading pinned (m ∷ tail) original base reserved =
      assemble_units leading pinned (turn_units (estimate a) (length leading) (m ∷ tail)) original
        base reserved

  -- `assemble`
  unfoldable pub assemble : List Message → ℕ → List Message → Result ContextError AssembledContext
  assemble messages reserved pinned =
      let pins = collected_pins a pinned in
      let leading = leading_system messages in
      if any (λ (m : Message). not (m.role == system)) pins
      then raise not_system_pinned
      else assemble_tail leading pins (after_system messages) messages
          (total (estimate a) leading + total (estimate a) pins) reserved
