-- ===== src/Context/Result.antt =====
-- The messages and the manifest of a request, from the turns that are kept (context/assembly.py).
use forgeharness.Common.{
  ℕ, ◌+◌, ◌-◌, String, Bool, true, false, not, ◌&&◌, Option, none, some, List, [], ◌∷◌, ◌++◌,
  map_option, length, ltb, leb, if◌then◌else◌, ◌==◌, ℕ_eq, String_eq, or_else, any, select, total,
  sort_by, join, join_all, is_some,
}
use forgeharness.Domain.{Message, MessageRole, system, user, ToolCall}
use forgeharness.Context.Summary.{role_value}
use forgeharness.Context.Units.{TurnUnit, Role_eq}

-- A `ContextBudgetError`, the `ValueError` on pinned messages, and the `SpillError`s.
pub data ContextError : Type 0 where
  over_budget not_system_pinned spill_failed : ContextError

pub record ContextDecision : Type 0 where
  pub item_id : String
  pub source : String
  pub estimated_tokens : ℕ
  pub included : Bool
  pub reason : String

pub record AssembledContext : Type 0 where
  pub messages : List Message
  pub estimated_tokens : ℕ
  pub compacted : Bool
  pub dropped_messages : ℕ
  pub decisions : List ContextDecision
  pub pinned_messages : ℕ
  pub compaction_ref : Option String

pub record ContextAssembler : Type 0 where
  pub max_tokens : ℕ
  -- `TokenEstimator.estimate`
  pub estimator : String → ℕ
  pub min_recent_units : ℕ
  pub summary_chars : ℕ
  pub pin_task : Bool
  pub pinned : Option (List Message)
  -- `MessageSpill.store`: a reference, or a `SpillError`
  pub spill : Option (List Message → Option String)
  -- `json.dumps` of a call's arguments, with sorted keys
  pub dumps : String → String
  pub decimal : ℕ → String

abbrev pub bind_spill : Option (List Message → Option String) → ContextAssembler → ContextAssembler
bind_spill spill a = record a { spill = spill }

abbrev pub bind_pinned : Option (List Message) → ContextAssembler → ContextAssembler
bind_pinned pinned a = record a { pinned = pinned }

abbrev pub leading_system : List Message → List Message
leading_system [] = []
leading_system (m ∷ messages) = if m.role == system then m ∷ leading_system messages else []

abbrev pub after_system : List Message → List Message
after_system [] = []
after_system (m ∷ messages) = if m.role == system then after_system messages else m ∷ messages

abbrev pub messages_of : List TurnUnit → List Message
messages_of [] = []
messages_of (u ∷ units) = u.messages ++ messages_of units

-- the index in `units[n - k :]`, which Python counts from the end where it is negative
abbrev pub from_end : ℕ → ℕ → ℕ
from_end n k = if leb k n then n - k else n - (k - n)

abbrev begins_with_user : List Message → Bool
begins_with_user [] = false
begins_with_user (m ∷ messages) = m.role == user

abbrev pub is_objective : List TurnUnit → Bool
is_objective [] = false
is_objective (u ∷ units) = begins_with_user u.messages

abbrev pub system_message : String → Message
system_message content = record {
  role = system;
  content = some content;
  tool_calls = [];
  tool_call_id = none;
  tool_name = none;
}

abbrev pub is_at : Option ℕ → TurnUnit → Bool
is_at none u = false
is_at (some n) u = u.start == n

abbrev is_position : Option ℕ → ℕ → Bool
is_position none position = false
is_position (some n) position = position == n

abbrev pub is_kept : ℕ → TurnUnit → Bool
is_kept position u = leb u.start position && ltb position (u.start + length u.messages)

abbrev given_pins : Option (List Message) → List Message
given_pins none = []
given_pins (some messages) = messages

abbrev pub tool_source : MessageRole → Option String → String
tool_source role none = role_value role
tool_source role (some name) =
    if name == "" then role_value role else join ":" (role_value role) name

abbrev pub summary_part : Option (Message × List TurnUnit) → List Message
summary_part none = []
summary_part (some c) = c.0 ∷ []

abbrev pub dropped_part : Option (Message × List TurnUnit) → List TurnUnit
dropped_part none = []
dropped_part (some c) = c.1

-- the messages of `_result`
unfoldable pub sent_messages :
    List Message
    → List Message
    → List TurnUnit
    → Option (Message × List TurnUnit)
    → Option ℕ
    → List Message
sent_messages leading pinned kept compaction objective =
    leading
    ++ pinned
    ++ messages_of (select (is_at objective) kept)
    ++ summary_part compaction
    ++ messages_of (select (λ u. not (is_at objective u)) kept)

module _ (a : ContextAssembler) where
  abbrev call_parts : List ToolCall → List String
  call_parts [] = []
  call_parts (c ∷ calls) = c.name ∷ a.dumps c.arguments ∷ call_parts calls

  -- `_estimate`
  unfoldable pub estimate : Message → ℕ
  estimate m =
      a.estimator
        (join_all "\n" (or_else m.content "" ∷ or_else m.tool_name "" ∷ call_parts m.tool_calls))

  -- `_pinned_messages`, before the check of their roles
  abbrev pub collected_pins : List Message → List Message
  collected_pins pinned = given_pins a.pinned ++ pinned

  abbrev decided : ℕ → Message → Bool → String → ContextDecision
  decided position m included reason = record {
    item_id = join "-" "message" (a.decimal position);
    source = tool_source m.role m.tool_name;
    estimated_tokens = estimate m;
    included = included;
    reason = reason;
  }

  -- `_decision`
  abbrev pub decision : ℕ → List TurnUnit → Option ℕ → ℕ → Message → ContextDecision
  decision leading_count kept objective position m =
      if ltb position leading_count
      then decided position m true "required system"
      else (if is_position objective position
          then decided position m true "pinned task objective"
          else (if any (is_kept position) kept
              then decided position m true "included in recent window"
              else decided position m false "compacted into summary"))

  abbrev pub decisions_from : ℕ → List TurnUnit → Option ℕ → ℕ → List Message → List ContextDecision
  decisions_from leading_count kept objective position [] = []
  decisions_from leading_count kept objective position (m ∷ messages) =
      decision leading_count kept objective position m
      ∷ decisions_from leading_count kept objective (position + 1) messages

  -- `_result`
  unfoldable pub result :
      List Message
      → List Message
      → List TurnUnit
      → List TurnUnit
      → Option (Message × List TurnUnit)
      → List Message
      → Option ℕ
      → Option String
      → AssembledContext
  result leading pinned included required compaction original objective reference =
      let kept = sort_by (λ (u : TurnUnit). u.start) (included ++ required) in
      let sent = sent_messages leading pinned kept compaction objective in
      record {
        messages = sent;
        estimated_tokens = total estimate sent;
        compacted = is_some compaction;
        dropped_messages = total (λ (u : TurnUnit). length u.messages) (dropped_part compaction);
        decisions = decisions_from (length leading) kept objective 0 original;
        pinned_messages = length pinned;
        compaction_ref = reference;
      }

  abbrev spill_to : Option (List Message → Option String) → List TurnUnit → Option (Option String)
  spill_to none dropped = some none
  spill_to (some store) [] = some none
  spill_to (some store) (u ∷ dropped) = map_option some (store (messages_of (u ∷ dropped)))

  -- `_spill_dropped`: none where the store raises
  abbrev pub spill_dropped : List TurnUnit → Option (Option String)
  spill_dropped dropped = spill_to a.spill dropped
