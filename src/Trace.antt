-- ===== src/Trace.antt =====
-- observability/hash_chain.py: redacted JSONL traces with a chain of SHA-256 hashes. A file is its
-- decoded text.
pub mod Lines
pub mod Verified
pub mod Tampering
mod Tests
use Prim.Native.String.{◌++◌ as append_text}
use forgeharness.Trace.Lines.{split_lines, is_line}
use forgeharness.Common.{
  ℕ, ◌+◌, String, Bool, true, false, not, Option, none, some, List, [], ◌∷◌, Result, ok, raise, ◌≡◌,
  if◌then◌else◌, ◌==◌, ℕ_eq, String_eq, any, length,
}

mutual
  pub data Json : Type 0 where
    null : Json
    truth : Bool → Json
    number : String → Json
    text : String → Json
    array : Items → Json
    object : Fields → Json

  pub data Items : Type 0 where
    end_items : Items
    item : Json → Items → Items

  pub data Fields : Type 0 where
    end_fields : Fields
    field : String → Json → Fields → Fields

pub record TraceEvent : Type 0 where
  pub task_id : String
  pub sequence : ℕ
  pub event_type : String
  pub timestamp : ℕ
  pub payload : Json

pub record TraceEnvelope : Type 0 where
  pub event : TraceEvent
  pub previous_hash : String
  pub hash : String

pub data TraceError : Type 0 where
  invalid_json invalid_sequence broken_previous_hash hash_mismatch : TraceError
  invalid_trace wrong_task no_envelopes : TraceError

pub record TraceVerification : Type 0 where
  pub is_valid : Bool
  pub events : ℕ
  pub error : Option TraceError

-- What the module takes from `hashlib`, `json`, pydantic and `re`: the digest of a text, the
-- canonical JSON of an event, the JSON line of an envelope and its parser, whether a line is blank,
-- the search for a sensitive key, and the substitution of sensitive values.
pub record Formats : Type 0 where
  pub sha256 : String → String
  pub dumps : TraceEvent → String
  pub dump_line : TraceEnvelope → String
  pub parse_line : String → Option TraceEnvelope
  pub is_blank : String → Bool
  pub is_sensitive_key : String → Bool
  pub mask : String → String

-- The JSON of an envelope is read back, is not blank and is one line for `splitlines`.
pub record ReadsBack (formats : Formats) (e : TraceEnvelope) : Type 0 where
  pub parses : formats.parse_line (formats.dump_line e) ≡ some e
  pub is_written : formats.is_blank (formats.dump_line e) ≡ false
  pub is_one_line : is_line (formats.dump_line e) ≡ true

-- a `HashChainedJSONLTrace` with the file that it appends to
pub record Trace : Type 0 where
  pub task_id : String
  pub sequence : ℕ
  pub previous_hash : String
  pub file : String

abbrev pub last_hash : String → List TraceEnvelope → String
last_hash previous [] = previous
last_hash previous (e ∷ envelopes) = last_hash e.hash envelopes

module _ (formats : Formats) where
  abbrev pub hide : String → Json → Json
  hide key value = if formats.is_sensitive_key key then text "[REDACTED]" else value

  -- `_redact`
  unfoldable mutual
    pub redact : String → Json → Json
    redact key null = hide key null
    redact key (truth b) = hide key (truth b)
    redact key (number n) = hide key (number n)
    redact key (text s) = hide key (text (formats.mask s))
    redact key (array items) = hide key (array (redact_items items))
    redact key (object fields) = hide key (object (redact_fields fields))

    pub redact_items : Items → Items
    redact_items end_items = end_items
    redact_items (item value items) = item (redact "" value) (redact_items items)

    pub redact_fields : Fields → Fields
    redact_fields end_fields = end_fields
    redact_fields (field key value fields) = field key (redact key value) (redact_fields fields)

  abbrev pub prepend :
      Option TraceEnvelope → Option (List TraceEnvelope) → Option (List TraceEnvelope)
  prepend (some e) (some envelopes) = some (e ∷ envelopes)
  prepend _ _ = none

  unfoldable pub parse_lines : List String → Option (List TraceEnvelope)
  parse_lines [] = some []
  parse_lines (line ∷ lines) =
      let rest = parse_lines lines in
      if formats.is_blank line then rest else prepend (formats.parse_line line) rest

  -- `_load_envelopes`; none is the error of a line that does not parse
  unfoldable pub load_envelopes : String → Option (List TraceEnvelope)
  unfolding parse_lines
  load_envelopes file = parse_lines (split_lines file)

  abbrev pub chained : String → TraceEvent → String
  chained previous event = formats.sha256 (append_text previous (formats.dumps event))

  abbrev pub broken : ℕ → TraceError → TraceVerification
  broken events error = record { is_valid = false; events = events; error = some error }

  -- the loop of `verify_trace`, after `checked` envelopes
  unfoldable pub verify_from : String → ℕ → List TraceEnvelope → TraceVerification
  verify_from previous checked [] = record { is_valid = true; events = checked; error = none }
  verify_from previous checked (envelope ∷ envelopes) =
      let rest = verify_from envelope.hash (checked + 1) envelopes in
      if not (envelope.event.sequence == checked + 1)
      then broken checked invalid_sequence
      else (if not (envelope.previous_hash == previous)
          then broken checked broken_previous_hash
          else (if not (envelope.hash == chained previous envelope.event)
              then broken checked hash_mismatch
              else rest))

  abbrev pub verify_loaded : Option (List TraceEnvelope) → TraceVerification
  verify_loaded none = broken 0 invalid_json
  verify_loaded (some envelopes) = verify_from "" 0 envelopes

  unfoldable pub verify_trace : String → TraceVerification
  unfolding load_envelopes
  verify_trace file = verify_loaded (load_envelopes file)

  abbrev pub resume : String → String → Option (List TraceEnvelope) → Result TraceError Trace
  resume task_id file none = raise invalid_trace
  resume task_id file (some []) = raise no_envelopes
  resume task_id file (some (first ∷ others)) =
      let envelopes = first ∷ others in
      if any (λ (e : TraceEnvelope). not (e.event.task_id == task_id)) envelopes
      then raise wrong_task
      else ok (record {
        task_id = task_id;
        sequence = length envelopes;
        previous_hash = last_hash "" envelopes;
        file = file;
      })

  -- `__init__`: a missing file is an empty one. Of a file with blank lines alone the last envelope
  -- is asked for, an IndexError.
  unfoldable pub open_trace : String → String → Result TraceError Trace
  unfolding verify_trace
  open_trace task_id file =
      if file == ""
      then ok (record { task_id = task_id; sequence = 0; previous_hash = ""; file = "" })
      else (if (verify_trace file).is_valid
          then resume task_id file (load_envelopes file)
          else raise invalid_trace)

  abbrev pub next_event : Trace → String → ℕ → Json → TraceEvent
  next_event t event_type now payload = record {
    task_id = t.task_id;
    sequence = t.sequence + 1;
    event_type = event_type;
    timestamp = now;
    payload = redact "" payload;
  }

  abbrev pub next_envelope : Trace → TraceEvent → TraceEnvelope
  next_envelope t event = record {
    event = event;
    previous_hash = t.previous_hash;
    hash = chained t.previous_hash event;
  }

  unfoldable pub append : String → ℕ → Json → Trace → TraceEvent × Trace
  unfolding redact
  append event_type now payload t =
      let event = next_event t event_type now payload in
      let envelope = next_envelope t event in
      (
        event,
        record t {
          sequence = t.sequence + 1;
          previous_hash = envelope.hash;
          file = append_text t.file (append_text (formats.dump_line envelope) "\n");
        },
      )
