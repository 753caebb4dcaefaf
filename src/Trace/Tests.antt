-- ===== src/Trace/Tests.antt =====
-- Small runs of observability/hash_chain.py.
use native.Mathlib.Decide.{ℕ_discrete}
use Prim.Native.String.{len}
use forgeharness.Common.{
  ◌+◌, ◌≡◌, ◌⊎◌, inl, refl, true, false, String, String_discrete, none, some, List, [], ◌∷◌, ok,
  raise, All, if◌then◌else◌, ◌==◌, String_eq, map, length, Bool,
}
use forgeharness.Trace.{
  text, object, field, end_fields, TraceEnvelope, Formats, ReadsBack, Trace, load_envelopes,
  parse_lines, invalid_json, verify_from, verify_trace, open_trace, redact, append, no_envelopes,
}
use forgeharness.Trace.Verified.{
  Entry, entry, passes, append_all, all_written, append_all-verify_trace,
}
use forgeharness.Trace.Lines.{is_line, split_from, split_lines, is_break}
use forgeharness.Trace.Tampering.{Collide, same_hash-same_events}

-- the envelope of the first event
abbrev first : TraceEnvelope
first = record {
  event = record {
    task_id = "t1";
    sequence = 1;
    event_type = "run.started";
    timestamp = 5;
    payload = object (field "token" (text "[REDACTED]") end_fields);
  };
  previous_hash = "";
  hash = "1";
}

abbrev digest_of : Bool → String
digest_of true = "1"
digest_of false = "0"

abbrev formats : Formats
formats = record {
  sha256 = λ s. digest_of (s == "run.started");
  dumps = λ e. e.event_type;
  dump_line = λ e. e.event.event_type;
  parse_line = λ s. if s == "run.started" then some first else none;
  is_blank = λ s. s == "";
  is_sensitive_key = λ s. s == "token";
  mask = λ s. s;
}

abbrev entries : List Entry
entries = entry "run.started" 5 (object (field "token" (text "sk-12345678") end_fields)) ∷ []

abbrev fresh : Trace
fresh = record { task_id = "t1"; sequence = 0; previous_hash = ""; file = "" }

fresh_opened : open_trace formats "t1" "" ≡ ok fresh
unfolding open_trace String_discrete
fresh_opened = refl

first_written : all_written formats entries fresh ≡ first ∷ []
unfolding all_written append redact String_discrete
first_written = refl

first_read : All (ReadsBack formats) (all_written formats entries fresh)
unfolding all_written append redact String_discrete is_line is_break ℕ_discrete
first_read = (record { parses = refl; is_written = refl; is_one_line = refl }, tt)

append_all-verify_trace_example :
    verify_trace formats (append_all formats entries fresh).file ≡ passes (0 + length entries)
append_all-verify_trace_example =
    append_all-verify_trace formats "t1" "" fresh entries (inl refl) first_read fresh_opened

-- a file of blank lines is not empty and has no last envelope
blank_file : open_trace formats "t1" "\n\n" ≡ raise no_envelopes
unfolding open_trace verify_trace load_envelopes parse_lines split_lines split_from is_break
    verify_from String_discrete ℕ_discrete
blank_file = refl

-- a file whose last line is not ended is accepted, and spoilt by the next event
abbrev unended : Trace
unended = record { task_id = "t1"; sequence = 1; previous_hash = "1"; file = "run.started" }

unended_opened : open_trace formats "t1" "run.started" ≡ ok unended
unfolding open_trace verify_trace load_envelopes parse_lines split_lines split_from is_break
    verify_from String_discrete ℕ_discrete
unended_opened = refl

unended_spoilt :
    verify_trace formats (append formats "run.started" 5 (object end_fields) unended).1.file
    ≡ record { is_valid = false; events = 0; error = some invalid_json }
unfolding append redact verify_trace load_envelopes parse_lines split_lines split_from is_break
    verify_from String_discrete ℕ_discrete
unended_spoilt = refl

-- the separators of Unicode end lines, and a carriage return with its line feed is one end
lines_split : split_lines "a\u{2028}b\r\nc\n" ≡ "a" ∷ "b" ∷ "c" ∷ []
unfolding split_lines split_from is_break String_discrete ℕ_discrete
lines_split = refl

one_length : (b c : Bool) → len (digest_of b) ≡ len (digest_of c)
one_length true true = refl
one_length true false = refl
one_length false true = refl
one_length false false = refl

one_loads : load_envelopes formats "run.started\n" ≡ some (first ∷ [])
unfolding load_envelopes parse_lines split_lines split_from is_break String_discrete ℕ_discrete
one_loads = refl

other_loads : load_envelopes formats "\nrun.started" ≡ some (first ∷ [])
unfolding load_envelopes parse_lines split_lines split_from is_break String_discrete ℕ_discrete
other_loads = refl

one_verifies : (verify_trace formats "run.started\n").is_valid ≡ true
unfolding verify_trace load_envelopes parse_lines split_lines split_from is_break verify_from
    String_discrete ℕ_discrete
one_verifies = refl

other_verifies : (verify_trace formats "\nrun.started").is_valid ≡ true
unfolding verify_trace load_envelopes parse_lines split_lines split_from is_break verify_from
    String_discrete ℕ_discrete
other_verifies = refl

same_hash-same_events_example :
    (map (λ (e : TraceEnvelope). formats.dumps e.event) (first ∷ [])
      ≡ map (λ (e : TraceEnvelope). formats.dumps e.event) (first ∷ []))
    ⊎ Collide formats (first ∷ []) (first ∷ [])
same_hash-same_events_example =
    same_hash-same_events formats (λ s t. one_length (s == "run.started") (t == "run.started"))
      "run.started\n" "\nrun.started" (first ∷ []) (first ∷ []) one_loads other_loads one_verifies
      other_verifies refl refl
