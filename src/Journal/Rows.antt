-- ===== src/Journal/Rows.antt =====
-- The rows of the journal's tables, and how a row of `tool_invocations` becomes a record
-- (state/invocation_journal.py).
use native.Mathlib.Decide.{ℕ_discrete}
use forgeharness.Common.{
  ℕ, String, Bool, true, false, not, Option, none, some, List, ℕ_eq, String_eq, ◌≡◌, ◌≢◌, ◌==◌,
  if◌then◌else◌, holds, String_discrete, Result, ok, raise, Action,
}
use forgeharness.Table.{find_key, update_key, count_key}
use forgeharness.Domain.{ToolOutput, ToolErrorCode, ToolEffectClass, Error}
use forgeharness.Domain.{digest_mismatch, unsupported_version, invalid_payload}
use forgeharness.Journal.Records.{
  InvocationState, InvocationState_eq, RecoveryDecision, RecoveryDecision_eq, journal_version,
  InvocationRecord, AttemptRecord,
}

-- A row of `tool_invocations`: a record whose result is the stored JSON text.
pub record InvocationRow : Type 0 where
  pub invocation_id : String
  pub run_id : String
  pub logical_call_id : String
  pub tool_name : String
  pub effect_class : ToolEffectClass
  pub args_digest : String
  pub idempotency_key : String
  pub state : InvocationState
  pub attempt_count : ℕ
  pub claimed_at : ℕ
  pub started_at : Option ℕ
  pub finished_at : Option ℕ
  pub result : Option String
  pub result_digest : Option String
  pub result_size_bytes : ℕ
  pub result_storage_kind : String
  pub error_code : Option ToolErrorCode
  pub checkpoint_revision : ℕ
  pub recovery_decision : Option RecoveryDecision
  pub version : ℕ

-- The tables. An attempt's row holds what its record holds.
pub record Db : Type 0 where
  pub invocations : List InvocationRow
  pub attempts : List AttemptRecord

-- hashlib and pydantic: the SHA-256 digest of a text, and a `ToolOutput` as JSON and back.
pub record Codec : Type 0 where
  pub sha256 : String → String
  pub dump : ToolOutput → String
  pub parse : String → Option ToolOutput

-- What the codec does with one output: it reads back what it wrote, which is no empty text.
pub record RoundTrips (codec : Codec) (output : ToolOutput) : Type 0 where
  pub parses : codec.parse (codec.dump output) ≡ some output
  pub is_text : codec.dump output ≢ ""

abbrev pub Exec : Type 0 → Type 0
Exec A = Action Db Error A

abbrev pub logical_call : InvocationRow → String × String
logical_call r = (r.run_id, r.logical_call_id)

unfoldable pub logical_call-discrete : Discrete (String × String)
logical_call-discrete = hlevel String_discrete

abbrev pub row_of : String → Db → Option InvocationRow
row_of id db = find_key String_discrete (λ (r : InvocationRow). r.invocation_id) id db.invocations

abbrev pub row_of_call : String → String → Db → Option InvocationRow
row_of_call run call db = find_key logical_call-discrete logical_call (run, call) db.invocations

-- An UPDATE of one invocation; `cursor.rowcount` is the number of rows that it meets, and with a
-- rowcount that is not 1 it is rolled back.
unfoldable pub update_one :
    String → (InvocationRow → Bool) → (InvocationRow → InvocationRow) → Error → Exec (Unit {0})
update_one id test f error db =
    if holds (
      ℕ_discrete
        (count_key String_discrete (λ (r : InvocationRow). r.invocation_id) id test db.invocations)
        1)
    then (
      ok tt,
      record db {
        invocations =
            update_key String_discrete (λ (r : InvocationRow). r.invocation_id) id test f
              db.invocations;
      },
    )
    else (raise error, db)

-- A column that is NULL or the empty text is false.
abbrev pub truthy : Option String → Option String
truthy none = none
truthy (some s) = if s == "" then none else some s

-- the tail of `_row_to_record`, on the result that was read
abbrev pub to_record : InvocationRow → Option ToolOutput → InvocationRecord
to_record r output = record {
  invocation_id = r.invocation_id;
  run_id = r.run_id;
  logical_call_id = r.logical_call_id;
  tool_name = r.tool_name;
  effect_class = r.effect_class;
  args_digest = r.args_digest;
  idempotency_key = r.idempotency_key;
  state = r.state;
  attempt_count = r.attempt_count;
  claimed_at = r.claimed_at;
  started_at = r.started_at;
  finished_at = r.finished_at;
  result = output;
  result_digest = truthy r.result_digest;
  result_size_bytes = r.result_size_bytes;
  result_storage_kind = r.result_storage_kind;
  error_code = r.error_code;
  checkpoint_revision = r.checkpoint_revision;
  recovery_decision = r.recovery_decision;
  version = r.version;
}

module _ (codec : Codec) where
  -- the digest test at the head of `_row_to_record`
  abbrev pub digest_matches : Option String → Option String → Bool
  digest_matches none digest = true
  digest_matches (some payload) none = false
  digest_matches (some payload) (some digest) = codec.sha256 payload == digest

  abbrev pub read_result : Option String → Result Error (Option ToolOutput)
  read_result none = ok none
  read_result (some payload) = elim (codec.parse payload) [
    | none ↦ raise invalid_payload
    | some output ↦ ok (some output)
  ]

  unfoldable pub row_to_record : InvocationRow → Result Error InvocationRecord
  row_to_record r =
      if not (digest_matches (truthy r.result) r.result_digest)
      then raise digest_mismatch
      else (if not (r.version == journal_version)
          then raise unsupported_version
          else elim (read_result (truthy r.result)) [
            | ok output ↦ ok (to_record r output)
            | raise e ↦ raise e
          ])

  unfoldable pub load_by_id : String → Exec (Option InvocationRecord)
  unfolding row_to_record
  load_by_id id db = elim (row_of id db) [
    | none ↦ (ok none, db)
    | some r ↦ elim (row_to_record r) [ ok rec ↦ (ok (some rec), db) | raise e ↦ (raise e, db) ]
  ]
