-- ===== src/Journal/Store.antt =====
-- The invocation methods of `SQLiteInvocationJournal` in state/invocation_journal.py. Each runs
-- in one transaction on the tables.
use Prim.Native.String.{len}
use forgeharness.Common.{
  ℕ, ◌+◌, String, Bool, true, false, not, ◌&&◌, ◌||◌, Option, none, some, List, [], ◌∷◌, ◌++◌, ℕ_eq,
  String_eq, ◌==◌, if◌then◌else◌, map_option, or_else, is_some, String_discrete, ltb, sort_by,
  select, Result, ok, raise, pure, or_raise, guard, ◌>>=◌, ◌>>◌,
}
use forgeharness.Table.{update_key}
use forgeharness.Domain.{ToolOutput, ToolErrorCode, ToolFailure, Error}
use forgeharness.Domain.{
  already_claimed, not_claimed, vanished_after_start, unsafe_restart, changed_during_restart,
  vanished_during_restart, non_terminal, result_too_large, already_terminal,
}
use forgeharness.Journal.Records.{
  InvocationState, claimed, started, completed, InvocationState_eq, terminal, RecoveryDecision,
  execute, replay_read_only, replay_idempotent, RecoveryDecision_eq, max_journaled_result_bytes,
  InvocationRecord, decide_recovery,
}
use forgeharness.Journal.Rows.{
  InvocationRow, Db, Codec, Exec, row_of, row_of_call, update_one, row_to_record, load_by_id,
}

abbrev pub error_code_of : ToolOutput → Option ToolErrorCode
error_code_of o = map_option (λ (f : ToolFailure). f.code) o.error

-- The INSERT of `claim` names these columns; the others are NULL.
abbrev pub claimed_row : InvocationRecord → InvocationRow
claimed_row r = record {
  invocation_id = r.invocation_id;
  run_id = r.run_id;
  logical_call_id = r.logical_call_id;
  tool_name = r.tool_name;
  effect_class = r.effect_class;
  args_digest = r.args_digest;
  idempotency_key = r.idempotency_key;
  state = r.state;
  attempt_count = r.attempt_count;
  claimed_at = r.claimed_at;
  started_at = none;
  finished_at = none;
  result = none;
  result_digest = none;
  result_size_bytes = r.result_size_bytes;
  result_storage_kind = r.result_storage_kind;
  error_code = none;
  checkpoint_revision = r.checkpoint_revision;
  recovery_decision = none;
  version = r.version;
}

-- PRIMARY KEY (invocation_id) and UNIQUE (run_id, logical_call_id)
abbrev pub is_known : InvocationRecord → Db → Bool
is_known r db =
    is_some (row_of r.invocation_id db) || is_some (row_of_call r.run_id r.logical_call_id db)

unfoldable pub claim : InvocationRecord → Exec InvocationRecord
claim r db =
    if is_known r db
    then (raise already_claimed, db)
    else (ok r, record db { invocations = db.invocations ++ claimed_row r ∷ [] })

abbrev pub started_row : ℕ → ℕ → InvocationRow → InvocationRow
started_row now revision r = record r {
  state = started;
  started_at = some now;
  attempt_count = r.attempt_count + 1;
  checkpoint_revision = revision;
}

abbrev pub may_restart : RecoveryDecision → Bool
may_restart d = d == execute || d == replay_read_only || d == replay_idempotent

abbrev pub restarted_row : ℕ → ℕ → InvocationRow → InvocationRow
restarted_row now revision r = record r {
  state = started;
  started_at = some now;
  checkpoint_revision = revision;
}

abbrev pub too_large : Option String → Bool
too_large none = false
too_large (some payload) = ltb max_journaled_result_bytes (len payload)

abbrev pub is_unsettled : InvocationRow → Bool
is_unsettled r = r.state == claimed || r.state == started

abbrev pub decided_row : ℕ → InvocationState → RecoveryDecision → InvocationRow → InvocationRow
decided_row now state decision r = record r {
  state = state;
  recovery_decision = some decision;
  finished_at = some (or_else r.finished_at now);
}

-- An UPDATE that looks at no state and at no rowcount.
unfoldable pub record_recovery_decision :
    ℕ → String → InvocationState → RecoveryDecision → Exec (Unit {0})
record_recovery_decision now id state decision db = (
  ok tt,
  record db {
    invocations =
        update_key String_discrete (λ (r : InvocationRow). r.invocation_id) id (λ _. true)
          (decided_row now state decision) db.invocations;
  },
)

-- the row that `restart` read, unchanged since
abbrev pub unchanged : InvocationRecord → InvocationRow → Bool
unchanged rec r = r.state == rec.state && r.checkpoint_revision == rec.checkpoint_revision

module _ (codec : Codec) where
  unfoldable pub settle_invocation :
      InvocationRecord → ToolOutput → ℕ → InvocationState → InvocationRecord
  settle_invocation r output now failed_state = record r {
    state = if output.is_ok then completed else failed_state;
    result = some output;
    result_digest = some (codec.sha256 (codec.dump output));
    result_size_bytes = len (codec.dump output);
    error_code = error_code_of output;
    finished_at = some now;
  }

  unfoldable pub mark_started : ℕ → String → ℕ → Exec InvocationRecord
  mark_started now id revision = do
    update_one id (λ r. r.state == claimed) (started_row now revision) not_claimed
    loaded ← load_by_id codec id
    or_raise vanished_after_start loaded

  unfoldable pub restart : ℕ → InvocationRecord → ℕ → Exec InvocationRecord
  restart now rec revision = do
    guard (may_restart (decide_recovery rec)) unsafe_restart
    update_one rec.invocation_id (unchanged rec) (restarted_row now revision) changed_during_restart
    loaded ← load_by_id codec rec.invocation_id
    or_raise vanished_during_restart loaded

  abbrev pub settled_row : ℕ → InvocationRecord → InvocationRow → InvocationRow
  settled_row now rec r = record r {
    state = rec.state;
    finished_at = some (or_else rec.finished_at now);
    result = map_option codec.dump rec.result;
    result_digest = rec.result_digest;
    result_size_bytes = rec.result_size_bytes;
    error_code = rec.error_code;
    attempt_count = rec.attempt_count;
  }

  unfoldable pub settle : ℕ → InvocationRecord → Exec InvocationRecord
  settle now rec = do
    guard (terminal rec.state) non_terminal
    guard (not (too_large (map_option codec.dump rec.result))) result_too_large
    update_one rec.invocation_id is_unsettled (settled_row now rec) already_terminal
    pure rec

  unfoldable pub load : String → String → Exec (Option InvocationRecord)
  unfolding row_to_record
  load run call db = elim (row_of_call run call db) [
    | none ↦ (ok none, db)
    | some r ↦ elim (row_to_record codec r) [
      | ok rec ↦ (ok (some rec), db)
      | raise e ↦ (raise e, db)
    ]
  ]

  unfoldable pub to_records : List InvocationRow → Result Error (List InvocationRecord)
  unfolding row_to_record
  to_records [] = ok []
  to_records (r ∷ l) = elim (row_to_record codec r) [
    | raise e ↦ raise e
    | ok rec ↦ elim (to_records l) [ raise e ↦ raise e | ok recs ↦ ok (rec ∷ recs) ]
  ]

  unfoldable pub pending_for_run : String → Exec (List InvocationRecord)
  unfolding to_records
  pending_for_run run db = (
    to_records (
        sort_by (λ (r : InvocationRow). r.claimed_at)
          (select (λ r. r.run_id == run && is_unsettled r) db.invocations)),
    db,
  )
