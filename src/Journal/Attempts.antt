-- ===== src/Journal/Attempts.antt =====
-- The attempt methods of `SQLiteInvocationJournal`, and the reconciliation of an uncertain
-- invocation with a receipt (state/invocation_journal.py).
use Prim.Native.String.{len}
use native.Mathlib.Decide.{ℕ_discrete}
use forgeharness.Common.{
  ℕ, String, Bool, not, ◌||◌, Option, none, some, List, [], ◌∷◌, ◌++◌, ◌==◌, ℕ_eq, String_eq,
  if◌then◌else◌, or_else, is_some, is_none, String_discrete, ltb, sort_by, select, ok, raise, guard,
  ◌>>◌,
}
use forgeharness.Table.{find_key, update_key, count_key}
use forgeharness.Domain.{
  ToolOutput, attempt_recorded, no_outcome, cannot_finish_attempt, not_reconcilable, wrong_database,
  changed_during_reconciliation, result_too_large,
}
use forgeharness.Journal.Records.{
  claimed, started, failed, indeterminate, InvocationState_eq, InvocationRecord, AttemptRecord,
  max_journaled_result_bytes,
}
use forgeharness.Journal.Rows.{InvocationRow, Db, Codec, Exec, row_of, update_one}
use forgeharness.Journal.Store.{settle_invocation}

abbrev pub attempt_key : AttemptRecord → String
attempt_key a = a.attempt_id

abbrev pub numbered : AttemptRecord → String × ℕ
numbered a = (a.invocation_id, a.attempt_no)

unfoldable pub numbered-discrete : Discrete (String × ℕ)
numbered-discrete = hlevel (String_discrete, ℕ_discrete)

abbrev pub attempt_of : String → Db → Option AttemptRecord
attempt_of id db = find_key String_discrete attempt_key id db.attempts

abbrev pub attempt_numbered : String → ℕ → Db → Option AttemptRecord
attempt_numbered id n db = find_key numbered-discrete numbered (id, n) db.attempts

-- The INSERT names the columns that are known before the execution.
abbrev pub begun : AttemptRecord → AttemptRecord
begun a = record a { finished_at = none; outcome = none; error_code = none; usage = none }

-- PRIMARY KEY (attempt_id), UNIQUE (invocation_id, attempt_no), and the foreign key
unfoldable pub start_attempt : AttemptRecord → Exec AttemptRecord
start_attempt a db =
    if is_some (attempt_of a.attempt_id db)
      || is_some (attempt_numbered a.invocation_id a.attempt_no db)
      || is_none (row_of a.invocation_id db)
    then (raise attempt_recorded, db)
    else (ok a, record db { attempts = db.attempts ++ begun a ∷ [] })

abbrev pub finished_row : ℕ → AttemptRecord → AttemptRecord → AttemptRecord
finished_row now a r = record r {
  finished_at = some (or_else a.finished_at now);
  outcome = a.outcome;
  error_code = a.error_code;
  usage = a.usage;
}

abbrev pub is_open : AttemptRecord → Bool
is_open r = is_none r.outcome

unfoldable pub finish_attempt : ℕ → AttemptRecord → Exec AttemptRecord
finish_attempt now a db =
    if is_none a.outcome
    then (raise no_outcome, db)
    else (if count_key String_discrete attempt_key a.attempt_id is_open db.attempts == 1
        then (
          ok a,
          record db {
            attempts =
                update_key String_discrete attempt_key a.attempt_id is_open (finished_row now a)
                  db.attempts;
          },
        )
        else (raise cannot_finish_attempt, db))

unfoldable pub attempts_for : String → Exec (List AttemptRecord)
attempts_for id db = (
  ok (
      sort_by (λ (a : AttemptRecord). a.attempt_no)
        (select (λ (a : AttemptRecord). a.invocation_id == id) db.attempts)),
  db,
)

abbrev pub is_reconcilable : InvocationRecord → Bool
is_reconcilable rec = rec.state == claimed || rec.state == started || rec.state == indeterminate

module _ (codec : Codec) where
  abbrev pub reconciled_row : ToolOutput → InvocationRecord → ℕ → InvocationRow → InvocationRow
  reconciled_row output settled now r = record r {
    state = settled.state;
    result = some (codec.dump output);
    result_digest = settled.result_digest;
    result_size_bytes = settled.result_size_bytes;
    finished_at = some (or_else settled.finished_at now);
    error_code = settled.error_code;
  }

  -- `same_database` is the test on `PRAGMA database_list`.
  unfoldable pub reconcile_in_transaction :
      Bool → ℕ → InvocationRecord → ToolOutput → Exec (Unit {0})
  unfolding settle_invocation
  reconcile_in_transaction same_database now rec output = do
    guard (is_reconcilable rec) not_reconcilable
    guard same_database wrong_database
    guard (not (ltb max_journaled_result_bytes (len (codec.dump output)))) result_too_large
    update_one rec.invocation_id (λ r. r.state == rec.state)
        (reconciled_row output (settle_invocation codec rec output now failed) now)
        changed_during_reconciliation
