-- ===== src/Orchestration/Tests.antt =====
-- Small runs of state/orchestration.py.
use native.Mathlib.Decide.{ℕ_discrete}
use text.Mathlib.TextEquality.{eq_iff}
use forgeharness.Common.{
  ◌+◌, ◌≡◌, ◌≢◌, ◌⊎◌, refl, arith, true, false, none, some, List, [], ◌∷◌, ok, raise, String,
  String_discrete,
}
use forgeharness.Table.{HasUniqueKeys}
use forgeharness.Domain.{RunResult, running, succeeded, cancelled, RunStatus-discrete}
use forgeharness.Checkpoint
use forgeharness.Checkpoint.{task_key, write_snapshot}
use forgeharness.Orchestration.{
  OrchestrationState, OrchestrationDb, OrchestrationError, RunRow, Parsers, run_key, run_of, save,
  save_in, take_ownership, request_cancel, accept, final_result, write_state, upsert_run,
  insert_event, stale_owner, event_key-discrete, acknowledge,
}
use forgeharness.Orchestration.Steps.{
  StoreCall, save_call, own_call, cancel_call, acknowledge_call, make_all,
}
use forgeharness.Orchestration.Final.{terminal-stays, cancel-wins, owner-fences}
use forgeharness.Orchestration.Projection.{IsProjected, save-projects}

abbrev parsers : Parsers
parsers = record {
  digest = record { sha256 = λ s. s; dumps = λ (task, id, name, arguments). id };
  parse_call = λ _. none;
}

abbrev result : RunResult
result = record {
  task_id = "t1";
  status = running;
  messages = [];
  usage = record { steps = 1; tool_calls = 0; input_tokens = 10; output_tokens = 2 };
  checkpoint_revision = 0;
  final_output = none;
  error = none;
  pending_approval = none;
  recovery_semantics_version = 5;
  state_version = 2;
  run_context = none;
  tool_evidence = [];
  authorized_call_id = none;
}

abbrev first : OrchestrationState
first = record {
  identity = "graph";
  owner = "w1";
  revision = 0;
  started_at = 1;
  observed_at = 1;
  deadline = none;
  cancel_requested = false;
  nodes = [];
  result = result;
}

abbrev empty_tables : OrchestrationDb
empty_tables = record { grants = []; checkpoints = []; runs = []; outbox = [] }

-- the state that the first save returns, and the tables after it
abbrev saved : OrchestrationState
saved = record first { revision = 1; result = record result { checkpoint_revision = 1 } }

abbrev tables : OrchestrationDb
tables = record {
  grants = [];
  checkpoints = record { task_id = "t1"; revision = 1; payload = saved.result } ∷ [];
  runs =
      record {
        task_id = "t1";
        owner = "w1";
        revision = 1;
        cancel_requested = false;
        payload = saved;
      }
      ∷ [];
  outbox =
      record {
        task_id = "t1";
        revision = 1;
        event = "run.started";
        status = running;
        published = false;
      }
      ∷ [];
}

first-saved : save parsers "db" 9 first "run.started" none none empty_tables ≡ (ok saved, tables)
unfolding save save_in accept final_result write_state upsert_run insert_event Checkpoint.save
    Checkpoint.load write_snapshot String_discrete ℕ_discrete event_key-discrete RunStatus-discrete
first-saved = refl

stale_refused :
    save parsers "db" 9 (record saved { owner = "w0" }) "run.changed" none none tables
    ≡ (raise stale_owner, tables)
unfolding save save_in accept String_discrete ℕ_discrete
stale_refused = refl

save-projects_example :
    let (r, db') = save parsers "db" 9 first "run.started" none none empty_tables in
    ((e : OrchestrationError) × (r ≡ raise e) × (db' ≡ empty_tables))
    ⊎ ((s : OrchestrationState) × (r ≡ ok s)
        × (s.revision ≡ 0 + 1)
        × IsProjected "t1" "run.started" s db')
save-projects_example = save-projects parsers "db" 9 first "run.started" none none empty_tables tt

abbrev done : OrchestrationState
done = record saved {
  result = record saved.result { status = succeeded; final_output = some "ok" };
}

abbrev ended_row : RunRow
ended_row = record {
  task_id = "t1";
  owner = "w1";
  revision = 2;
  cancel_requested = false;
  payload = done;
}

abbrev ended : OrchestrationDb
ended = record tables { runs = ended_row ∷ [] }

ended_found : run_of "t1" ended ≡ some ended_row
unfolding String_discrete
ended_found = refl

abbrev calls : List StoreCall
calls =
    own_call (record done { revision = 2 }) "w2"
    ∷ save_call 9 (record done { revision = 2; owner = "w2" }) "again" none none
    ∷ cancel_call "t1"
    ∷ acknowledge_call "t1" 1
    ∷ []

terminal-stays_example :
    (r' : RunRow) × (run_of "t1" (make_all parsers "db" calls ended) ≡ some r')
    × (r'.payload ≡ done)
    × (r'.revision ≡ 2)
unfolding RunStatus-discrete
terminal-stays_example = terminal-stays parsers "db" "t1" calls ended ended_row ended_found refl

cancel_asked : (request_cancel "t1" tables).0 ≡ ok true
unfolding request_cancel String_discrete ℕ_discrete RunStatus-discrete
cancel_asked = refl

abbrev cancelled_state : OrchestrationState
cancelled_state = record saved {
  cancel_requested = true;
  revision = 2;
  result = record saved.result {
    status = cancelled;
    final_output = none;
    error = some "cancelled";
    checkpoint_revision = 2;
  };
}

abbrev between : List StoreCall
between = acknowledge_call "t1" 1 ∷ []

abbrev after_request : OrchestrationDb
after_request = make_all parsers "db" between (request_cancel "t1" tables).1

abbrev after_cancel : OrchestrationDb
after_cancel = (save parsers "db" 9 done "run.finished" none none after_request).1

finished_cancelled :
    save parsers "db" 9 done "run.finished" none none after_request
    ≡ (ok cancelled_state, after_cancel)
unfolding save save_in accept final_result write_state upsert_run insert_event Checkpoint.save
    Checkpoint.load write_snapshot String_discrete ℕ_discrete event_key-discrete RunStatus-discrete
    request_cancel make_all acknowledge
finished_cancelled = refl

cancel-wins_example :
    (cancelled_state.result.status ≡ cancelled) × (cancelled_state.result.final_output ≡ none)
unfolding RunStatus-discrete
cancel-wins_example =
    cancel-wins parsers "db" "t1" between 9 done "run.finished" none none cancelled_state tables
      after_cancel cancel_asked refl finished_cancelled refl

taken_over : (take_ownership saved "w2" tables).0 ≡ ok (record saved { owner = "w2" })
unfolding take_ownership String_discrete ℕ_discrete
taken_over = refl

tables_unique : HasUniqueKeys String_discrete run_key tables.runs
tables_unique = (refl, tt)

old_token : ◌≢◌ {A = String} "w1" "w2"
old_token e = ground (arith, eq_iff "w1" "w2")

abbrev late : List StoreCall
late = save_call 9 done "run.finished" none none ∷ cancel_call "t1" ∷ []

owner-fences_example :
    let later = make_all parsers "db" late (take_ownership saved "w2" tables).1 in
    (save parsers "db" 9 done "run.finished" none none later ≡ (raise stale_owner, later))
    × ((before : RunRow) × (after : RunRow) × (run_of "t1" tables ≡ some before)
        × (run_of "t1" later ≡ some after)
        × (after.owner ≡ "w2")
        × (after.revision ≡ before.revision)
        × (after.payload ≡ before.payload))
owner-fences_example =
    owner-fences parsers "db" "w2" saved late 9 done "run.finished" none none tables tables_unique
      taken_over ((λ _. old_token), (tt, tt)) refl old_token
