-- ===== src/Journal/Tests.antt =====
-- Small runs of state/invocation_journal.py.
use forgeharness.Common.{◌≡◌, refl, arith, true, none, some, List, [], ◌∷◌, String_discrete}
use forgeharness.Domain.{ToolOutput, non_idempotent}
use forgeharness.Journal.Records.{InvocationState-discrete, InvocationRecord, claimed, completed}
use forgeharness.Journal.Rows.{Db, Codec, InvocationRow, row_of}
use forgeharness.Journal.Invariant.{IsValid}
use forgeharness.Journal.Operations.{Op, claim_op, mark_started_op, settle_op, run, run-IsValid}
use forgeharness.Journal.Final.{run-Stands}

abbrev written : ToolOutput
written = record {
  is_ok = true;
  content = "written";
  error = none;
  metadata = "{}";
  usage = none;
  receipt = none;
}

abbrev codec : Codec
codec = record { sha256 = λ s. s; dump = λ _. "{}"; parse = λ _. some written }

abbrev invocation : InvocationRecord
invocation = record {
  invocation_id = "t1:c1";
  run_id = "t1";
  logical_call_id = "c1";
  tool_name = "write_file";
  effect_class = non_idempotent;
  args_digest = "d";
  idempotency_key = "k";
  state = claimed;
  attempt_count = 0;
  claimed_at = 5;
  started_at = none;
  finished_at = none;
  result = none;
  result_digest = none;
  result_size_bytes = 0;
  result_storage_kind = "inline";
  error_code = none;
  checkpoint_revision = 0;
  recovery_decision = none;
  version = 1;
}

abbrev empty_tables : Db
empty_tables = record { invocations = []; attempts = [] }

empty-IsValid : IsValid empty_tables
empty-IsValid = omega arith

abbrev calls : List Op
calls =
    claim_op invocation
    ∷ mark_started_op 6 "t1:c1" 0
    ∷ settle_op 9 (record invocation { state = completed; result = some written })
    ∷ []

run-IsValid_example : IsValid (run codec calls empty_tables)
run-IsValid_example = run-IsValid codec calls empty_tables empty-IsValid

abbrev settled : InvocationRow
settled = record {
  invocation_id = "t1:c1";
  run_id = "t1";
  logical_call_id = "c1";
  tool_name = "write_file";
  effect_class = non_idempotent;
  args_digest = "d";
  idempotency_key = "k";
  state = completed;
  attempt_count = 1;
  claimed_at = 5;
  started_at = some 6;
  finished_at = some 9;
  result = some "{}";
  result_digest = some "{}";
  result_size_bytes = 2;
  result_storage_kind = "inline";
  error_code = none;
  checkpoint_revision = 0;
  recovery_decision = none;
  version = 1;
}

abbrev settled_tables : Db
settled_tables = record { invocations = settled ∷ []; attempts = [] }

settled_row_found : row_of "t1:c1" settled_tables ≡ some settled
unfolding String_discrete
settled_row_found = refl

run-Stands_example : row_of "t1:c1" (run codec calls settled_tables) ≡ some settled
unfolding InvocationState-discrete
run-Stands_example =
    run-Stands codec "t1:c1" settled calls settled_tables (refl, (refl, (refl, tt)))
      settled_row_found
