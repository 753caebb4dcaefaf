-- ===== src/Executor/Lookup.antt =====
-- That looking up a call for a resume dispatches no tool (runtime/tool_executor.py).
use forgeharness.Common.{arith, String, Bool, true, false, Option, none, some, ◌==◌}
use forgeharness.Journal.{
  InvocationRecord, indeterminate, InvocationState_eq, decide_recovery, record_recovery_decision,
  load,
}
use forgeharness.Executor.Setting.{Executor, recovering, recovery_decided, recovery_indeterminate}
use forgeharness.Executor.Calls.{
  announce, record_subject, recovered_state, recover_record, recover_loaded, recover_call,
}
use forgeharness.Executor.Adding.{
  Adds, is_dispatch, Adds-bind, Adds-pure, Adds-on_journal, Adds-emit,
}

module _ (x : Executor) where
  announce-Adds : (rec : InvocationRecord) (b : Bool) → Adds 0 (announce x rec b)
  unfolding announce is_dispatch
  announce-Adds rec true =
      Adds-emit (recovery_indeterminate (record_subject x rec) rec.attempt_count)
  announce-Adds rec false = Adds-pure tt

  recover_record-Adds : (rec : InvocationRecord) → Adds 0 (recover_record x rec)
  unfolding recover_record is_dispatch
  recover_record-Adds rec =
      Adds-bind 0 0 0 (omega arith) _ _
        (Adds-on_journal (
          record_recovery_decision (x.clock recovering) rec.invocation_id (recovered_state x rec)
            (decide_recovery rec)))
        λ _.
          Adds-bind 0 0 0 (omega arith) _ _
            (Adds-emit (
              recovery_decided (record_subject x rec) rec.attempt_count rec.state
                (decide_recovery rec)))
            λ _.
              Adds-bind 0 0 0 (omega arith) _ _
                (announce-Adds rec (recovered_state x rec == indeterminate))
                λ _. Adds-pure (
                  record rec {
                    state = recovered_state x rec;
                    recovery_decision = some (decide_recovery rec);
                  },
                  decide_recovery rec,
                )

  recover_loaded-Adds : (o : Option InvocationRecord) → Adds 0 (recover_loaded x o)
  unfolding recover_loaded
  recover_loaded-Adds none = Adds-pure none
  recover_loaded-Adds (some rec) =
      Adds-bind 0 0 0 (omega arith) _ _ (recover_record-Adds rec)
        λ outcome. Adds-pure (some outcome)

  pub recover_call-Adds :
      (task_id logical_call_id : String) → Adds 0 (recover_call x task_id logical_call_id)
  unfolding recover_call
  recover_call-Adds task_id logical_call_id =
      Adds-bind 0 0 0 (omega arith) _ _ (Adds-on_journal (load x.codec task_id logical_call_id))
        recover_loaded-Adds
