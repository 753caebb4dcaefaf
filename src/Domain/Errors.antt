-- ===== src/Domain/Errors.antt =====
-- What the journal, the executor and the ledgers raise. The journal's `JournalError`s are told
-- apart by the statement that raises them.
pub data Error : Type 0 where
  already_claimed not_claimed vanished_after_start unsafe_restart changed_during_restart : Error
  vanished_during_restart non_terminal result_too_large already_terminal : Error
  attempt_recorded no_outcome cannot_finish_attempt not_reconcilable wrong_database : Error
  changed_during_reconciliation digest_mismatch unsupported_version invalid_payload : Error
  -- runtime/tool_executor.py
  attempts_exhausted hook_failed process_crashed bad_idempotency_key shared_authority : Error
  unknown_tool write_denied : Error
  -- no outcome of the program: the bound of the loop that models `while True`
  out_of_rounds : Error
