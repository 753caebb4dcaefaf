-- ===== src/Lib.antt =====
-- ForgeHarness is a runtime for agents whose tools have side effects: a call is authorized by
-- policy and, where needed, by an exact approval, journalled before it runs, attempted within a
-- budget, settled with its result, and decided on again from the journal after a crash. This
-- library models that core, in src/forgeharness, and proves what it promises.
--
-- The parts, their files here, and how they interact:
-- - Common: names of the libraries passed on, Boolean tests, lists, and `Action S E A`, a method
--   of a stateful object: it returns or raises, and what it wrote before a raise stays written.
-- - Table: SQL tables as lists of rows, with the SELECT and UPDATE by key that the stores use.
-- - Domain: the values exchanged (domain/models.py, tools/base.py, runtime/budget.py) and the
--   errors. Times are numbers of microseconds, timeouts of milliseconds; tool arguments and
--   metadata, which may be any JSON, are their JSON text.
-- - Journal: state/invocation_journal.py. `Journal.Records` has the records and the pure
--   decisions (decide_recovery, terminal_state_for_failure), `Journal.Rows` the tables
--   tool_invocations and tool_attempts and reading a row (_row_to_record, _load_by_id),
--   `Journal.Store` claim, mark_started, restart, settle, load, pending_for_run and
--   record_recovery_decision, `Journal.Attempts` start_attempt, finish_attempt, attempts_for and
--   reconcile_in_transaction. Each method is one transaction on `Db`. `Journal.Operations` runs
--   any sequence of them; `Journal.Invariant`, `Journal.Final`, `Journal.Updates` and
--   `Journal.Settling` have the proofs.
-- - Retry: runtime/retry.py (decide_retry, backoff_ms).
-- - Executor: runtime/tool_executor.py. `Executor.Setting` has what an executor is built from,
--   its events and `World`, the journal's tables with the trace; `Executor.Attempt` the loop of
--   _run_attempts, with _settle_invocation; `Executor.Calls` authorize, dispatch,
--   _dispatch_journalled and recover_call. It calls the journal's methods in the source's order.
--   `Executor.Outcome`, `Executor.Resume`, `Executor.Adding`, `Executor.Bounds`,
--   `Executor.Deaths` and `Executor.Termination` have the proofs, `Executor.Lookup` that a look-up dispatches nothing.
-- - Checkpoint: state/checkpoint.py, the compare-and-swap of run snapshots.
-- - Approval: state/approval.py. `Approval.Memory` and `Approval.Sqlite` are the two ledgers;
--   `Approval.Admission` is consume_and_checkpoint, one transaction on grants and checkpoints
--   that rolls back when anything in it raises. `Approval.OneShot` and `Approval.Refinement` have
--   the proofs on the ledgers.
-- - Trace: observability/hash_chain.py. A file is its decoded text, which
--   `Trace.Lines` splits as splitlines does; `Trace` has opening, appending, redaction and
--   verification, `Trace.Verified` and `Trace.Tampering` the proofs. The
--   executor's own trace is the list of events in `World`, not this file.
-- - Todos: runtime/todos.py, the todo board: `Todos` has its methods, `Todos.Render` render_todos
--   and the execution of WriteTodosTool, `Todos.Board` the proofs.
-- - Orchestration: state/orchestration.py. `Orchestration.Records` has the states and the tables,
--   `Orchestration.Store` the methods of OrchestrationStore: a save is one transaction on the
--   graph's row, the approval grants, the checkpoint and the outbox. `Orchestration.Saving` and
--   `Orchestration.Steps` say what a save writes and what any call leaves of a row;
--   `Orchestration.Final` and `Orchestration.Projection` have the results.
-- - Agent: runtime/loop.py and runtime/model_call.py, without an execution backend.
--   `Agent.Setting` has what an AgentRuntime is built from and its `World` (the journal, the
--   checkpoints, the trace, the board and the context variables), `Agent.ModelCall`
--   invoke_model_once, `Agent.Snapshots` _checkpoint, _save_running, _finish and _assert_current,
--   `Agent.Texts` and `Agent.Pieces` what the loop tells the model and keeps between rounds,
--   `Agent.Loop` _drive with one function per branch
--   of a round, `Agent.Resume` run and resume_running. The loop calls the executor by `on_tools`,
--   on the same journal and trace. `Agent.Quiet`, `Agent.Turns`, `Agent.Turning`,
--   `Agent.Dispatching`, `Agent.Admitting`, `Agent.Rounds`, `Agent.Charging`, `Agent.Replies`
--   and `Agent.Earning` follow the parts of a round;
--   `Agent.Bounds`, `Agent.Success` and `Agent.Recovery` have the results.
-- - Context: context/assembly.py, context/compiler.py and context/request_budget.py, what a request
--   to the model holds. `Context.Summary` is _summarize, `Context.Units` _turn_units and
--   _newest_units_within with the standard library's bisect_right, `Context.Result` _result and
--   _decision, `Context.Assembly` assemble, `Context.Compiler` ContextCompiler.compile and
--   `Context.Request` prepare_request, which assembles until the whole request is admitted.
--   `Context.Windows`, `Context.Selection`, `Context.Fits`, `Context.Accounts`,
--   `Context.Compiler.Sorting` and `Context.Compiler.Chosen` have the proofs, `Context.Order` the
--   order of text ids.
-- - Kernel: sdk/kernel.py, RunKernel. `Kernel.Setting` has its state, start, checkpoint, emit and
--   _save, `Kernel.Calls` call_model and call_tool, `Kernel.Finish` verify and finish, and the calls
--   of an orchestrator in any order (`after_calls`). It uses the agent's invoke_model_once, the
--   executor's authorize and dispatch without a journal, and the checkpoints; the model call works
--   on a trace of its own, whose events are then added to the kernel's. `Kernel.Refusals`,
--   `Kernel.Closed` and `Kernel.ReadOnly` have the proofs.
-- - Recovery: state/recovery.py, the coordinator over the checkpoints and the agent's `World`; it
--   resumes by a function that it is given, as resume_running of the agent is. `Recovery.Scan` has
--   the proof.
-- - Registry: state/task_registry.py, the index from tasks to workspaces, with its proof in
--   `Registry.Binding`.
--
-- Code that is not the program's own is a parameter. `Codec` is SHA-256 and the JSON text of a
-- tool output; its hypothesis `RoundTrips` says that pydantic reads back what it wrote. `Digest` is
-- SHA-256 and canonical JSON for approvals, `Formats` the digest, the JSON lines and the regular
-- expressions of the trace; its hypothesis `ReadsBack` says that the JSON of an envelope is
-- parsed to it, is not blank and has no line break. The record `Executor` has the tool registry, the
-- dispatcher, the clock and the hooks; a dispatch that yields no output stands for the death of
-- the process inside the tool. Snapshots, grants and attempt usage are stored as values, for
-- their JSON columns. A `Runtime` has the model, the verifier, the policy and the clock as functions
-- that may also look at the number of steps charged so far; the preparation of a request, the
-- pinned messages, the compression of observations, the replay of the board from a transcript and
-- what a tool does to the board are functions of it too. A `ContextAssembler` has the token
-- estimator, the JSON of a call's arguments and the spill store as functions; `prepare` of
-- `Context.Request` is prepare_model_call, and scores of context items are any type with the tests
-- that sorting needs. A `Host` adds the verifier of a kernel, a `RecoveryCoordinator` the resumer. The float backoff multiplier is a fraction with exact arithmetic.
--
-- The loop of _run_attempts, `while True`, is recursion on one round more than the attempts of the
-- budget. That is more than enough, since a retry is decided only below the budget; the bounds on
-- dispatches come from that decision, and the bound's own error never comes back. The
-- loop of _drive is recursion on one round more than the steps that the budget leaves: a round that
-- goes on has charged a step, and the last one finds the budget used up. The binary search of
-- bisect_right is recursion on the length of its list, which is enough since each step shortens the
-- range; prepare_request tries three times, as the source does.
--
-- Not modelled: pydantic's field limits; SQLite's files, connections and locks (a transaction is
-- atomic); sleeping between attempts; flushing the trace's file; replaying the todo
-- board from a transcript; the execution backend and resume_approved of the agent loop; the bridges of the
-- kernel with their evidence transform; spilling and compressing observations; model clients,
-- tools, the rest of the SDK, the cloud control plane, the applications and entry points.
pub mod Common
pub mod Table
pub mod Domain
pub mod Journal
pub mod Retry
pub mod Executor
pub mod Checkpoint
pub mod Approval
pub mod Trace
pub mod Todos
pub mod Orchestration
pub mod Agent
pub mod Registry
pub mod Context
pub mod Kernel
pub mod Recovery
