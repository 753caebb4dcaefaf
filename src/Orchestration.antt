-- ===== src/Orchestration.antt =====
-- state/orchestration.py: `OrchestrationStore`, one SQLite transaction for the graph of a run, the
-- admission of an approval, the checkpoint and the outbox of events.
mod Records
mod Store
mod Tests
pub mod Saving
pub mod Steps
pub mod Final
pub mod Projection
unfoldable pub use Records.*
unfoldable pub use Store.*
