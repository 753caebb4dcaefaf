-- ===== src/Journal.antt =====
-- state/invocation_journal.py: the durable journal of tool invocations (src/forgeharness).
-- The two SQL tables are lists of rows; each method runs in one transaction, so that a raise
-- leaves the tables as they were, except where the source commits first.
mod Records
mod Rows
mod Store
mod Attempts
pub mod Invariant
pub mod Operations
pub mod Updates
pub mod Final
pub mod Settling
mod Tests
unfoldable pub use Records.*
unfoldable pub use Rows.*
unfoldable pub use Store.*
unfoldable pub use Attempts.*
