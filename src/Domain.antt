-- ===== src/Domain.antt =====
-- The values that the runtime, the journal and the ledgers exchange (src/forgeharness/domain and
-- tools/base.py), and the errors that they raise.
mod Values
mod Runs
mod Errors
unfoldable pub use Values.*
unfoldable pub use Runs.*
pub use Errors.*
