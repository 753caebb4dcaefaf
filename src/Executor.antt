-- ===== src/Executor.antt =====
-- runtime/tool_executor.py: `ToolExecutor`, which runs one logical tool call through the journal
-- with bounded retries, and decides at a resume what the journal's row permits. The dispatcher,
-- the registry, the policy and the clock are parameters. A dispatch that yields nothing stands for
-- the death of the process while the tool runs.
mod Setting
mod Attempt
mod Calls
pub mod Outcome
pub mod Resume
pub mod Adding
pub mod Bounds
pub mod Lookup
pub mod Termination
pub mod Deaths
mod Tests
pub use Setting.*
unfoldable pub use Attempt.*
unfoldable pub use Calls.*
