-- ===== src/Kernel.antt =====
-- sdk/kernel.py: `RunKernel`, the surface through which an application's own orchestrator reaches
-- the model, read-only tools, the verifier and the checkpoints.
mod Setting
mod Calls
mod Finish
pub mod Refusals
pub mod Closed
pub mod ReadOnly
mod Tests
unfoldable pub use Setting.*
unfoldable pub use Calls.*
unfoldable pub use Finish.*
