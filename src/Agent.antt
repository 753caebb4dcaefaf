-- ===== src/Agent.antt =====
-- runtime/loop.py and runtime/model_call.py: `AgentRuntime`, the loop of model and tool steps under
-- a budget, on the executor, the checkpoints and the todo board. It is the runtime without an
-- execution backend; the model, the verifier, the policy, the tools and the preparation of a
-- request are parameters.
mod Setting
mod Texts
mod ModelCall
mod Snapshots
mod Pieces
mod Loop
mod Resume
pub mod Quiet
mod Turns
mod Turning
mod Dispatching
mod Admitting
mod Rounds
mod Charging
pub mod Bounds
pub mod Earning
pub mod Replies
pub mod Success
pub mod Recovery
mod Tests
mod ResumeTests
unfoldable pub use Setting.*
pub use Texts.{fault_code}
unfoldable pub use ModelCall.*
unfoldable pub use Snapshots.*
unfoldable pub use Pieces.*
unfoldable pub use Loop.*
unfoldable pub use Resume.*
