-- ===== src/Context.antt =====
-- context/assembly.py, context/compiler.py and context/request_budget.py: what a model request
-- holds of the conversation.
pub mod Summary
pub mod Order
pub mod Compiler
pub mod Request
pub mod Units
pub mod Windows
pub mod Result
pub mod Assembly
pub mod Selection
pub mod Fits
pub mod Accounts
mod Tests
