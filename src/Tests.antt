-- ===== src/Tests.antt =====
-- Concrete inputs, and the theorems applied to them.
pub mod Data
pub mod Submitting
pub mod Ending
pub mod Reading
pub mod Pure
pub mod Services
pub mod Quizzing
pub mod Moderating
pub mod Streaming
pub mod Signing
pub mod Numbers
pub mod Connecting
pub mod Accounts
