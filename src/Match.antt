-- ===== src/Match.antt =====
-- backend/app/services/match_service.py: the lifecycle of a match, one module for each operation.
pub mod Queries
pub mod Start
pub mod Finish
pub mod Questions
pub mod Control
pub mod Admission
pub mod Grading
pub mod Submit
pub mod Recover
pub mod Reading
pub mod Lifecycle
pub mod Timers
pub mod Ending
