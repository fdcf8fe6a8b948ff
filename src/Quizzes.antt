-- ===== src/Quizzes.antt =====
-- The quizzes of an owner: backend/app/services/quiz_service.py and repositories/quiz_repo.py.
pub mod Slots
pub mod Unique
pub mod Positions
pub mod TwoPhase
pub mod Shift
pub mod Parked
pub mod Move
pub mod MoveSlots
pub mod Edit
pub mod Adding
pub mod Removing
pub mod Mapped
pub mod Updating
pub mod Catalog
pub mod Publish
pub mod Publishable
pub mod Visible
