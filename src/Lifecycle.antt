-- ===== src/Lifecycle.antt =====
-- The exercise life cycle: the state machine of app/models/exercise.py,
-- `transition_state_with_history` of app/services/exercise_service.py, and the two pause-aware
-- clocks of app/services/schedule_service.py.
pub mod States
pub mod Transition
pub mod Clock
pub mod Outcome
pub mod Timeline
pub mod Agreement
pub mod History
