-- ===== src/Membership.antt =====
-- Setting up an exercise and its roster: app/services/team_service.py and the roster part of
-- app/services/exercise_service.py.
pub mod Teams
pub mod Roster
pub mod Valid
pub mod Kept
pub mod Locked
pub mod Create
pub mod Seeded
pub mod Paths
pub mod Opened
