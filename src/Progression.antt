-- ===== src/Progression.antt =====
-- Group-aware progression and the release of injects: app/services/progression_service.py and
-- `release_inject` of app/services/inject_service.py.
pub mod Cursor
pub mod Resolve
pub mod Release
pub mod Enqueued
pub mod Once
pub mod Advance
pub mod Isolation
pub mod Roster
