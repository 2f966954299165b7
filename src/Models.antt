-- ===== src/Models.antt =====
-- app/models and app/schemas: the rows and the enumerations.
pub mod Enums
pub mod Scenario
pub mod Exercise
pub mod Inject
pub mod Communication
pub mod Launch
pub mod Database
