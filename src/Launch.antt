-- ===== src/Launch.antt =====
-- app/services/launch_snapshot_service.py: the immutable launch boundary. Reading an attachment's
-- file, the JSON encoding and SHA-256 are not in the repository; they are the record `External`.
pub mod Content
pub mod Freeze
pub mod Frozen
pub mod Playable
