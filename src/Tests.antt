-- ===== src/Tests.antt =====
-- The theorems at concrete inputs.
mod Lifecycles
mod Scenarios
mod Releases
mod Others
mod Setup
mod Messages
mod Mailbox
mod Deadlines
mod Reviews
mod Links
