-- ===== src/Accounts.antt =====
-- Accounts: app/services/token_service.py over the table of app/models/auth_token.py. SHA-256 and the
-- random generator are not in the repository; they are arguments.
pub mod Tokens
pub mod Sessions
pub mod Taken
pub mod SingleUse
