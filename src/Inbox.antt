-- ===== src/Inbox.antt =====
-- Communications: app/services/communication_service.py and app/routers/communications.py.
pub mod Senders
pub mod Lookups
pub mod Batched
pub mod Listing
pub mod Visible
pub mod Receipts
pub mod Batch
pub mod Unread
pub mod Send
pub mod Sent
