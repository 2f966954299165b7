-- ===== src/Suggestions.antt =====
-- Injects that the language model suggests: app/routers/suggested_injects.py.
pub mod Review
pub mod Approved
