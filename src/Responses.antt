-- ===== src/Responses.antt =====
-- Responses: app/services/response_service.py and the `submit` route of app/routers/responses.py.
pub mod Next
pub mod Submit
pub mod Branch
