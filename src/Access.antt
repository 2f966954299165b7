-- ===== src/Access.antt =====
-- Who may see and change what: app/services/access_control.py and app/services/role_preview.py.
pub mod Gates
pub mod Preview
