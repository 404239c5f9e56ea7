-- ===== src/Admin.antt =====
-- admin/admin.go: handlers that combine several methods of the store.
pub mod Pat
