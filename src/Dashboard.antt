-- ===== src/Dashboard.antt =====
-- macos_apps_mcp/dashboard: the localhost dashboard of the operator.
pub mod Guard
