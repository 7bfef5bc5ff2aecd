-- ===== src/Audit.antt =====
-- macos_apps_mcp/audit.py: the write-audit log, the usage tally and the middleware that fills them.
pub mod Log
pub mod Usage
pub mod Middleware
pub mod Tests
