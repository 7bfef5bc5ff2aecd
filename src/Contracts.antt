-- ===== src/Contracts.antt =====
-- macos_apps_mcp/contracts.py: what a tool answers, what a write is given, and repeat rules.
pub mod Rule
pub mod Rrule
pub mod Member
pub mod Wire
pub mod Payload
mod Tests
