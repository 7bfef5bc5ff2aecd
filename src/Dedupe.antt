-- ===== src/Dedupe.antt =====
-- macos_apps_mcp/dedupe.py: the command that moves duplicate copies of a message to Trash.
pub mod Options
pub mod Plan
pub mod Pass
pub mod Mailboxes
pub mod Accounts
mod Tests
