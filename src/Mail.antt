-- ===== src/Mail.antt =====
-- The Mail adapter's modules: macos_apps_mcp/adapters/mail_addressing.py (ids) and
-- macos_apps_mcp/adapters/mail_recover.py (the plane that every destructive write passes through).
pub mod Ids
pub mod Recover
pub mod Address
pub mod Outcomes
pub mod Write
pub mod Undo
pub mod Attach
mod Tests
