-- ===== src/Calendar.antt =====
-- macos_apps_mcp/adapters/calendar.py: the pure decisions of the Calendar adapter.
pub mod FreeBusy
