-- ===== src/Files.antt =====
-- macos_apps_mcp/files.py: the names under which files are written.
pub mod Name
pub mod Disk
