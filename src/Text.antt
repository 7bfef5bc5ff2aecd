-- ===== src/Text.antt =====
-- macos_apps_mcp/text.py: the framing of AppleScript payloads, and the cleaning of the text that
-- reaches the model.
pub mod Framing
pub mod Hygiene
pub mod Values
pub mod Matching
mod Tests
