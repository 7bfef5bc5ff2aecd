-- ===== src/Lib.antt =====
-- macos-apps-mcp: an MCP server over the macOS applications.
--
-- The server registers one tool per operation of an application. Whether a tool is registered is
-- decided once, at import, by the tiers (read, additive, destructive, send), by the environment
-- and by two toggle files that only the daemon reads. Each call of a tool passes two middlewares:
-- one records every write in an audit log and tallies every call, the other prepends a notice to
-- what the tool returns. The daemon also serves a dashboard on the loopback address, and every
-- request of it passes one guard.
--
-- Files, each over the source it names:
-- - Base, Base/*: what the other modules share: `==` as an interface, lists measured by native
--   numbers, `dict` as an association list in insertion order, `str` as a list of code points
--   with `strip`, `split`, `join`, `partition`, calls that return or raise, integers with sign, and
--   the dates of the calendar (Base/Dates).
-- - Tiers: macos_apps_mcp/tiers.py (`read_only`, `allow_send`, `adapters_off`, `adapter_enabled`)
--   and the readers of macos_apps_mcp/deploy.py that it calls.
-- - Registry: macos_apps_mcp/registry.py (`ToolRecord`, `derive_audit_verb`, `add`) and `_tool` of
--   macos_apps_mcp/server.py. Registry/Views: the views that are derived from the table.
-- - Audit/Log: `audit_write`, `_records`, `audit_read` of macos_apps_mcp/audit.py.
--   Audit/Usage: `usage_log`, `usage_read`, `usage_report`. Audit/Middleware: `AuditMiddleware`.
-- - Notices: macos_apps_mcp/notices.py.
-- - Dashboard/Guard: macos_apps_mcp/dashboard/guard.py.
-- - Calendar/FreeBusy: `_busy_epochs`, `_merge_busy`, `get_free_busy` of
--   macos_apps_mcp/adapters/calendar.py.
-- - Mail/Ids, Mail/Address: the forms of a Message-ID, `mailbox_args` and `resolve_mailbox` of
--   macos_apps_mcp/adapters/mail_addressing.py.
-- - Mail/Recover: macos_apps_mcp/adapters/mail_recover.py. Recover itself has the targets, the records
--   of the log and the checks; Recover/Locate: `locate`, `read_payloads`; Recover/Backup: `_backup`;
--   Recover/Act: `preview` and `recoverable` up to the record of the plan; Recover/Run: the act, the
--   record of its outcome and the report; Recover/Undo: `find_receipt`, `_left_sources`, `undo_plan`;
--   Recover/Storage: `backup_limit`, `backup_usage`, `backup_advisory`.
--   The state is the audit log of Audit/Log, the counter of receipts, the files of the backup, and
--   Mail as an unknown type that the scripts change.
-- - Mail/Outcomes, Mail/Write, Mail/Undo: `move_mail`, `trash_mail`, `dedupe_batch` and `undo` of
--   macos_apps_mcp/adapters/mail.py, on the plane. The scripts and the reads of the index are records
--   of functions.
-- - Contracts: macos_apps_mcp/contracts.py. Contracts/Rule: `Recurrence` and its checks; Contracts/Rrule:
--   `from_rrule`, `parse_recurrence` and what they read; Contracts/Member: `dtstart_in_rule`;
--   Contracts/Wire: `deletion_result`, `read_result`, `parse_optional`; Contracts/Payload: the checks
--   of reminders and alarms. An instant is a type that the datetime functions work on.
-- - Mail/Attach: `save_attachment` of macos_apps_mcp/adapters/mail_attachments.py, over Files/Disk.
-- - MailboxUrl: macos_apps_mcp/adapters/mailbox_url.py.
-- - Dedupe: macos_apps_mcp/dedupe.py. Dedupe/Options: `_parse`. Dedupe/Plan: `_sets`,
--   `cross_account_plan`, `_chunks`. Dedupe/Pass: `_preflight_trash`, and the record `Mail` through
--   which both passes see Mail and its index. Dedupe/Mailboxes: `_run_mailbox` and `dedupe_mail`.
--   Dedupe/Accounts: `_run_cross_account`.
-- - Files: macos_apps_mcp/files.py. Files/Name: `safe_basename`; Files/Disk: `resolve_dest`,
--   `target_path`, `staging` and its sweep, `publish`, `confirm_written`, on a disk that is a list of
--   paths with their entries. Which calls the system refuses is a parameter.
-- - Photos: `PhotosAdapter.export` of macos_apps_mcp/adapters/photos.py, over Files/Disk.
-- - Errors: `resolve_container`, `verify_persisted` and `require_batch_within` of
--   macos_apps_mcp/errors.py.
-- - Text: macos_apps_mcp/text.py. Text/Framing: `split_framed`, `parse_framed`. Text/Hygiene: the
--   cleaning of lines and bodies. Text/Values: the coercers. Text/Matching: the keys under which
--   texts are compared.
--
-- Conventions. A time is a natural number: in Calendar/FreeBusy of ticks since 1970, with their
-- number in a second as a parameter. Times before 1970 are left out. Library functions that the source calls (`str.lower`,
-- `parse_qs`, pydantic's coercion, the size of a serialised record) are parameters. A loop is
-- a recursion on the list that it walks. The decimal spelling of a number takes the number and one
-- as fuel, and each round drops a digit. The two loops that walk a list in steps, `chunks_in` and
-- `tuples_in`, take a number of rounds: it is the length of the list, and each round drops an
-- element at least.
--
-- Not modelled: the text of the AppleScript and the Apple frameworks behind the adapters, the
-- sqlite queries, the HTML of the dashboard, and the process life cycle. Their results appear as
-- parameters where a modelled part uses them.
pub mod Base
pub mod Calendar
pub mod Contracts
pub mod Dashboard
pub mod Mail
pub mod MailboxUrl
pub mod Dedupe
pub mod Text
pub mod Files
pub mod Errors
pub mod Tiers
pub mod Registry
pub mod Audit
pub mod Notices
pub mod Photos
