-- ===== src/Dedupe/Accounts/Report.antt =====
-- How the cross-account pass of macos_apps_mcp/dedupe.py ends.
use macos_apps_mcp.Base.{ℕ, Str, Bool, true, false, List}
use macos_apps_mcp.Base.Result.{Result, ok, err}
use macos_apps_mcp.Dedupe.Pass.{Stop, system_exit, raised}

pub record Tally : Type 0 where
  pub removed : ℕ
  pub failed : ℕ
  pub refused : Bool

-- A keeper copy that the check did not find.
pub record Lost : Type 0 where
  pub id : Str
  pub mailbox : Str

pub record CrossReport : Type 0 where
  pub tally : Tally
  pub lost : List Lost
  pub kept : ℕ

pub data End : Type 0 where
  no_work previewed : End
  executed : CrossReport → End

-- The status of the process: a refused pass reports what it did before it exits.
abbrev pub status : Result Stop End → ℕ
status (err (system_exit n)) = n
status (err (raised _)) = 1
status (ok no_work) = 0
status (ok previewed) = 0
status (ok (executed r)) = elim r.tally.refused [ true ↦ 2 | false ↦ 0 ]
