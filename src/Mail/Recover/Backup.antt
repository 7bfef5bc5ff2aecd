-- ===== src/Mail/Recover/Backup.antt =====
-- `_backup`, `_backup_dir` and `purge_backup` of macos_apps_mcp/adapters/mail_recover.py. The files
-- below `backup/mail` are a list; what the disk allows is a parameter.
pub mod Kept
use macos_apps_mcp.Base.{
  ℕ, Str, codes, Bool, true, false, not, ◌&&◌, ◌||◌, Option, none, some, List, [], ◌∷◌,
  if◌then◌else◌, ◌==◌, nat_eq, list_eq, option_eq, contains, some_of, select, length,
}
use macos_apps_mcp.Base.Result.{Result, ok, err, ◌>>=◌}
use macos_apps_mcp.Mail.Recover.{Target, absent, Failure, value_error, os_error}
use macos_apps_mcp.Mail.Recover.Locate.{payload_at}

-- A file `<receipt>/<rowid>.eml`.
pub record KeptFile : Type 0 where
  pub receipt : Str
  pub rowid : Option ℕ
  pub bytes : List ℕ

-- The payload of a readable `.emlx`, whether a receipt's directory can be made private, and whether a
-- new file in it can be made and written.
pub record Disk : Type 0 where
  pub payload : Str → Option (List ℕ)
  pub can_enter : Str → Bool
  pub can_write : Str → Option ℕ → Bool

-- The check of `_backup_dir`.
unfoldable pub is_directory_name : Str → Bool
is_directory_name rid =
    not (rid == [] || contains (codes "." ∷ codes ".." ∷ []) rid || contains rid b'/')

abbrev pub is_at : Str → Option ℕ → KeptFile → Bool
is_at rid rowid f = f.receipt == rid && f.rowid == rowid

module _ (disk : Disk) where
  -- `_backup_dir`
  unfoldable pub enter : Str → Result Failure Str
  enter rid =
      if is_directory_name rid
      then (if disk.can_enter rid then ok rid else err os_error)
      else err value_error

  -- The exclusive creation of one file; one that cannot be written is removed again.
  unfoldable pub keep : Str → Option ℕ → List ℕ → List KeptFile → Result Failure (List KeptFile)
  keep rid rowid bytes files =
      if some_of (is_at rid rowid) files || not (disk.can_write rid rowid)
      then err os_error
      else ok (record { receipt = rid; rowid = rowid; bytes = bytes } ∷ files)

  -- The body of the loop of `_backup`.
  unfoldable pub back_up_one :
      Str → Target → List KeptFile → Result Failure (Target × List KeptFile)
  back_up_one rid t files = elim (payload_at disk.payload t.path) [
    | none ↦ ok (record t { fidelity = absent }, files)
    | some bytes ↦ enter rid >>= λ dir. keep dir t.rowid bytes files >>= λ kept.
        ok (record t { backup = some (dir, t.rowid) }, kept)
  ]

  -- `_backup`: the files that are already written stay when a later one fails.
  unfoldable pub back_up :
      Str → List Target → List KeptFile → Result Failure (List Target) × List KeptFile
  back_up rid [] files = (ok [], files)
  back_up rid (t ∷ ts) files = elim (back_up_one rid t files) [
    | err e ↦ (err e, files)
    | ok (t', files') ↦
        let (rest, files'') = back_up rid ts files' in (rest >>= (λ us. ok (t' ∷ us)), files'')
  ]

-- `purge_backup`: the files of one receipt go, and their number is returned.
unfoldable pub purge_backup : (Str → Str) → Str → List KeptFile → ℕ × List KeptFile
purge_backup stripped rid files = (
  length (select (λ f. f.receipt == stripped rid) files),
  select (λ f. not (f.receipt == stripped rid)) files,
)
