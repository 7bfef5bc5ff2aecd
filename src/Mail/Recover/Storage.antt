-- ===== src/Mail/Recover/Storage.antt =====
-- The report on the size of the backup tree, in macos_apps_mcp/adapters/mail_recover.py: `backup_limit`,
-- `backup_usage`, `backup_advisory`. The digits of `str.isdigit`, `int` and the disk are parameters.
use macos_apps_mcp.Base.{
  ℕ, zero, suc, ◌+◌, ◌*◌, Str, Bool, not, ◌&&◌, Option, none, some, List, [], ◌∷◌, if◌then◌else◌,
  ◌==◌, nat_eq, list_eq, ltb, take, length, every, map,
}
use macos_apps_mcp.Base.Result.{Result, ok, err}
use macos_apps_mcp.Base.Sort.{sort_by, text_le}
use macos_apps_mcp.Base.Text.{strip}

-- `_DEFAULT_BACKUP_LIMIT`
abbrev pub default_backup_limit : ℕ
default_backup_limit = 1024 * 1024 * 1024

-- What `int` raises.
pub data Unread : Type 0 where
  not_a_number : Unread

-- What `backup_usage` reports; `oldest` is none if there are no receipts.
pub record Usage : Type 0 where
  pub bytes : ℕ
  pub receipts : ℕ
  pub oldest : Option Str

-- A receipt's directory: its name, and the sizes of its files; none where reading on raises.
pub record ReceiptFolder : Type 0 where
  pub name : Str
  pub sizes : List (Option ℕ)

module _ (is_digit : ℕ → Bool) (int : Str → Option ℕ) where
  abbrev pub positive_or_default : Option ℕ → Result Unread ℕ
  positive_or_default none = err not_a_number
  positive_or_default (some zero) = ok default_backup_limit
  positive_or_default (some (suc n)) = ok (suc n)

  -- `backup_limit`, of the environment variable.
  unfoldable pub backup_limit : Str → Result Unread ℕ
  backup_limit given =
      if not (strip given == []) && every is_digit (strip given)
      then positive_or_default (int (strip given))
      else ok default_backup_limit

-- What is added up before reading a directory raises.
unfoldable pub folder_bytes : List (Option ℕ) → ℕ
folder_bytes [] = 0
folder_bytes (none ∷ sizes) = 0
folder_bytes (some n ∷ sizes) = n + folder_bytes sizes

unfoldable pub total_bytes : List ReceiptFolder → ℕ
total_bytes [] = 0
total_bytes (f ∷ fs) = folder_bytes f.sizes + total_bytes fs

abbrev pub oldest_of : List Str → Option Str
oldest_of [] = none
oldest_of (name ∷ names) = some (take 8 name)

-- `backup_usage`; none if the tree cannot be listed.
unfoldable pub backup_usage : Option (List ReceiptFolder) → Usage
backup_usage none = record { bytes = 0; receipts = 0; oldest = none }
backup_usage (some folders) = record {
  bytes = total_bytes folders;
  receipts = length folders;
  oldest = oldest_of (sort_by text_le (map (λ (f : ReceiptFolder). f.name) folders));
}

-- `backup_advisory`, of the limit: what the notice is about.
unfoldable pub backup_advisory : ℕ → Option (List ReceiptFolder) → Option Usage
backup_advisory limit tree =
    let usage = backup_usage tree in if ltb usage.bytes limit then none else some usage
