-- ===== src/Dedupe/Pass.antt =====
-- What both passes of macos_apps_mcp/dedupe.py use: Mail and its index as the command sees them,
-- how the command ends, and `_preflight_trash`.
use macos_apps_mcp.Base.{
  ℕ, Str, Option, none, some, List, [], ◌∷◌, map, if◌then◌else◌, nat_eq, list_eq, option_eq,
  contains,
}
use macos_apps_mcp.Base.Dict.{Dict}
use macos_apps_mcp.Base.Result.{Result, ok, err}
use macos_apps_mcp.Base.Sort.{unique, sort_by, text_le}
use macos_apps_mcp.Dedupe.Plan.{Row, Copy}

-- What a call of the adapter raises: `AmbiguousTarget` is a `NativeError` too.
pub data Failure : Type 0 where
  ambiguous_target native_error value_error other_error : Failure

-- How the command stops early.
pub data Stop : Type 0 where
  system_exit : ℕ → Stop
  raised : Failure → Stop

-- `query_trash_url`
pub data Trash : Type 0 where
  trash_at : Str → Trash
  no_trash trash_ambiguous : Trash

-- `mail_index` and `MailAdapter`: reads of the index, and the two batches that change the store.
-- A read of the index that raises ends the command, and is left out. A batch gives the number of targets that succeeded.
pub record Mail (W : Type 0) : Type 0 where
  pub duplicate_summary : W → List Str
  pub duplicate_rows : W → Str → List Row
  pub cross_account_rows : W → List Copy
  pub fingerprint : W → ℕ → Option Str
  pub trash_url : W → Str → Trash
  pub dedupe_batch : List Str → Str → W → Result Failure ℕ × W
  pub trash_mail : List Str → Str → W → Result Failure ℕ × W
  pub presence : W → List Str → Str → Result Failure (Dict Str Str)

unfoldable pub known : List (Option Str) → List Str
known [] = []
known (none ∷ xs) = known xs
known (some a ∷ xs) = a ∷ known xs

-- The loop over the accounts.
unfoldable pub check_trash : (Str → Trash) → List Str → Result Stop (Unit {0})
check_trash trash_url [] = ok tt
check_trash trash_url (a ∷ accounts) = elim (trash_url a) [
  | trash_at _ ↦ check_trash trash_url accounts
  | no_trash ↦ err (system_exit 2)
  | trash_ambiguous ↦ err (system_exit 2)
]

-- `_preflight_trash`
unfoldable pub preflight_trash :
    (Str → Option Str) → (Str → Trash) → List Str → Result Stop (Unit {0})
preflight_trash account_of trash_url urls =
    if contains (map account_of urls) none
    then err (system_exit 2)
    else check_trash trash_url (sort_by text_le (unique (known (map account_of urls))))
