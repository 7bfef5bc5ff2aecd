-- ===== src/Mail/Address.antt =====
-- How macos_apps_mcp/adapters/mail_addressing.py reads a mailbox that a caller names. `str.lower`,
-- `unquote`, `casefold` and the query of the mailboxes are parameters.
use macos_apps_mcp.Base.{
  Str, codes, Bool, true, ◌&&◌, Option, none, some, List, [], ◌∷◌, if◌then◌else◌, ◌==◌, nat_eq,
  list_eq, contains,
}
use macos_apps_mcp.Base.Result.{Result, ok, err, ◌>>=◌}
use macos_apps_mcp.Base.Text.{strip, starts_with}
use macos_apps_mcp.MailboxUrl.{parse}
use macos_apps_mcp.Mail.Recover.{Failure, value_error, type_error}

-- `SYSTEM_MAILBOXES`
abbrev pub system_mailboxes : List Str
system_mailboxes = codes "inbox" ∷ codes "sent" ∷ codes "drafts" ∷ codes "trash" ∷ codes "junk" ∷ []

-- `needle in s`
unfoldable pub is_within : Str → Str → Bool
is_within needle [] = needle == []
is_within needle (c ∷ s) =
    let rest = is_within needle s in if starts_with needle (c ∷ s) then true else rest

-- `is_mailbox_url`
abbrev pub is_mailbox_url : Str → Bool
is_mailbox_url mailbox = is_within (codes "://") mailbox

-- An account id and a path, as the scripts take them.
abbrev pub Box : Type 0
Box = Str × Str

module _ (lower unquote : Str → Str) where
  -- `validate_mailbox`
  unfoldable pub validate_mailbox : Str → Result Failure Str
  validate_mailbox mailbox =
      if contains system_mailboxes (lower (strip mailbox))
      then ok (lower (strip mailbox))
      else err value_error

  -- `mailbox_args`
  unfoldable pub mailbox_args : Str → Result Failure Box
  mailbox_args mailbox =
      if strip mailbox == [] then err value_error else (elim (parse unquote (strip mailbox)) [
        | none ↦ validate_mailbox (strip mailbox) >>= λ canon. ok ([], canon)
        | some (scheme, account, path) ↦
            if account == []
            then err value_error
            else if path == []
            then err value_error
            else ok (if lower scheme == codes "local" then codes "local" else account, path)
      ])

-- The account and the path that a url names, casefolded; empty ones for no url.
abbrev pub place_of : (Str → Str) → (Str → Str) → Str → Str × Str
place_of unquote fold url = elim (parse unquote url) [
  | none ↦ (fold [], fold [])
  | some (_, account, path) ↦ (fold account, fold path)
]

module _ (unquote fold : Str → Str) where
  -- Whether a url matches the name: exactly if the name is a url, else by a part of its path.
  unfoldable pub is_named : Str → Option (Str × Str) → Str → Bool
  is_named name (some (want_uuid, want_path)) url =
      let (uuid, path) = place_of unquote fold url in uuid == want_uuid && path == want_path
  is_named name none url =
      let (uuid, path) = place_of unquote fold url in is_within (fold (unquote name)) path

  abbrev pub is_of_account : Option Str → Str → Bool
  is_of_account none url = true
  is_of_account (some []) url = true
  is_of_account (some (c ∷ wanted)) url = (place_of unquote fold url).0 == c ∷ wanted

  -- The loop of `resolve_mailbox`.
  unfoldable pub named_boxes : Option Str → Str → Option (Str × Str) → List Str → List Str
  named_boxes account name wanted [] = []
  named_boxes account name wanted (url ∷ urls) =
      let rest = named_boxes account name wanted urls in
      if is_of_account account url && is_named name wanted url then url ∷ rest else rest

  -- `resolve_mailbox`, for an account that is resolved and casefolded.
  unfoldable pub resolve_mailbox : List Str → Str → Option Str → Result Failure (List Str)
  resolve_mailbox urls name account =
      if is_mailbox_url name
      then (elim (parse unquote name) [
        | none ↦ err type_error
        | some (_, uuid, path) ↦ ok (named_boxes account name (some (fold uuid, fold path)) urls)
      ])
      else ok (named_boxes account name none urls)
