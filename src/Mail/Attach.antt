-- ===== src/Mail/Attach.antt =====
-- `save_attachment` of macos_apps_mcp/adapters/mail_attachments.py. How a message is found, what the
-- list of its attachments is, and what the script in Mail writes, are an interface.
pub mod Kept
mod Tests
use macos_apps_mcp.Base.{
  ℕ, ◌*◌, Str, codes, Bool, true, false, not, ◌&&◌, Option, none, some, List, [], ◌∷◌,
  if◌then◌else◌, ◌==◌, nat_eq, list_eq,
}
use macos_apps_mcp.Base.Effect.{Effect, give, lift, resume, ◌>>>◌}
use macos_apps_mcp.Base.Result.{Result, ok, err}
use macos_apps_mcp.Base.Text.{strip, partition}
use macos_apps_mcp.Files.Disk.{
  Place, Disk, FileError, value_error, native_error, Os, target_path, confirm_written, check_size,
  name_of,
}

-- `MAIL_MAX_BYTES`
abbrev pub mail_max_bytes : ℕ
mail_max_bytes = 25 * 1024 * 1024

-- A row of the list of attachments.
pub record Attachment : Type 0 where
  pub id : Str
  pub name : Str
  pub size : Option ℕ

pub record Message : Type 0 where
  pub id : Str
  pub folder : Str

pub record Access : Type 0 where
  -- `mail_addressing.resolve`
  pub resolve : Str → Option Str → Result FileError Message
  -- `records(folder, "", id, 1)`: the attachments of each message.
  pub records : Str → Str → Result FileError (List (List Attachment))
  -- The script: what it answers, with the name and the id that are wanted, and the path.
  pub save : Message → Str → Str → Place → Effect Disk FileError Str
  pub int_or_none : Str → Option ℕ
  pub bool_or_none : Str → Option Bool

pub record Saved : Type 0 where
  pub saved : Place
  pub original_name : Str
  pub bytes : ℕ
  pub reported_size : Option ℕ
  pub was_downloaded : Option Bool
  pub id : Str
  pub folder : Str

unfoldable pub row_of : Str → List Attachment → Result FileError Attachment
row_of wanted [] = err value_error
row_of wanted (row ∷ rows) = if row.id == wanted then ok row else row_of wanted rows

abbrev pub first_row : Str → Result FileError (List (List Attachment)) → Result FileError Attachment
first_row wanted (err e) = err e
first_row wanted (ok []) = err native_error
first_row wanted (ok (rows ∷ more)) = row_of wanted rows

abbrev pub checked_name : Result FileError Attachment → Result FileError Str
checked_name (err e) = err e
checked_name (ok row) = elim (check_size row.size mail_max_bytes) [
  | err e ↦ err e
  | ok u ↦ ok row.name
]

-- `folder or None`
abbrev pub or_none : Str → Option Str
or_none [] = none
or_none (c ∷ s) = some (c ∷ s)

module _ (os : Os) (access : Access) where
  -- `_listed_attachment`
  unfoldable pub listed_attachment : Message → Str → Result FileError Attachment
  listed_attachment target wanted = first_row wanted (access.records target.folder target.id)

  -- The name under which the attachment is saved.
  unfoldable pub file_name_of : Message → Str → Str → Result FileError Str
  file_name_of target name ident =
      if not (name == []) then ok name else checked_name (listed_attachment target ident)

  abbrev pub saved_as : Message → Place → Str → Str → ℕ → Saved
  saved_as target path file_name raw n =
      let (size, found, downloaded) = partition 0x1F (strip raw) in
      record {
        saved = path;
        original_name = file_name;
        bytes = n;
        reported_size = access.int_or_none size;
        was_downloaded = access.bool_or_none downloaded;
        id = target.id;
        folder = target.folder;
      }

  -- From the choice of the path on.
  unfoldable pub save_under : Message → Str → Str → Str → Str → Effect Disk FileError Saved
  save_under target dest_dir name ident file_name =
      target_path os dest_dir file_name (codes "attachment") >>> λ path.
      access.save target name ident path >>> λ raw.
      confirm_written os path >>> λ n. give (saved_as target path file_name raw n)

  unfoldable pub save_wanted : Str → Str → Str → Message → Effect Disk FileError Saved
  save_wanted dest_dir name ident target =
      if name == [] && ident == []
      then lift (err value_error)
      else (lift (file_name_of target name ident) >>> λ file_name.
          save_under target dest_dir name ident file_name)

  -- `save_attachment`
  unfoldable pub save_attachment : Str → Str → Str → Str → Str → Effect Disk FileError Saved
  save_attachment message_id dest_dir name attachment_id mailbox =
      lift (access.resolve message_id (or_none mailbox))
      >>> save_wanted dest_dir (strip name) (strip attachment_id)
