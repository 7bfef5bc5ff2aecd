-- ===== src/Mail/Attach/Kept.antt =====
-- What a saved attachment leaves on the disk.
use macos_apps_mcp.Base.{
  ℕ, ◌≡◌, Str, codes, ◌&&◌, none, [], inl, inr, ◌==◌, nat_eq, list_eq, Bool-cases,
}
use macos_apps_mcp.Base.Dict.{lookup}
use macos_apps_mcp.Base.Effect.{Effect, give, lift, ◌>>>◌}
use macos_apps_mcp.Base.Result.{Result, ok, err}
use macos_apps_mcp.Base.Text.{strip}
use macos_apps_mcp.Files.Disk.{Place, Disk, FileError, Os, target_path, confirm_written}
use macos_apps_mcp.Files.Disk.Contained.{target_path_free}
use macos_apps_mcp.Files.Disk.Kept.{Kept, AllKept, Nothing, Kept-AllKept, resume-Kept}
use macos_apps_mcp.Files.Disk.Made.{target_path-AllKept}
use macos_apps_mcp.Files.Disk.Staged.{confirm_written-Kept}
use macos_apps_mcp.Mail.Attach.{
  Access, Message, or_none, file_name_of, saved_as, save_under, save_wanted, save_attachment,
}

-- The script writes only at the path that it is given.
abbrev pub SavesAt : Access → Type 0
SavesAt access =
    (target : Message) (name ident : Str) (path : Place) (disk : Disk)
    → Kept (λ q. q ≡ path) disk (access.save target name ident path disk).1

-- A path where nothing was is no loss.
none_lost :
    (path : Place) (a b : Disk) → lookup path a ≡ none → Kept (λ q. q ≡ path) a b → AllKept a b
none_lost path a b free kept q e h = elim (kept q e h) [
  | inr there ↦ there
  | inl same ↦ let absent : lookup q a ≡ none = rw same free in cc (absent, h)
]

module _ (os : Os) (access : Access) where
  saved-Kept :
      (target : Message) (name ident file_name : Str) (path : Place) (disk : Disk)
      → SavesAt access
      → Kept
          (λ q. q ≡ path)
          disk
          ((access.save target name ident path >>> λ raw. confirm_written os path >>> λ n.
              give (saved_as os access target path file_name raw n))
            disk).1
  saved-Kept target name ident file_name path disk inside =
      resume-Kept (λ q. q ≡ path) _ (access.save target name ident path disk) disk
        (inside target name ident path disk)
        (λ (raw : Str) (d : Disk) made.
          resume-Kept (λ q. q ≡ path) _ (confirm_written os path d) d
            (confirm_written-Kept os path d) (λ (n : ℕ) (d : Disk) made. λ q e h. inr h))

  save_under-Kept :
      (target : Message) (dest_dir name ident file_name : Str) (disk : Disk)
      → SavesAt access
      → AllKept disk (save_under os access target dest_dir name ident file_name disk).1
  unfolding save_under
  save_under-Kept target dest_dir name ident file_name disk inside =
      let file = codes "attachment" in
      Kept-AllKept disk (save_under os access target dest_dir name ident file_name disk).1 (
        resume-Kept Nothing _ (target_path os dest_dir file_name file disk) disk
          (λ q e h. inr (target_path-AllKept os dest_dir file_name file disk q e h))
          (λ (path : Place) (d : Disk) made. λ q e h. inr (
            none_lost path d _ (target_path_free os dest_dir file_name file disk path d made)
              (saved-Kept target name ident file_name path d inside) q e h)))

  lift-AllKept :
      {A B : Type 0} (next : A → Effect Disk FileError B) (r : Result FileError A) (disk : Disk)
      → ((a : A) → AllKept disk (next a disk).1)
      → AllKept disk ((lift r >>> next) disk).1
  lift-AllKept next (ok a) disk kept = kept a
  lift-AllKept next (err e) disk kept = λ q e h. h

  save_wanted-Kept :
      (dest_dir name ident : Str) (target : Message) (disk : Disk)
      → SavesAt access
      → AllKept disk (save_wanted os access dest_dir name ident target disk).1
  unfolding save_wanted
  save_wanted-Kept dest_dir name ident target disk inside q e h =
      elim (Bool-cases (name == [] && ident == [])) [
        | inl nothing ↦ rw nothing h
        | inr wanted ↦ rw wanted (
            lift-AllKept (save_under os access target dest_dir name ident)
              (file_name_of os access target name ident) disk
              (λ file_name. save_under-Kept target dest_dir name ident file_name disk inside) q e h)
      ]

  -- Whatever save_attachment answers or raises, each file, link and directory that was on the disk is
  -- there unchanged, also if the file came back empty and was removed. It holds if the script in Mail
  -- writes only at the path that it is given.
  pub save_attachment-AllKept :
      (message_id dest_dir name attachment_id mailbox : Str) (disk : Disk)
      → SavesAt access
      → AllKept disk
          (save_attachment os access message_id dest_dir name attachment_id mailbox disk).1
  unfolding save_attachment
  save_attachment-AllKept message_id dest_dir name attachment_id mailbox disk inside =
      lift-AllKept (save_wanted os access dest_dir (strip name) (strip attachment_id))
        (access.resolve message_id (or_none mailbox)) disk
        (λ target. save_wanted-Kept dest_dir (strip name) (strip attachment_id) target disk inside)
