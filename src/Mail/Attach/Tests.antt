-- ===== src/Mail/Attach/Tests.antt =====
-- An attachment that is saved next to another file.
use macos_apps_mcp.Base.{codes, none, some, [], ◌∷◌, list_eq, nat_eq}
use macos_apps_mcp.Base.Dict.{insert}
use macos_apps_mcp.Base.Result.{ok}
use macos_apps_mcp.Files.Disk.{Disk, file, directory}
use macos_apps_mcp.Files.Disk.Kept.{AllKept}
use macos_apps_mcp.Files.Disk.Sample.{root, os, insert_only}
use macos_apps_mcp.Mail.Attach.{Access, save_attachment}
use macos_apps_mcp.Mail.Attach.Kept.{SavesAt, save_attachment-AllKept}

abbrev access : Access
access = record {
  resolve = λ ident folder. ok record { id = ident; folder = codes "imap://A/INBOX" };
  records =
      λ _ _. ok ((record { id = codes "1.2"; name = codes "plan.pdf"; size = some 2 } ∷ []) ∷ []);
  save = λ _ _ _ path disk. (ok (codes "2"), insert path (file (1 ∷ 2 ∷ [])) disk);
  int_or_none = λ _. some 2;
  bool_or_none = λ _. none;
}

access-SavesAt : SavesAt access
access-SavesAt target name ident path disk = insert_only path (file (1 ∷ 2 ∷ [])) disk

abbrev disk : Disk
disk = (codes "other.pdf" ∷ root, file (3 ∷ [])) ∷ (root, directory 501 0o755) ∷ []

save_attachment-AllKept_example :
    AllKept disk
      (save_attachment os access
        (codes "a@x")
        (codes "")
        (codes "")
        (codes "1.2")
        (codes "")
        disk).1
save_attachment-AllKept_example =
    save_attachment-AllKept os access (codes "a@x") (codes "") (codes "") (codes "1.2") (codes "")
      disk access-SavesAt
