-- ===== src/MailboxUrl/Tests.antt =====
-- An example of a mailbox url.
use macos_apps_mcp.Base.{
  Str, codes, ◌≡◌, refl, true, false, none, some, [], if◌then◌else◌, ◌==◌, nat_eq, list_eq,
  list_beq,
}
use macos_apps_mcp.Base.Text.{strip, lstrip, split, is_space}
use macos_apps_mcp.MailboxUrl.{parse, account, path, make, leaf, is_trash, trash_names}
use macos_apps_mcp.MailboxUrl.Grammar.{parse-make}

abbrev same : Str → Str
same s = s

trimmed :
    strip (make (codes "imap") (codes "A-1") (codes "INBOX"))
    ≡ make (codes "imap") (codes "A-1") (codes "INBOX")
unfolding strip lstrip make is_space
trimmed = refl

parse-make_example :
    (parse same (make (codes "imap") (codes "A-1") (codes "INBOX"))
      ≡ some (codes "imap", codes "A-1", codes "INBOX"))
    × (account same (make (codes "imap") (codes "A-1") (codes "INBOX"))
        ≡ (if codes "A-1" == [] then none else some (codes "A-1")))
    × (path same (make (codes "imap") (codes "A-1") (codes "INBOX")) ≡ codes "INBOX")
parse-make_example = parse-make same (codes "imap") (codes "A-1") (codes "INBOX") refl refl trimmed

bin_is_trash : is_trash same same (codes "imap://A/Bin") ≡ true
unfolding is_trash leaf trash_names split list_beq
bin_is_trash = refl

folder_is_not : is_trash same same (codes "imap://A/Bins") ≡ false
unfolding is_trash leaf trash_names split list_beq
folder_is_not = refl
