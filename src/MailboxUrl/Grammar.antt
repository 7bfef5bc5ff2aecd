-- ===== src/MailboxUrl/Grammar.antt =====
-- `parse`, `account` and `path` take apart what `make` puts together.
use macos_apps_mcp.Base.{
  Str, codes, ◌≡◌, refl, true, false, none, some, [], ◌∷◌, ◌++◌, if◌then◌else◌, ◌==◌, nat_eq,
  list_eq, contains, arith,
}
use macos_apps_mcp.Base.Equality.{nat_beq_iff}
use macos_apps_mcp.Base.Text.{strip, starts_with}
use macos_apps_mcp.Base.Text.Split.{partition-append}
use macos_apps_mcp.MailboxUrl.{partition_at, parse, account, path, make}

-- The first separator is the one after a text without a colon.
partition_at-append :
    (scheme rest : Str)
    → contains scheme b':' ≡ false
    → partition_at (codes "://") (scheme ++ (codes "://" ++ rest)) ≡ (scheme, true, rest)
unfolding partition_at starts_with
partition_at-append [] rest h = refl
partition_at-append (c ∷ scheme) rest h =
    ground (arith, partition_at-append scheme rest, nat_beq_iff b':' c)

-- A mailbox url that `make` builds from a scheme without a colon and an account without a slash,
-- and that has no space around it, parses into the scheme, the account and the decoded path; its
-- account is that one unless it is empty, and its path is the decoded path.
pub parse-make :
    (unquote : Str → Str) (scheme uuid p : Str)
    → contains scheme b':' ≡ false
    → contains uuid b'/' ≡ false
    → strip (make scheme uuid p) ≡ make scheme uuid p
    → (parse unquote (make scheme uuid p) ≡ some (scheme, uuid, unquote p))
      × (account unquote (make scheme uuid p) ≡ (if uuid == [] then none else some uuid))
      × (path unquote (make scheme uuid p) ≡ unquote p)
parse-make unquote scheme uuid p hs hu trimmed =
    (parsed, unfold account in rw (parsed, account) refl, unfold path in rw (parsed, path) refl)
  where
    parsed : parse unquote (make scheme uuid p) ≡ some (scheme, uuid, unquote p)
    parsed =
        unfold parse in
        rw trimmed (
          unfold make in
          rw (partition_at-append scheme (uuid ++ (b'/' ∷ p)) hs)
            (rw (partition-append b'/' uuid p hu) refl))
