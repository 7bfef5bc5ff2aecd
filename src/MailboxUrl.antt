-- ===== src/MailboxUrl.antt =====
-- macos_apps_mcp/adapters/mailbox_url.py: the grammar `<scheme>://<uuid>/<encoded path>`.
-- `urllib.parse.unquote` and the normalised casefold of a leaf are parameters.
pub mod Grammar
mod Tests
use macos_apps_mcp.Base.{
  Str, codes, Bool, true, false, Option, none, some, List, [], ◌∷◌, ◌++◌, if◌then◌else◌, ◌==◌,
  nat_eq, list_eq, contains, length, drop, map,
}
use macos_apps_mcp.Base.Text.{strip, starts_with, split, partition}

-- `_SPECIALS`: each spelling of a special mailbox, and whether it is a trash.
abbrev pub specials : List (Str × Bool)
specials =
    (codes "Trash", true)
    ∷ (codes "Deleted Messages", true)
    ∷ (codes "Deleted Items", true)
    ∷ (codes "Bin", true)
    ∷ (codes "Prullenbak", true)
    ∷ (codes "Prullenmand", true)
    ∷ (codes "Verwijderde items", true)
    ∷ (codes "Papierkorb", true)
    ∷ (codes "Gelöschte Elemente", true)
    ∷ (codes "Corbeille", true)
    ∷ (codes "Éléments supprimés", true)
    ∷ (codes "Корзина", true)
    ∷ (codes "Удаленные", true)
    ∷ (codes "All Mail", false)
    ∷ (codes "Alle e-mail", false)
    ∷ (codes "Alle Nachrichten", false)
    ∷ (codes "Tous les messages", false)
    ∷ (codes "Вся почта", false)
    ∷ (codes "Archive", false)
    ∷ (codes "Archief", false)
    ∷ (codes "Archiv", false)
    ∷ (codes "Архив", false)
    ∷ (codes "Junk", false)
    ∷ (codes "Spam", false)
    ∷ (codes "Junk E-mail", false)
    ∷ (codes "Junk Email", false)
    ∷ (codes "Junk-E-Mail", false)
    ∷ (codes "Ongewenste e-mail", false)
    ∷ (codes "Ongewenste Email", false)
    ∷ (codes "Courrier indésirable", false)
    ∷ (codes "Indésirables", false)
    ∷ (codes "Спам", false)
    ∷ (codes "Нежелательная почта", false)
    ∷ []

-- The entries of `_SPECIALS` that are a trash.
unfoldable pub trash_names : List (Str × Bool) → List Str
trash_names [] = []
trash_names ((leaf, is_trash) ∷ xs) =
    let rest = trash_names xs in if is_trash then leaf ∷ rest else rest

-- `url.partition(sep)`, for a separator of any length but zero.
unfoldable pub partition_at : Str → Str → Str × Bool × Str
partition_at sep [] = ([], false, [])
partition_at sep (c ∷ s) =
    let (head, found, tail) = partition_at sep s in
    if starts_with sep (c ∷ s)
    then ([], true, drop (length sep) (c ∷ s))
    else (c ∷ head, found, tail)

-- `pieces[-1]`
abbrev pub last_piece : List Str → Str
last_piece [] = []
last_piece (p ∷ []) = p
last_piece (_ ∷ q ∷ ps) = last_piece (q ∷ ps)

module _ (unquote : Str → Str) where
  -- `parse`: the scheme, the account and the decoded path.
  unfoldable pub parse : Str → Option (Str × Str × Str)
  parse url =
      let (scheme, found, rest) = partition_at (codes "://") (strip url) in
      let (uuid, _, raw_path) = partition b'/' rest in
      if found then some (scheme, uuid, unquote raw_path) else none

  -- `account`: an empty one is none.
  unfoldable pub account : Str → Option Str
  account url = elim (parse url) [
    | none ↦ none
    | some (_, uuid, _) ↦ if uuid == [] then none else some uuid
  ]

  -- `path`
  unfoldable pub path : Str → Str
  path url = elim (parse url) [ none ↦ [] | some (_, _, p) ↦ p ]

  -- `leaf`
  unfoldable pub leaf : Str → Str
  leaf url = unquote (last_piece (split b'/' url))

  -- `is_trash`, with `TRASH_LEAVES`.
  unfoldable pub is_trash : (Str → Str) → Str → Bool
  is_trash fold url = contains (map fold (trash_names specials)) (fold (leaf url))

-- `make`
unfoldable pub make : Str → Str → Str → Str
make scheme uuid mailbox_path = scheme ++ (codes "://" ++ (uuid ++ (b'/' ∷ mailbox_path)))
