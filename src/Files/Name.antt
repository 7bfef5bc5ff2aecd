-- ===== src/Files/Name.antt =====
-- `safe_basename` and `_truncate` of macos_apps_mcp/files.py. The NFC form of a text and the
-- categories of characters that are dropped are parameters; a lone surrogate, which has no UTF-8
-- form, is one of the dropped.
pub mod Bytes
pub mod Safe
mod Tests
use macos_apps_mcp.Base.{
  ℕ, ◌+◌, ◌-◌, Str, codes, Bool, true, false, not, ◌||◌, List, [], ◌∷◌, ◌++◌, leb, ltb,
  if◌then◌else◌, ◌==◌, nat_eq, list_eq, contains, select,
}
use mathlib.Core.List.{reverse}
use macos_apps_mcp.Base.Text.{strip, split, partition}
use macos_apps_mcp.MailboxUrl.{last_piece}

abbrev pub max_name_bytes : ℕ
max_name_bytes = 200

-- The bytes of one character in UTF-8.
abbrev pub utf8_size : ℕ → ℕ
utf8_size c = if ltb c 0x80 then 1 else if ltb c 0x800 then 2 else if ltb c 0x10000 then 3 else 4

-- `len(s.encode())`
unfoldable pub bytes : Str → ℕ
bytes [] = 0
bytes (c ∷ s) = utf8_size c + bytes s

-- `s.encode()[:budget].decode(errors="ignore")`: the characters that fit whole.
unfoldable pub take_bytes : ℕ → Str → Str
take_bytes budget [] = []
take_bytes budget (c ∷ s) =
    let rest = take_bytes (budget - utf8_size c) s in
    if leb (utf8_size c) budget then c ∷ rest else []

-- `name.rpartition(".")`, when there is a dot; the middle part says if there is one.
unfoldable pub rpartition : Str → Str × Bool × Str
rpartition name =
    let (ext, found, stem) = partition b'.' (reverse name) in (reverse stem, found, reverse ext)

-- The longer branch of `_truncate`.
unfoldable pub shorten : Str → Str
shorten name =
    let (stem, dot, ext) = rpartition name in
    if not dot || ltb 20 (bytes ext)
    then take_bytes max_name_bytes name
    else take_bytes (max_name_bytes - (1 + bytes ext)) stem ++ (b'.' ∷ ext)

-- `_truncate`
unfoldable pub truncate : Str → Str
truncate name = if leb (bytes name) max_name_bytes then name else shorten name

-- `n.rsplit(sep, 1)[-1]`
unfoldable pub after_last : ℕ → Str → Str
after_last sep s = last_piece (split sep s)

abbrev pub hides : Str → Bool
hides [] = false
hides (c ∷ _) = c == b'.'

-- The tests on the stripped name.
unfoldable pub guarded : Str → Str → Str
guarded fallback n =
    if contains ([] ∷ codes "." ∷ codes ".." ∷ []) n
    then fallback
    else truncate (if hides n then b'_' ∷ n else n)

module _ (nfc : Str → Str) (is_forbidden : ℕ → Bool) where
  -- The last component under every separator, of the characters that are left.
  unfoldable pub component : Str → Str
  component name =
      after_last b':'
        (after_last 0x5C (after_last b'/' (select (λ c. not (is_forbidden c)) (nfc name))))

  -- `safe_basename`
  unfoldable pub safe_basename : Str → Str → Str
  safe_basename name fallback = guarded fallback (strip (component name))
