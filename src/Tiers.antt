-- ===== src/Tiers.antt =====
-- macos_apps_mcp/tiers.py and the role and toggle readers of macos_apps_mcp/deploy.py.
-- `str.lower` is a parameter; a set of names is the list of its members.
pub mod Closed
use macos_apps_mcp.Base.{
  Str, codes, Bool, true, false, not, ◌&&◌, ◌||◌, Option, none, some, List, [], ◌∷◌, if◌then◌else◌,
  ◌==◌, nat_eq, list_eq, contains, take, drop,
}
use macos_apps_mcp.Base.Text.{split, strip}

-- `_read_small`: the text, `FileNotFoundError`, or another `OSError`.
pub data Reading : Type 0 where
  text : Str → Reading
  absent unreadable : Reading

-- What a process starts with: the environment variables (empty where not set), its arguments, and
-- the two toggle files.
pub record Launch : Type 0 where
  pub read_only_var : Str
  pub allow_send_var : Str
  pub adapters_off_var : Str
  pub role_var : Str
  pub argv : List Str
  pub allow_send_toggle : Reading
  pub adapters_off_toggle : Reading

abbrev pub adapters_all_off : Str
adapters_all_off = codes "*"

-- `is_daemon_role`
unfoldable pub is_daemon_role : Launch → Bool
is_daemon_role l = l.role_var == codes "daemon" || take 1 (drop 1 l.argv) == codes "daemon" ∷ []

-- `allow_send_file`: closed when absent or unreadable.
unfoldable pub allow_send_file : Launch → Str
allow_send_file l = elim l.allow_send_toggle [ text s ↦ s | absent ↦ [] | unreadable ↦ [] ]

-- `adapters_off_file`: all off when it exists and cannot be read.
unfoldable pub adapters_off_file : Launch → Str
adapters_off_file l = elim l.adapters_off_toggle [
  | text s ↦ s
  | absent ↦ []
  | unreadable ↦ adapters_all_off
]

abbrev pub is_empty : Str → Bool
is_empty [] = true
is_empty (_ ∷ _) = false

-- An unset variable falls back to the file, in the daemon only.
unfoldable pub or_file : Launch → Str → Str → Str
or_file l val file = if is_empty val && is_daemon_role l then file else val

module _ (lower : Str → Str) where
  -- `read_only`
  unfoldable pub read_only : Launch → Bool
  read_only l =
      contains (codes "1" ∷ codes "true" ∷ codes "yes" ∷ []) (lower (strip l.read_only_var))

  -- `{p.strip() for p in val.split(",") if p.strip()}`, each name changed by `f`.
  unfoldable pub names : (Str → Str) → List Str → List Str
  names f [] = []
  names f (p ∷ ps) =
      let rest = names f ps in if is_empty (strip p) then rest else f (strip p) ∷ rest

  unfoldable pub allow_send_value : Launch → Str
  allow_send_value l = lower (strip (or_file l l.allow_send_var (allow_send_file l)))

  -- `allow_send`
  unfoldable pub allow_send : Launch → Str → Bool
  allow_send l adapter =
      if read_only l
      then false
      else if contains (codes "1" ∷ codes "true" ∷ codes "yes" ∷ codes "all" ∷ [])
          (allow_send_value l)
      then true
      else contains (names (λ p. p) (split b',' (allow_send_value l))) adapter

  -- `adapters_off`
  unfoldable pub adapters_off : Launch → List Str
  adapters_off l =
      names lower (split b',' (or_file l (strip l.adapters_off_var) (adapters_off_file l)))

-- `adapter_enabled`, over the set that was read.
unfoldable pub adapter_enabled : List Str → Str → Bool
adapter_enabled off name = not (contains off adapters_all_off) && not (contains off name)
