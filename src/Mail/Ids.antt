-- ===== src/Mail/Ids.antt =====
-- The two forms of a Message-ID in macos_apps_mcp/adapters/mail_addressing.py, and the comparison key.
-- `str.lower` is a parameter.
use macos_apps_mcp.Base.{ℕ, Str, Bool, [], ◌∷◌, ◌++◌, ◌==◌, nat_eq}
use macos_apps_mcp.Base.Text.{strip, lstrip}
use mathlib.Core.List.{reverse}

-- `s.rstrip(c)`
abbrev pub rstrip : (ℕ → Bool) → Str → Str
rstrip p s = reverse (lstrip p (reverse s))

-- `bare_id`
unfoldable pub bare_id : Str → Str
bare_id mid = strip (rstrip (λ c. c == b'>') (lstrip (λ c. c == b'<') (strip mid)))

-- `stored_id`
unfoldable pub stored_id : Str → Str
stored_id mid = b'<' ∷ bare_id mid ++ b'>' ∷ []

-- `_norm_mid`
unfoldable pub norm_mid : (Str → Str) → Str → Str
norm_mid lower mid = lower (bare_id mid)
