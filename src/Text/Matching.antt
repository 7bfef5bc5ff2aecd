-- ===== src/Text/Matching.antt =====
-- The keys under which macos_apps_mcp/text.py compares texts: `norm_text`, `fold_text` and
-- `squash_text`. The Unicode forms, the combining characters and the casefold are parameters.
use macos_apps_mcp.Base.{
  ℕ, Str, codes, ◌≡◌, refl, Bool, false, not, Option, none, some, [], ◌∷◌, ◌++◌, inl, inr,
  Bool-cases, if◌then◌else◌, ◌==◌, nat_eq, list_eq, select, All,
}
use macos_apps_mcp.Base.Dict.{Dict, lookup}
use macos_apps_mcp.Base.Text.{strip}
use macos_apps_mcp.Text.Hygiene.{collapse}

-- `replace("\r\n", "\n").replace("\r", "\n")`
unfoldable pub line_feeds : Str → Str
line_feeds [] = []
line_feeds (c ∷ []) = if c == 0x0D then 0x0A ∷ [] else c ∷ []
line_feeds (c ∷ d ∷ s) =
    let rest = line_feeds (d ∷ s) in
    if c == 0x0D then (if d == 0x0A then rest else 0x0A ∷ rest) else c ∷ rest

-- `s or None`
abbrev pub or_unset : Str → Option Str
or_unset [] = none
or_unset (c ∷ s) = some (c ∷ s)

-- `norm_text`
unfoldable pub norm_text : (Str → Str) → Option Str → Option Str
norm_text nfc none = none
norm_text nfc (some v) = or_unset (line_feeds (nfc v))

-- `_PUNCT_FOLD`
unfoldable pub punct_fold : Dict ℕ Str
punct_fold =
    (0x2018, codes "'")
    ∷ (0x2019, codes "'")
    ∷ (0x201A, codes "'")
    ∷ (0x201B, codes "'")
    ∷ (0x2032, codes "'")
    ∷ (0x201C, 0x22 ∷ [])
    ∷ (0x201D, 0x22 ∷ [])
    ∷ (0x201E, 0x22 ∷ [])
    ∷ (0x201F, 0x22 ∷ [])
    ∷ (0x2033, 0x22 ∷ [])
    ∷ (0x2026, codes "...")
    ∷ []

abbrev pub or_itself : ℕ → Option Str → Str
or_itself c none = c ∷ []
or_itself c (some s) = s

-- `s.translate(_PUNCT_FOLD)`
unfoldable pub translate : Str → Str
translate [] = []
translate (c ∷ s) = or_itself c (lookup c punct_fold) ++ translate s

abbrev pub or_blank : Option Str → Str
or_blank none = []
or_blank (some s) = s

-- `fold_text`
unfoldable pub fold_text : (Str → Str) → (ℕ → Bool) → (Str → Str) → Option Str → Str
fold_text nfkd is_combining casefold v =
    casefold (select (λ c. not (is_combining c)) (nfkd (translate (or_blank v))))

-- `squash_text`
unfoldable pub squash_text : (Str → Str) → Option Str → Str
squash_text nfc v = strip (collapse (nfc (or_blank v)))

-- No carriage return is left.
pub line_feeds_free : (s : Str) → All (λ c. (c == 0x0D) ≡ false) (line_feeds s)
unfolding line_feeds
line_feeds_free [] = tt
line_feeds_free (c ∷ []) = elim (Bool-cases (c == 0x0D)) [
  | inl return ↦ rw return (refl, tt)
  | inr other ↦ rw other (other, tt)
]
line_feeds_free (c ∷ d ∷ s) = elim (Bool-cases (c == 0x0D)) [
  | inl return ↦ rw return (elim (Bool-cases (d == 0x0A)) [
    | inl feed ↦ rw feed (line_feeds_free (d ∷ s))
    | inr alone ↦ rw alone (refl, line_feeds_free (d ∷ s))
  ])
  | inr other ↦ rw other (other, line_feeds_free (d ∷ s))
]
