-- ===== src/Base/Text/Strip.antt =====
-- `strip`.
use mathlib.Core.Path.{◌≡◌, refl}
use mathlib.Core.Bool.{Bool, false}
use mathlib.Core.List.{[], ◌∷◌, reverse, reverse-reverse, reverse-append}
use Prim.Native.Nat.{ℕ}
use macos_apps_mcp.Base.Lists.{All, All-append}
use macos_apps_mcp.Base.Text.{Str, lstrip}

module _ (p : ℕ → Bool) where
  -- No code point of the class.
  abbrev pub Free : Str → Type 0
  Free = All (λ c. p c ≡ false)

  pub lstrip-Free : (s : Str) → Free s → lstrip p s ≡ s
  unfolding lstrip
  lstrip-Free [] h = refl
  lstrip-Free (c ∷ s) h = rw h.0

  Free-reverse : (s : Str) → Free s → Free (reverse s)
  Free-reverse [] h = tt
  Free-reverse (c ∷ s) h =
      rw (reverse-append (c ∷ []) s)
        (All-append (λ c. p c ≡ false) (reverse s) (c ∷ []) (Free-reverse s h.1) (h.0, tt))

  -- A text with no code point of the class is left alone at both ends.
  pub strip-Free : (s : Str) → Free s → reverse (lstrip p (reverse (lstrip p s))) ≡ s
  strip-Free s h =
      rw (lstrip-Free s h) (rw (lstrip-Free (reverse s) (Free-reverse s h)) (reverse-reverse s))
