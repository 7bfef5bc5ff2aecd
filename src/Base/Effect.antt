-- ===== src/Base/Effect.antt =====
-- Calls that may raise and that change a state, in sequence.
use macos_apps_mcp.Base.Result.{Result, ok, err}

abbrev pub Effect : Type 0 → Type 0 → Type 0 → Type 0
Effect W E A = W → Result E A × W

module _ {W : Type 0} {E : Type 0} {A : Type 0} where
  abbrev pub give : A → Effect W E A
  give a w = (ok a, w)

  abbrev pub lift : Result E A → Effect W E A
  lift r w = (r, w)

  -- What comes after a call: nothing, if it raised.
  abbrev pub resume : {B : Type 0} → (A → Effect W E B) → Result E A × W → Result E B × W
  resume next (ok a, w) = next a w
  resume next (err e, w) = (err e, w)

  infixl 5 ◌>>>◌
  abbrev pub ◌>>>◌ : {B : Type 0} → Effect W E A → (A → Effect W E B) → Effect W E B
  (m >>> next) w = resume next (m w)
