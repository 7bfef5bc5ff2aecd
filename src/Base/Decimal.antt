-- ===== src/Base/Decimal.antt =====
-- Python's decimal spelling of a natural number, also padded with zeros (`{n:03d}`).
use Prim.Native.Nat.{ℕ, zero, suc, ◌+◌, ◌-◌, ◌/◌, ◌%◌, ◌≤◌, ◌<◌}
use mathlib.Core.Logic.{inl, inr}
use mathlib.Core.List.{[], ◌∷◌, ◌++◌}
use native.Mathlib.Omega.{arith}
use macos_apps_mcp.Base.Logic.{if◌then◌else◌, ltb, ltb→lt, Bool-cases}
use macos_apps_mcp.Base.Lists.{All, All-append, length}
use macos_apps_mcp.Base.Text.{Str}

-- The digits of a number, given at least as much fuel as it has digits.
unfoldable pub digits_within : ℕ → ℕ → Str
digits_within zero n = []
digits_within (suc fuel) n =
    let front = digits_within fuel (n / 10) in
    if ltb n 10 then (48 + n) ∷ [] else front ++ (48 + n % 10) ∷ []

-- `str(n)`: a number has no more digits than its value and one.
abbrev pub decimal : ℕ → Str
decimal n = digits_within (suc n) n

abbrev pub zeros : ℕ → Str
zeros zero = []
zeros (suc n) = b'0' ∷ zeros n

-- `f"{n:03d}"`
unfoldable pub padded : ℕ → ℕ → Str
padded width n = zeros (width - length (decimal n)) ++ decimal n

abbrev pub IsDigit : ℕ → Type 0
IsDigit c = (48 ≤ c) × (c < 58)

digits_within-IsDigit : (fuel n : ℕ) → All IsDigit (digits_within fuel n)
unfolding digits_within
digits_within-IsDigit zero n = tt
digits_within-IsDigit (suc fuel) n = elim (Bool-cases (ltb n 10)) [
  | inl small ↦ rw small ((omega arith, omega (arith, ltb→lt n 10 small)), tt)
  | inr large ↦ rw large (
      All-append IsDigit (digits_within fuel (n / 10)) ((48 + n % 10) ∷ [])
        (digits_within-IsDigit fuel (n / 10)) ((omega arith, omega arith), tt))
]

zeros-IsDigit : (n : ℕ) → All IsDigit (zeros n)
zeros-IsDigit zero = tt
zeros-IsDigit (suc n) = ((omega arith, omega arith), zeros-IsDigit n)

-- A padded number is made of digits.
pub padded-IsDigit : (width n : ℕ) → All IsDigit (padded width n)
unfolding padded
padded-IsDigit width n =
    All-append IsDigit (zeros (width - length (decimal n))) (decimal n)
      (zeros-IsDigit (width - length (decimal n))) (digits_within-IsDigit (suc n) n)
