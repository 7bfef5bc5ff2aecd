-- ===== src/Text/Values.antt =====
-- The coercers of macos_apps_mcp/text.py: numbers, truth values and lists of addresses.
-- `str.isdigit`, `int` and `str.lower` are parameters; `int` raises on a text it does not take.
use macos_apps_mcp.Base.{
  Str, codes, ◌≡◌, Bool, true, Option, none, some, List, [], ◌∷◌, arith, if◌then◌else◌, ◌==◌,
  nat_eq, list_eq, contains,
}
use macos_apps_mcp.Base.Integer.{ℤ, pos}
use macos_apps_mcp.Base.Result.{Result, ok, err}
use macos_apps_mcp.Base.Text.{strip, lstrip, split}

-- `ValueError`
pub data Refused : Type 0 where
  value_error : Refused

abbrev pub mapped : Result Refused ℤ → Result Refused (Option ℤ)
mapped (ok n) = ok (some n)
mapped (err e) = err e

module _ (is_digit : Str → Bool) (int : Str → Result Refused ℤ) where
  -- `int_or_none`
  unfoldable pub int_or_none : Str → Result Refused (Option ℤ)
  int_or_none s =
      let number = mapped (int (strip s)) in if is_digit (strip s) then number else ok none

  -- `int_or_zero`
  unfoldable pub int_or_zero : Str → Result Refused ℤ
  int_or_zero s =
      let number = int (strip s) in
      if is_digit (lstrip (λ c. c == b'-') (strip s)) then number else ok (pos 0)

  -- A number with two signs in front is not read as zero: the test skips all of them, and `int`,
  -- which takes no second sign, raises.
  pub int_or_zero_raises :
      (s digits : Str)
      → strip s ≡ b'-' ∷ b'-' ∷ digits
      → lstrip (λ c. c == b'-') digits ≡ digits
      → is_digit digits ≡ true
      → int (b'-' ∷ b'-' ∷ digits) ≡ err value_error
      → int_or_zero s ≡ err value_error
  unfolding int_or_zero lstrip
  int_or_zero_raises s digits e free d refused = rw e (rw free (rw d refused))

module _ (lower : Str → Str) where
  -- `bool_or_none`
  unfoldable pub bool_or_none : Str → Option Bool
  bool_or_none s =
      if contains (codes "true" ∷ codes "false" ∷ []) (lower (strip s))
      then some (lower (strip s) == codes "true")
      else none

  -- `bool_strict`
  unfoldable pub bool_strict : Str → Bool
  bool_strict s = lower (strip s) == codes "true"

  unfoldable pub addresses : List Str → List Str
  addresses [] = []
  addresses (a ∷ rest_of) =
      let rest = addresses rest_of in if strip a == [] then rest else lower (strip a) ∷ rest

  -- `addr_list`
  unfoldable pub addr_list : Str → List Str
  addr_list s = addresses (split b',' s)

  -- The tri-state and the strict reading agree wherever the tri-state knows.
  pub bool_or_none_lem : (s : Str) (b : Bool) → bool_or_none s ≡ some b → bool_strict s ≡ b
  unfolding bool_or_none bool_strict
  bool_or_none_lem s b h = ground (arith, h)
