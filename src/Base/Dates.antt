-- ===== src/Base/Dates.antt =====
-- Python's `date`, and what `calendar` and `datetime` say of it.
pub mod Walk
use Prim.Native.Nat.{ℕ, zero, suc, ◌+◌, ◌-◌, ◌*◌, ◌/◌, ◌%◌}
use mathlib.Core.Path.{◌≡◌, refl}
use mathlib.Core.Logic.{◌↔◌}
use mathlib.Core.Bool.{Bool, true, false, not, ◌&&◌, ◌||◌}
use mathlib.Core.List.{List, [], ◌∷◌}
use native.Mathlib.Omega.{arith}
use macos_apps_mcp.Base.Logic.{if◌then◌else◌, ltb}
use macos_apps_mcp.Base.Equality.{Eq, ◌==◌, nat_eq, nat_beq_iff, contains}

pub record Date : Type 0 where
  pub year : ℕ
  pub month : ℕ
  pub day : ℕ

abbrev pub date_beq : Date → Date → Bool
date_beq a b = a.year == b.year && (a.month == b.month && a.day == b.day)

pub date_beq_iff : (a b : Date) → (date_beq a b ≡ true) ↔ (a ≡ b)
date_beq_iff a b =
    ground (arith, nat_beq_iff a.year b.year, nat_beq_iff a.month b.month, nat_beq_iff a.day b.day)

instance abbrev pub date_eq : Eq Date
date_eq = record { beq = date_beq; beq_iff = date_beq_iff }

-- `calendar.isleap`
unfoldable pub is_leap : ℕ → Bool
is_leap y = (y % 4) == 0 && (not ((y % 100) == 0) || (y % 400) == 0)

-- `calendar.monthrange(y, m)[1]`
unfoldable pub month_length : ℕ → ℕ → ℕ
month_length y m =
    if m == 2
    then (if is_leap y then 29 else 28)
    else if contains (4 ∷ 6 ∷ 9 ∷ 11 ∷ []) m
    then 30
    else 31

-- The days of the first months of a year.
unfoldable pub days_through : ℕ → ℕ → ℕ
days_through y zero = 0
days_through y (suc m) = days_through y m + month_length y (suc m)

-- `d.timetuple().tm_yday`
abbrev pub year_day : Date → ℕ
year_day d = days_through d.year (d.month - 1) + d.day

-- `d.toordinal()`
unfoldable pub ordinal : Date → ℕ
ordinal d = let y = d.year - 1 in ((y * 365 + y / 4 + y / 400) - y / 100) + year_day d

-- `d.weekday()`: Monday is 0.
unfoldable pub weekday : Date → ℕ
weekday d = (ordinal d + 6) % 7

-- `d + timedelta(days=1)`
unfoldable pub next_day : Date → Date
next_day d =
    if ltb d.day (month_length d.year d.month)
    then record d { day = suc d.day }
    else if ltb d.month 12
    then record d { month = suc d.month; day = 1 }
    else record { year = suc d.year; month = 1; day = 1 }

-- `d - timedelta(days=1)`
unfoldable pub previous_day : Date → Date
previous_day d =
    if ltb 1 d.day
    then record d { day = d.day - 1 }
    else if ltb 1 d.month
    then record d { month = d.month - 1; day = month_length d.year (d.month - 1) }
    else record { year = d.year - 1; month = 12; day = 31 }

-- `d + timedelta(days=n)`
unfoldable pub forward : ℕ → Date → Date
forward zero d = d
forward (suc n) d = forward n (next_day d)

-- `d - timedelta(days=n)`
unfoldable pub backward : ℕ → Date → Date
backward zero d = d
backward (suc n) d = previous_day (backward n d)

-- The days from a date on, as many as are asked for.
unfoldable pub days_from : Date → ℕ → List Date
days_from d zero = []
days_from d (suc n) = d ∷ days_from (next_day d) n
