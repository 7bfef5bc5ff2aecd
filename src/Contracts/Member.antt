-- ===== src/Contracts/Member.antt =====
-- `dtstart_in_rule` of macos_apps_mcp/contracts.py: whether a date is one that a rule describes.
pub mod Total
use macos_apps_mcp.Base.{
  ℕ, zero, suc, ◌+◌, ◌-◌, ◌/◌, ◌%◌, Str, codes, Bool, true, false, not, ◌&&◌, ◌||◌, Option, none,
  some, List, [], ◌∷◌, if◌then◌else◌, ◌==◌, nat_eq, list_eq, contains, some_of, select, length, leb,
  ltb,
}
use macos_apps_mcp.Base.Integer.{ℤ, pos, negsuc, int_eq}
use macos_apps_mcp.Base.Dates.{
  Date, date_eq, is_leap, month_length, days_through, year_day, ordinal, weekday, backward,
  days_from,
}
use macos_apps_mcp.Contracts.Rule.{
  Frequency, daily, weekly, monthly, yearly, weekday_codes, Day, Recurrence, has_any, is_in_month,
}

-- `n - size - 1`
abbrev pub from_end : ℕ → ℕ → ℤ
from_end n size = if leb n size then negsuc (size - n) else pos (n - size - 1)

-- `_is_nth`
unfoldable pub is_nth : ℕ → ℕ → List ℤ → Bool
is_nth n size wanted = contains wanted (pos n) || contains wanted (from_end n size)

-- `xs[n]`, of the weekday codes.
abbrev pub code_at : ℕ → List Str → Str
code_at n [] = []
code_at zero (c ∷ cs) = c
code_at (suc n) (c ∷ cs) = code_at n cs

-- Whether a weekday with an ordinal is the day at a position, of so many.
unfoldable pub is_day_at : Str → ℕ → ℕ → Day → Bool
is_day_at code position size (ordinal, wd) =
    wd == code
    && contains (pos 0 ∷ pos ((position - 1) / 7 + 1) ∷ negsuc ((size - position) / 7) ∷ []) ordinal

module _ {T : Type 0} where
  abbrev pub is_of_days : Recurrence T → Date → Bool
  is_of_days r d =
      let code = code_at ((weekday d + 1) % 7) weekday_codes in
      let year_size = if is_leap d.year then 366 else 365 in
      if is_in_month r
      then some_of (is_day_at code d.day (month_length d.year d.month)) r.byday
      else some_of (is_day_at code (year_day d) year_size) r.byday

  -- `_passes_by_filters`
  unfoldable pub passes_by_filters : Recurrence T → Date → Bool
  passes_by_filters r d =
      let year_size = if is_leap d.year then 366 else 365 in
      if has_any r.bymonth && not (contains r.bymonth (pos d.month))
      then false
      else if has_any r.byyearday && not (is_nth (year_day d) year_size r.byyearday)
      then false
      else if has_any r.bymonthday && not (is_nth d.day (month_length d.year d.month) r.bymonthday)
      then false
      else if not (has_any r.byday)
      then true
      else is_of_days r d

-- `date.max.toordinal()`
abbrev pub max_ordinal : ℕ
max_ordinal = 3652059

abbrev pub in_calendar : Bool → Date → ℕ → Option (Date × ℕ)
in_calendar fits lo n = if fits then some (lo, n) else none

-- `_period`: the first day, and the number of days up to the end, which is not in it. None where the
-- end is past the last date that there is, for the arithmetic of dates raises then.
unfoldable pub period : Frequency → Date → Option (Date × ℕ)
period daily d = in_calendar (leb (ordinal d + 1) max_ordinal) d 1
period weekly d =
    let lo = backward (weekday d) d in in_calendar (leb (ordinal lo + 7) max_ordinal) lo 7
period monthly d =
    let lo = record d { day = 1 } in
    in_calendar (leb (ordinal lo + 32) max_ordinal) lo (month_length d.year d.month)
period yearly d =
    in_calendar (ltb d.year 9999) (record d { month = 1; day = 1 }) (days_through d.year 12)

-- `xs.index(d)`; none where it raises.
unfoldable pub index_of : Date → List Date → Option ℕ
index_of d [] = none
index_of d (x ∷ xs) = elim (index_of d xs) [
  | none ↦ if x == d then some 0 else none
  | some n ↦ if x == d then some 0 else some (suc n)
]

module _ {T : Type 0} where
  abbrev pub position_in : Recurrence T → Date → List Date → Option Bool
  position_in r d candidates = elim (index_of d candidates) [
    | none ↦ none
    | some n ↦ some (is_nth (n + 1) (length candidates) r.bysetpos)
  ]

  -- `dtstart_in_rule`; none where it raises.
  unfoldable pub dtstart_in_rule : Recurrence T → Date → Option Bool
  dtstart_in_rule r d =
      if not (passes_by_filters r d)
      then some false
      else if not (has_any r.bysetpos)
      then some true
      else elim (period r.frequency d) [
        | none ↦ none
        | some (lo, n) ↦ position_in r d (select (passes_by_filters r) (days_from lo n))
      ]
