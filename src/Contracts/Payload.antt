-- ===== src/Contracts/Payload.antt =====
-- The checks of `ReminderData` and `CalendarEventData` of macos_apps_mcp/contracts.py. An instant is
-- a parameter; the fields without a check are left out.
pub mod Alarms
use macos_apps_mcp.Base.{
  ℕ, Str, Bool, true, false, not, ◌&&◌, Option, none, some, List, [], ◌∷◌, if◌then◌else◌, ◌==◌,
  nat_eq, ltb, length, some_of, is_some,
}
use macos_apps_mcp.Base.Integer.{ℤ, pos, negsuc, int_eq, int_le}
use macos_apps_mcp.Base.Result.{Result, ok, err, ◌>>◌, ◌>>=◌, raise_if}
use macos_apps_mcp.Base.Sort.{unique}
use macos_apps_mcp.Contracts.Rule.{Invalid, value_error}
use macos_apps_mcp.Contracts.Rrule.{Change, unspecified, clear_recurrence, repeats}

pub record ReminderData (T : Type 0) : Type 0 where
  pub title : Str
  pub due : Option T
  pub priority : ℤ
  pub recurrence : Change T

abbrev pub is_repeating : {T : Type 0} → Change T → Bool
is_repeating unspecified = false
is_repeating clear_recurrence = false
is_repeating (repeats r) = true

-- `ReminderData.__post_init__`
unfoldable pub check_reminder : {T : Type 0} → ReminderData T → Result Invalid (Unit {0})
check_reminder d =
    raise_if (is_repeating d.recurrence && not (is_some d.due)) value_error
    >> raise_if (not (int_le (pos 0) d.priority && int_le d.priority (pos 9))) value_error

abbrev pub is_negative : ℤ → Bool
is_negative (pos n) = false
is_negative (negsuc n) = true

-- An element of `alarms`: an integer that is no bool, or anything else.
pub data Offset : Type 0 where
  minutes : ℤ → Offset
  not_minutes : Offset

-- The test of the type of each alarm.
unfoldable pub whole_minutes : List Offset → Result Invalid (List ℤ)
whole_minutes [] = ok []
whole_minutes (not_minutes ∷ given) = err value_error
whole_minutes (minutes m ∷ given) = whole_minutes given >>= λ alarms. ok (m ∷ alarms)

-- The tests of the values.
unfoldable pub check_minutes : Bool → List ℤ → Result Invalid (Unit {0})
check_minutes all_day alarms =
    raise_if (some_of is_negative alarms && not all_day) value_error
    >> raise_if (not (length (unique alarms) == length alarms)) value_error

-- `CalendarEventData.__post_init__`, of `all_day` and `alarms`; every refusal is a ValueError.
unfoldable pub check_alarms : Bool → Option (List Offset) → Result Invalid (Unit {0})
check_alarms all_day none = ok tt
check_alarms all_day (some given) =
    raise_if (ltb 5 (length given)) value_error >> (whole_minutes given >>= check_minutes all_day)
