-- ===== src/Contracts/Tests.antt =====
-- Examples of repeat rules, bounded reads and alarms.
use macos_apps_mcp.Base.{
  map, ℕ, Str, codes, ◌≡◌, refl, ◌⊎◌, Bool, true, false, ◌&&◌, none, some, List, [], ◌∷◌, take,
  if◌then◌else◌, ◌==◌, ◌≤◌, list_eq, list_beq, nat_eq, some_of, arith, length, leb,
}
use macos_apps_mcp.Base.Integer.{ℤ, pos, negsuc, int_eq}
use macos_apps_mcp.Base.Dates.{is_leap, month_length, days_through, ordinal}
use macos_apps_mcp.Base.Dates.Walk.{IsDate, date}
use macos_apps_mcp.Base.Dict.{insert, lookup}
use macos_apps_mcp.Base.Result.{ok}
use macos_apps_mcp.Base.Sort.{unique, sort_by, insert_by, text_le}
use macos_apps_mcp.Base.Text.{strip, lstrip, is_space, split, partition, starts_with}
use macos_apps_mcp.Contracts.Rule.{
  monthly, Recurrence, post_init, validate_by_parts, validate_together,
}
use macos_apps_mcp.Contracts.Rule.Valid.{IsRule, post_init-IsRule}
use macos_apps_mcp.Contracts.Rrule.{
  Reader, from_rrule, fields_onto, check_parts, frequency_of, rule_of, parse_all, parse_day,
  day_parts, day_of, is_ordinal,
}
use macos_apps_mcp.Contracts.Rrule.Checked.{Parsed, from_rrule-Parsed}
use macos_apps_mcp.Contracts.Member.{period, dtstart_in_rule}
use macos_apps_mcp.Contracts.Member.Total.{dtstart_in_rule_total}
use macos_apps_mcp.Contracts.Wire.{read_result}
use macos_apps_mcp.Contracts.Wire.Bounded.{read_result_complete}
use macos_apps_mcp.Contracts.Payload.{
  Offset, minutes, whole_minutes, check_minutes, check_alarms, is_negative,
}
use macos_apps_mcp.Contracts.Payload.Alarms.{NoRepeat, check_alarms-NoRepeat}

-- The last weekday of each month, of Thursday and Friday.
abbrev last_of : List (ℤ × Str) → Recurrence ℕ
last_of days = record {
  frequency = monthly;
  interval = pos 1;
  count = none;
  until = none;
  byday = days;
  bymonthday = [];
  bymonth = [];
  byyearday = [];
  bysetpos = negsuc 0 ∷ [];
}

abbrev given : Recurrence ℕ
given = last_of ((pos 0, codes "TH") ∷ (pos 0, codes "FR") ∷ [])

abbrev held : Recurrence ℕ
held = last_of ((pos 0, codes "FR") ∷ (pos 0, codes "TH") ∷ [])

given_held : post_init given ≡ ok held
unfolding post_init validate_by_parts validate_together unique sort_by insert_by text_le list_beq
given_held = refl

post_init-IsRule_example : IsRule held
post_init-IsRule_example = post_init-IsRule given held given_held

abbrev digit : ℕ → Bool
digit c = leb b'0' c && leb c b'9'

abbrev reader : Reader ℕ
reader = record {
  upper = λ s. s;
  lower = λ s. if s == codes "MONTHLY" then codes "monthly" else s;
  int = λ s. if s == codes "-1" then some (negsuc 0) else none;
  is_digit = digit;
  from_iso = λ _. none;
  strptime = λ _ _. none;
  mark_utc = λ t. t;
  to_naive_local = λ t. t;
  end_of_day = λ t. t;
}

abbrev text : Str
text = codes "FREQ=MONTHLY;BYDAY=TH,FR;BYSETPOS=-1"

text_held : from_rrule reader text ≡ ok held
unfolding from_rrule fields_onto check_parts frequency_of rule_of parse_all parse_day day_parts
    day_of is_ordinal post_init validate_by_parts validate_together unique sort_by insert_by text_le
    list_beq insert lookup strip lstrip is_space split partition starts_with
text_held = refl

from_rrule-Parsed_example : Parsed reader text held
from_rrule-Parsed_example = from_rrule-Parsed reader text held text_held

thursday-IsDate : IsDate (date 2026 11 26)
unfolding month_length
thursday-IsDate = record {
  year = omega arith;
  month = (omega arith, omega arith);
  day = (omega arith, ground arith);
}

november : period monthly (date 2026 11 26) ≡ some (date 2026 11 1, 30)
unfolding period ordinal days_through month_length is_leap
november = refl

dtstart_in_rule_total_example : (b : Bool) × (dtstart_in_rule held (date 2026 11 26) ≡ some b)
dtstart_in_rule_total_example =
    dtstart_in_rule_total held (date 2026 11 26) (date 2026 11 1) 30 thursday-IsDate (omega arith)
      november

abbrev rows : List ℕ
rows = 4 ∷ 5 ∷ 6 ∷ []

read_result_complete_example :
    ((read_result (take 2 rows) (some 2) none none none).results ≡ rows)
    ⊎ ((read_result (take 2 rows) (some 2) none none none).truncated ≡ true)
read_result_complete_example = read_result_complete rows 2 none none none

abbrev given_alarms : List Offset
given_alarms = minutes (pos 15) ∷ minutes (pos 60) ∷ []

alarms_pass : check_alarms false (some given_alarms) ≡ ok tt
unfolding check_alarms check_minutes whole_minutes unique
alarms_pass = refl

check_alarms-NoRepeat_example :
    (alarms : List ℤ) × (given_alarms ≡ map minutes alarms)
    × (length alarms ≤ 5)
    × NoRepeat alarms
    × ((some_of is_negative alarms ≡ false) ⊎ (false ≡ true))
check_alarms-NoRepeat_example = check_alarms-NoRepeat false given_alarms alarms_pass
