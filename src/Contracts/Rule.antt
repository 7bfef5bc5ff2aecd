-- ===== src/Contracts/Rule.antt =====
-- `Recurrence` of macos_apps_mcp/contracts.py: the record and its checks. An instant is a parameter.
pub mod Valid
use macos_apps_mcp.Base.{
  ℕ, Str, codes, Bool, true, false, not, ◌&&◌, ◌||◌, Option, none, some, List, [], ◌∷◌,
  if◌then◌else◌, ◌==◌, nat_eq, list_eq, contains, ltb, leb, some_of, is_some,
}
use macos_apps_mcp.Base.Integer.{ℤ, pos, negsuc, int_eq, size, int_le}
use macos_apps_mcp.Base.Equality.{pair_eq}
use macos_apps_mcp.Base.Result.{Result, ok, err, ◌>>◌, raise_if}
use macos_apps_mcp.Base.Sort.{unique, sort_by, text_le}

-- `Frequency`
pub data Frequency : Type 0 where
  daily weekly monthly yearly : Frequency

-- `ValueError`
pub data Invalid : Type 0 where
  value_error : Invalid

-- `_WEEKDAY_CODES`
abbrev pub weekday_codes : List Str
weekday_codes =
    codes "SU" ∷ codes "MO" ∷ codes "TU" ∷ codes "WE" ∷ codes "TH" ∷ codes "FR" ∷ codes "SA" ∷ []

-- An ordinal and a weekday.
abbrev pub Day : Type 0
Day = ℤ × Str

pub record Recurrence (T : Type 0) : Type 0 where
  pub frequency : Frequency
  pub interval : ℤ
  pub count : Option ℤ
  pub until : Option T
  pub byday : List Day
  pub bymonthday : List ℤ
  pub bymonth : List ℤ
  pub byyearday : List ℤ
  pub bysetpos : List ℤ

-- The order of pairs.
abbrev pub day_le : Day → Day → Bool
day_le (a, s) (b, t) = (int_le a b && not (a == b)) || (a == b && text_le s t)

-- `tuple(sorted(set(xs)))`
abbrev pub canonical : List ℤ → List ℤ
canonical xs = sort_by int_le (unique xs)

abbrev pub canonical_days : List Day → List Day
canonical_days xs = sort_by day_le (unique xs)

abbrev pub is_out_of : ℕ → ℤ → Bool
is_out_of limit v = v == pos 0 || ltb limit (size v)

abbrev pub is_no_month : ℤ → Bool
is_no_month v = not (int_le (pos 1) v && int_le v (pos 12))

abbrev pub is_bad_day : Day → Bool
is_bad_day (ordinal, code) = not (contains weekday_codes code) || ltb 53 (size ordinal)

abbrev pub has_ordinal : Day → Bool
has_ordinal (ordinal, code) = not (ordinal == pos 0)

abbrev pub is_past_month : Day → Bool
is_past_month (ordinal, code) = ltb 5 (size ordinal)

abbrev pub has_any {ℓ} : {A : Type ℓ} → List A → Bool
has_any [] = false
has_any (x ∷ xs) = true

abbrev pub is_monthly : Frequency → Bool
is_monthly monthly = true
is_monthly daily = false
is_monthly weekly = false
is_monthly yearly = false

abbrev pub is_yearly : Frequency → Bool
is_yearly yearly = true
is_yearly daily = false
is_yearly weekly = false
is_yearly monthly = false

abbrev pub is_weekly : Frequency → Bool
is_weekly weekly = true
is_weekly daily = false
is_weekly monthly = false
is_weekly yearly = false

abbrev pub is_below_one : ℤ → Bool
is_below_one v = not (int_le (pos 1) v)

abbrev pub is_count_below_one : Option ℤ → Bool
is_count_below_one none = false
is_count_below_one (some v) = is_below_one v

module _ {T : Type 0} where
  -- Whether an ordinal counts inside a month.
  abbrev pub is_in_month : Recurrence T → Bool
  is_in_month r = is_monthly r.frequency || (is_yearly r.frequency && has_any r.bymonth)

  abbrev pub has_by_part : Recurrence T → Bool
  has_by_part r =
      has_any r.byday || (has_any r.bymonthday || (has_any r.bymonth || has_any r.byyearday))

  -- The bans on combinations, at the end of `_validate_by_parts`.
  unfoldable pub validate_together : Recurrence T → Result Invalid (Unit {0})
  validate_together r =
      let long = is_monthly r.frequency || is_yearly r.frequency in
      raise_if (some_of has_ordinal r.byday && not long) value_error
      >> (raise_if (is_in_month r && some_of is_past_month r.byday) value_error
          >> (raise_if (has_any r.bymonthday && is_weekly r.frequency) value_error
              >> (raise_if (has_any r.byyearday && not (is_yearly r.frequency)) value_error
                  >> raise_if (has_any r.bysetpos && not (has_by_part r)) value_error)))

  -- `_validate_by_parts`
  unfoldable pub validate_by_parts : Recurrence T → Result Invalid (Unit {0})
  validate_by_parts r =
      raise_if (some_of (is_out_of 31) r.bymonthday) value_error
      >> (raise_if (some_of (is_out_of 366) r.byyearday) value_error
          >> (raise_if (some_of (is_out_of 366) r.bysetpos) value_error
              >> (raise_if (some_of is_no_month r.bymonth) value_error
                  >> (raise_if (some_of is_bad_day r.byday) value_error >> validate_together r))))

  abbrev pub canonical_rule : Recurrence T → Recurrence T
  canonical_rule r = record r {
    byday = canonical_days r.byday;
    bymonthday = canonical r.bymonthday;
    bymonth = canonical r.bymonth;
    byyearday = canonical r.byyearday;
    bysetpos = canonical r.bysetpos;
  }

  -- `__post_init__`: what building a `Recurrence` gives.
  unfoldable pub post_init : Recurrence T → Result Invalid (Recurrence T)
  post_init r =
      raise_if (is_some r.count && is_some r.until) value_error
      >> (raise_if (is_below_one r.interval) value_error
          >> (raise_if (is_count_below_one r.count) value_error
              >> (validate_by_parts (canonical_rule r) >> ok (canonical_rule r))))
