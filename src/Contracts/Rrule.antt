-- ===== src/Contracts/Rrule.antt =====
-- `Recurrence.from_rrule` of macos_apps_mcp/contracts.py, with the parsers of its parts and of the tool
-- arguments. The casing of texts, `int`, the digits of `\d` and the reading of dates are parameters.
pub mod Fields
pub mod Checked
use macos_apps_mcp.Base.{
  ℕ, Str, codes, Bool, true, false, not, ◌&&◌, ◌||◌, Option, none, some, List, [], ◌∷◌, map, drop,
  if◌then◌else◌, ◌==◌, nat_eq, list_eq, contains, every, some_of, is_some, leb,
}
use macos_apps_mcp.Base.Integer.{ℤ, pos, int_eq}
use macos_apps_mcp.Base.Dict.{Dict, keys, lookup, insert}
use macos_apps_mcp.Base.Result.{Result, ok, err, ◌>>=◌, ◌>>◌, raise_if}
use macos_apps_mcp.Base.Text.{strip, split, partition, starts_with}
use macos_apps_mcp.Contracts.Rule.{
  Frequency, daily, weekly, monthly, yearly, Invalid, value_error, weekday_codes, Day, Recurrence,
  post_init,
}

-- `_RRULE_SUPPORTED`
abbrev pub rrule_supported : List Str
rrule_supported =
    codes "FREQ"
    ∷ codes "INTERVAL"
    ∷ codes "COUNT"
    ∷ codes "UNTIL"
    ∷ codes "BYDAY"
    ∷ codes "BYMONTHDAY"
    ∷ codes "BYMONTH"
    ∷ codes "BYYEARDAY"
    ∷ codes "BYSETPOS"
    ∷ []

-- `_RRULE_REJECTED`
abbrev pub rrule_rejected : List Str
rrule_rejected =
    codes "BYWEEKNO" ∷ codes "BYHOUR" ∷ codes "BYMINUTE" ∷ codes "BYSECOND" ∷ codes "WKST" ∷ []

-- Of `str`, `re` and `datetime`: an instant is a `T`.
pub record Reader (T : Type 0) : Type 0 where
  pub upper : Str → Str
  pub lower : Str → Str
  pub int : Str → Option ℤ
  pub is_digit : ℕ → Bool
  pub from_iso : Str → Option T
  pub strptime : Str → Str → Option T
  pub mark_utc : T → T
  pub to_naive_local : T → T
  pub end_of_day : T → T

abbrev pub or_invalid {ℓ} : {A : Type ℓ} → Option A → Result Invalid A
or_invalid none = err value_error
or_invalid (some a) = ok a

abbrev pub is_letter : ℕ → Bool
is_letter c = (leb b'A' c && leb c b'Z') || (leb b'a' c && leb c b'z')

-- The two groups of `_BYDAY_ITEM`: all but the last two characters, and these.
unfoldable pub day_parts : Str → Option (Str × Str)
day_parts [] = none
day_parts (a ∷ []) = none
day_parts (a ∷ b ∷ []) = if is_letter a && is_letter b then some ([], a ∷ b ∷ []) else none
day_parts (a ∷ b ∷ c ∷ s) = elim (day_parts (b ∷ c ∷ s)) [
  | none ↦ none
  | some (front, code) ↦ some (a ∷ front, code)
]

module _ {T : Type 0} (reader : Reader T) where
  -- `[+-]?\d+`
  unfoldable pub is_ordinal : Str → Bool
  is_ordinal [] = false
  is_ordinal (c ∷ digits) =
      (reader.is_digit c && every reader.is_digit digits)
      || ((c == b'+' || c == b'-') && (not (digits == []) && every reader.is_digit digits))

  unfoldable pub day_of : Str → Str → Result Invalid Day
  day_of front code =
      if not (contains weekday_codes (reader.upper code))
      then err value_error
      else if front == []
      then ok (pos 0, reader.upper code)
      else (or_invalid (reader.int front) >>= λ ordinal.
          raise_if (ordinal == pos 0) value_error >> ok (ordinal, reader.upper code))

  -- One item of a BYDAY list.
  unfoldable pub parse_day : Str → Result Invalid Day
  parse_day item = elim (day_parts (strip item)) [
    | none ↦ err value_error
    | some (front, code) ↦
        if front == [] || is_ordinal front then day_of front code else err value_error
  ]

  unfoldable pub parse_all {ℓ} :
      {A : Type ℓ} → (Str → Result Invalid A) → List Str → Result Invalid (List A)
  parse_all f [] = ok []
  parse_all f (item ∷ items) =
      let rest = parse_all f items in f item >>= λ x. rest >>= λ xs. ok (x ∷ xs)

  -- `_parse_byday`
  abbrev pub parse_byday : Str → Result Invalid (List Day)
  parse_byday value = parse_all parse_day (split b',' value)

  -- `_parse_ints`
  abbrev pub parse_ints : Str → Result Invalid (List ℤ)
  parse_ints value = parse_all (λ item. or_invalid (reader.int (strip item))) (split b',' value)

  abbrev pub parsed_by : Str → Option T
  parsed_by s = elim (reader.strptime s (codes "%Y%m%dT%H%M%SZ")) [
    | some t ↦ some (reader.mark_utc t)
    | none ↦ elim (reader.strptime s (codes "%Y%m%dT%H%M%S")) [
      | some t ↦ some t
      | none ↦ reader.strptime s (codes "%Y%m%d")
    ]
  ]

  -- `_rrule_until`
  unfoldable pub rrule_until : Str → Result Invalid T
  rrule_until v =
      or_invalid (elim (reader.from_iso (strip v)) [ some t ↦ some t | none ↦ parsed_by (strip v) ])
      >>= λ t. ok (
          if contains (reader.upper (strip v)) b'T'
          then reader.to_naive_local t
          else reader.end_of_day (reader.to_naive_local t))

  -- The loop over the parts of an RRULE.
  unfoldable pub fields_onto : Dict Str Str → List Str → Result Invalid (Dict Str Str)
  fields_onto out [] = ok out
  fields_onto out (token ∷ tokens) =
      let (key, found, value) = partition b'=' (strip token) in
      let added = insert (reader.upper (strip key)) (strip value) out in
      if strip token == []
      then fields_onto out tokens
      else if found
      then fields_onto added tokens
      else err value_error

  abbrev pub body_of : Str → Str
  body_of rrule =
      if starts_with (codes "RRULE:") (reader.upper (strip rrule))
      then drop 6 (strip rrule)
      else strip rrule

  abbrev pub fields_of : Str → Result Invalid (Dict Str Str)
  fields_of rrule = fields_onto [] (split b';' (body_of rrule))

  -- The parts that are refused by name, and those that nobody knows.
  unfoldable pub check_parts : Dict Str Str → Result Invalid (Unit {0})
  check_parts fields =
      raise_if (some_of (contains rrule_rejected) (keys fields)) value_error
      >> raise_if (not (every (contains rrule_supported) (keys fields))) value_error

  unfoldable pub frequency_of : Dict Str Str → Result Invalid Frequency
  frequency_of fields =
      let name = reader.lower (elim (lookup (codes "FREQ") fields) [ none ↦ [] | some v ↦ v ]) in
      if name == codes "daily"
      then ok daily
      else if name == codes "weekly"
      then ok weekly
      else if name == codes "monthly"
      then ok monthly
      else if name == codes "yearly"
      then ok yearly
      else err value_error

  -- `f(fields[part]) if part in fields else default`
  abbrev pub part_or {ℓ} :
      {A : Type ℓ} → Dict Str Str → Str → (Str → Result Invalid A) → A → Result Invalid A
  part_or fields part f default = elim (lookup part fields) [
    | none ↦ ok default
    | some value ↦ f value
  ]

  abbrev pub some_result {ℓ} : {A : Type ℓ} → Result Invalid A → Result Invalid (Option A)
  some_result (ok a) = ok (some a)
  some_result (err e) = err e

  -- `_by_ints`
  abbrev pub by_ints : Dict Str Str → Str → Result Invalid (List ℤ)
  by_ints fields part = part_or fields part parse_ints []

  -- The keyword arguments that `from_rrule` passes on.
  unfoldable pub rule_of : Dict Str Str → Result Invalid (Recurrence T)
  rule_of fields = frequency_of fields >>= λ frequency.
      part_or fields (codes "INTERVAL") (λ v. or_invalid (reader.int v)) (pos 1) >>= λ interval.
      raise_if (is_some (lookup (codes "COUNT") fields) && is_some (lookup (codes "UNTIL") fields))
        value_error
      >> (part_or fields (codes "COUNT") (λ v. some_result (or_invalid (reader.int v))) none
          >>= λ count.
              part_or fields (codes "UNTIL") (λ v. some_result (rrule_until v)) none >>= λ until.
              part_or fields (codes "BYDAY") parse_byday [] >>= λ byday.
              by_ints fields (codes "BYMONTHDAY") >>= λ bymonthday.
              by_ints fields (codes "BYMONTH") >>= λ bymonth.
              by_ints fields (codes "BYYEARDAY") >>= λ byyearday.
              by_ints fields (codes "BYSETPOS") >>= λ bysetpos. ok record {
                frequency = frequency;
                interval = interval;
                count = count;
                until = until;
                byday = byday;
                bymonthday = bymonthday;
                bymonth = bymonth;
                byyearday = byyearday;
                bysetpos = bysetpos;
              })

  -- `Recurrence.from_rrule`
  unfoldable pub from_rrule : Str → Result Invalid (Recurrence T)
  from_rrule rrule =
      fields_of rrule >>= λ fields. check_parts fields >> (rule_of fields >>= λ r. post_init r)

  abbrev pub is_none_word : Str → Bool
  is_none_word s = reader.lower (strip s) == codes "none"

  -- `parse_recurrence`
  unfoldable pub parse_recurrence : Option Str → Result Invalid (Option (Recurrence T))
  parse_recurrence none = ok none
  parse_recurrence (some []) = ok none
  parse_recurrence (some (c ∷ s)) =
      if is_none_word (c ∷ s) then ok none else some_result (from_rrule (c ∷ s))

-- The three answers for the repeat rule of an update; `clear_recurrence` is the sentinel.
pub data Change (T : Type 0) : Type 0 where
  unspecified clear_recurrence : Change T
  repeats : Recurrence T → Change T

module _ {T : Type 0} (reader : Reader T) where
  abbrev pub repeating : Result Invalid (Recurrence T) → Result Invalid (Change T)
  repeating (ok r) = ok (repeats r)
  repeating (err e) = err e

  -- `parse_recurrence_update`
  unfoldable pub parse_recurrence_update : Option Str → Result Invalid (Change T)
  parse_recurrence_update none = ok unspecified
  parse_recurrence_update (some []) = ok unspecified
  parse_recurrence_update (some (c ∷ s)) =
      if is_none_word reader (c ∷ s)
      then ok clear_recurrence
      else repeating (from_rrule reader (c ∷ s))
