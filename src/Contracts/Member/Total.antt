-- ===== src/Contracts/Member/Total.antt =====
-- Lemmas on `dtstart_in_rule` of macos_apps_mcp/contracts.py and the days of a period.
use macos_apps_mcp.Base.{
  ℕ, zero, suc, ◌+◌, ◌-◌, ◌≤◌, ◌<◌, ◌≡◌, refl, sym, ap, ◌∙◌, Bool, true, false, some, List, [], ◌∷◌,
  arith, inl, inr, ◌==◌, contains, length, select, Bool-cases, Option-cases, leb, is_some,
}
use macos_apps_mcp.Base.Dates.{
  Date, date_eq, date_beq_iff, month_length, days_through, weekday, ordinal, forward, backward,
  days_from,
}
use macos_apps_mcp.Base.Dates.Walk.{
  IsDate, date, days_from-forward, forward-month, forward-months, forward_add,
  days_through-monotone, backward_lem,
}
use macos_apps_mcp.Contracts.Rule.{Frequency, daily, weekly, monthly, yearly, Recurrence, has_any}
use macos_apps_mcp.Contracts.Member.{
  passes_by_filters, max_ordinal, in_calendar, period, index_of, is_nth, position_in,
  dtstart_in_rule,
}

there :
    (n : ℕ) (i : ℕ) (lo d : Date) → i < n → forward i lo ≡ d → contains (days_from lo n) d ≡ true
there n i lo d h e = ap (contains (days_from lo n)) (sym e) ∙ days_from-forward i n lo h

weekday_small : (d : Date) → weekday d < 7
unfolding weekday
weekday_small d = omega arith

module _ (d : Date) (v : IsDate d) where
  in_week : 2 ≤ d.year → contains (days_from (backward (weekday d) d) 7) d ≡ true
  in_week h =
      let small = weekday_small d in
      let back = backward_lem (weekday d) d v (omega (arith, h, small, v.month.0, v.day.0)) in
      there 7 (weekday d) (backward (weekday d) d) d small back.again

  in_month : contains (days_from (record d { day = 1 }) (month_length d.year d.month)) d ≡ true
  in_month =
      let walked = forward-month (d.day - 1) d.year d.month 1 (omega (arith, v.day.0, v.day.1)) in
      let same : 1 + (d.day - 1) ≡ d.day = omega (arith, v.day.0) in
      there (month_length d.year d.month) (d.day - 1) (record d { day = 1 }) d
        (omega (arith, v.day.0, v.day.1)) (walked ∙ ap (λ i. record d { day = i }) same)

within_year : (y m : ℕ) → suc m ≤ 12 → days_through y m + month_length y (suc m) ≤ days_through y 12
within_year y m h =
    let rest : suc m + (11 - m) ≡ 12 = omega (arith, h) in
    let whole : days_through y (suc m) ≤ days_through y 12 =
      rw rest at (days_through-monotone y (suc m) (11 - m)) in
    rw (← one_month) whole
  where
    one_month : days_through y (suc m) ≡ days_through y m + month_length y (suc m)
    one_month = unfold days_through in refl

in_year :
    (y m i : ℕ)
    → IsDate (date y m i)
    → contains (days_from (date y 1 1) (days_through y 12)) (date y m i) ≡ true
in_year y zero i v = ground (arith, v.month.0)
in_year y (suc m) i v =
    let before = days_through y m in
    let walked : forward (before + (i - 1)) (date y 1 1) ≡ date y (suc m) i =
      forward_add before (i - 1) (date y 1 1)
      ∙ ap (forward (i - 1)) (forward-months y m (omega (arith, v.month.1)))
      ∙ forward-month (i - 1) y (suc m) 1 (omega (arith, v.day.0, v.day.1))
      ∙ ap (date y (suc m)) (one_more i v.day.0) in
    let inside = within_year y m v.month.1 in
    there (days_through y 12) (before + (i - 1)) (date y 1 1) (date y (suc m) i)
      (omega (arith, v.day.0, v.day.1, inside)) walked
  where
    one_more : (i : ℕ) → 1 ≤ i → 1 + (i - 1) ≡ i
    one_more i h = omega (arith, h)

in_calendar-some :
    (d lo lo' : Date) (n n' : ℕ) (fits : Bool)
    → in_calendar fits lo' n' ≡ some (lo, n)
    → contains (days_from lo' n') d ≡ true
    → contains (days_from lo n) d ≡ true
in_calendar-some d lo lo' n n' true h k =
    let same_lo : lo ≡ lo' = ground (arith, h) in
    let same_n : n ≡ n' = ground (arith, h) in rw (same_lo, same_n) k
in_calendar-some d lo lo' n n' false h k = ground (arith, h)

-- The period of a date, where it has one, contains the date.
period-contains :
    (f : Frequency) (d lo : Date) (n : ℕ)
    → IsDate d
    → 2 ≤ d.year
    → period f d ≡ some (lo, n)
    → contains (days_from lo n) d ≡ true
unfolding period forward
period-contains daily d lo n v h e =
    in_calendar-some d lo d n 1 (leb (ordinal d + 1) max_ordinal) e
      (there 1 0 d d (omega arith) refl)
period-contains weekly d lo n v h e =
    in_calendar-some d lo (backward (weekday d) d) n 7 _ e (in_week d v h)
period-contains monthly d lo n v h e =
    in_calendar-some d lo (record d { day = 1 }) n (month_length d.year d.month) _ e (in_month d v)
period-contains yearly d lo n v h e =
    in_calendar-some d lo (record d { month = 1; day = 1 }) n (days_through d.year 12) _ e
      (in_year d.year d.month d.day v)

index_of_there : (d : Date) (xs : List Date) → contains xs d ≡ true → is_some (index_of d xs) ≡ true
unfolding index_of
index_of_there d [] h = ground arith
index_of_there d (x ∷ xs) h =
    ground (arith, index_of_there d xs, date_beq_iff x d, date_beq_iff d x)

select_there :
    (p : Date → Bool) (d : Date) (xs : List Date)
    → p d ≡ true
    → contains xs d ≡ true
    → contains (select p xs) d ≡ true
unfolding select
select_there p d [] k h = h
select_there p d (x ∷ xs) k h = elim (Bool-cases (p x)) [
  | inl passes ↦ rw passes (ground (arith, h, select_there p d xs k))
  | inr fails ↦
      let other : (d == x) ≡ false = not_it x fails in
      rw fails (select_there p d xs k (ground (arith, h, other)))
]
  where
    not_it : (x : Date) → p x ≡ false → (d == x) ≡ false
    not_it x fails = elim (Bool-cases (d == x)) [
      | inl same ↦ cc (ap p ((date_beq_iff d x).0 same), k, fails)
      | inr other ↦ other
    ]

-- For a date of the calendar from the year 2 on whose period ends before the last date there is,
-- dtstart_in_rule returns: the search for the date among the candidates of its period never raises.
pub dtstart_in_rule_total :
    {T : Type 0} (r : Recurrence T) (d lo : Date) (n : ℕ)
    → IsDate d
    → 2 ≤ d.year
    → period r.frequency d ≡ some (lo, n)
    → (b : Bool) × (dtstart_in_rule r d ≡ some b)
unfolding dtstart_in_rule
dtstart_in_rule_total r d lo n v h e = elim (Bool-cases (passes_by_filters r d)) [
  | inr fails ↦ (false, rw (fails, dtstart_in_rule) refl)
  | inl passes ↦ elim (Bool-cases (has_any r.bysetpos)) [
    | inr everywhere ↦ (true, rw (passes, everywhere, dtstart_in_rule) refl)
    | inl chosen ↦
        let candidates = select (passes_by_filters r) (days_from lo n) in
        let found = index_of_there d candidates (
          select_there (passes_by_filters r) d (days_from lo n) passes
            (period-contains r.frequency d lo n v h e)) in
        elim (Option-cases (index_of d candidates)) [
          | inl missing ↦ ground (arith, missing, found)
          | inr (i, at_i) ↦ (
            is_nth (i + 1) (length candidates) r.bysetpos,
            rw (passes, chosen, dtstart_in_rule) (rw e (rw (at_i, position_in) refl)),
          )
        ]
  ]
]
