-- ===== src/Base/Dates/Walk.antt =====
-- Walking through the days of a week, a month and a year.
use Prim.Native.Nat.{ℕ, zero, suc, ◌+◌, ◌-◌, ◌*◌, ◌≤◌, ◌<◌}
use mathlib.Core.Path.{◌≡◌, refl, ap, ◌∙◌}
use mathlib.Core.Bool.{true, false}
use native.Mathlib.Omega.{arith}
use macos_apps_mcp.Base.Logic.{ltb, lt→ltb}
use macos_apps_mcp.Base.Equality.{nat_eq, contains, beq_refl}
use macos_apps_mcp.Base.Dates.{
  Date, date_eq, month_length, days_through, next_day, previous_day, forward, backward, days_from,
}

-- A date of the calendar, from the year 1 on.
pub record IsDate (d : Date) : Type 0 where
  pub year : 1 ≤ d.year
  pub month : (1 ≤ d.month) × (d.month ≤ 12)
  pub day : (1 ≤ d.day) × (d.day ≤ month_length d.year d.month)

month_length-long : (y m : ℕ) → (28 ≤ month_length y m) × (month_length y m ≤ 31)
unfolding month_length
month_length-long y m = (ground arith, ground arith)

pub days_from-forward : (i n : ℕ) (d : Date) → i < n → contains (days_from d n) (forward i d) ≡ true
unfolding days_from forward
days_from-forward i zero d h = ground (arith, h)
days_from-forward zero (suc n) d h = ground (arith, beq_refl d)
days_from-forward (suc i) (suc n) d h =
    ground (arith, days_from-forward i n (next_day d) (omega (arith, h)))

abbrev pub date : ℕ → ℕ → ℕ → Date
date y m i = record { year = y; month = m; day = i }

pub forward-month :
    (j y m i : ℕ) → i + j ≤ month_length y m → forward j (date y m i) ≡ date y m (i + j)
unfolding forward next_day
forward-month zero y m i h = ap (date y m) (omega arith)
forward-month (suc j) y m i h =
    let inside : ltb i (month_length y m) ≡ true = lt→ltb i (month_length y m) (omega (arith, h)) in
    let one_on : next_day (date y m i) ≡ date y m (suc i) = rw (inside, next_day) refl in
    ap (forward j) one_on
    ∙ forward-month j y m (suc i) (omega (arith, h))
    ∙ ap (date y m) (omega arith)

pub forward_add : (i j : ℕ) (d : Date) → forward (i + j) d ≡ forward j (forward i d)
unfolding forward
forward_add zero j d = let sum : 0 + j ≡ j = omega arith in ap (λ n. forward n d) sum
forward_add (suc i) j d =
    let sum : suc i + j ≡ suc (i + j) = omega arith in
    ap (λ n. forward n d) sum ∙ forward_add i j (next_day d)

-- One month on, but not into the next year.
forward_a_month : (y m : ℕ) → m < 12 → forward (month_length y m) (date y m 1) ≡ date y (suc m) 1
unfolding forward next_day
forward_a_month y m h =
    let long = month_length-long y m in
    let n = month_length y m - 1 in
    let last : forward n (date y m 1) ≡ date y m (month_length y m) =
      forward-month n y m 1 (omega (arith, long.0)) ∙ ap (date y m) (omega (arith, long.0)) in
    let past : ltb (month_length y m) (month_length y m) ≡ false = ground arith in
    let into : ltb m 12 ≡ true = lt→ltb m 12 h in
    let turn : next_day (date y m (month_length y m)) ≡ date y (suc m) 1 =
      rw (past, into, next_day) refl in
    let whole : month_length y m ≡ n + 1 = omega (arith, long.0) in
    ap (λ k. forward k (date y m 1)) whole
    ∙ forward_add n 1 (date y m 1)
    ∙ ap (forward 1) last
    ∙ turn

pub forward-months : (y m : ℕ) → m < 12 → forward (days_through y m) (date y 1 1) ≡ date y (suc m) 1
unfolding days_through forward
forward-months y zero h = refl
forward-months y (suc m) h =
    forward_add (days_through y m) (month_length y (suc m)) (date y 1 1)
    ∙ ap (forward (month_length y (suc m))) (forward-months y m (omega (arith, h)))
    ∙ forward_a_month y (suc m) h

pub days_through-monotone : (y m k : ℕ) → days_through y m ≤ days_through y (m + k)
unfolding days_through
days_through-monotone y m zero = let same : m + 0 ≡ m = omega arith in rw same (omega arith)
days_through-monotone y m (suc k) =
    let next : m + suc k ≡ suc (m + k) = omega arith in
    rw next (omega (arith, days_through-monotone y m k))

-- Where a date stands in an order in which each month has 31 days.
abbrev pub rank : Date → ℕ
rank d = 372 * d.year + 31 * d.month + d.day

-- A day that has a day before it in the calendar.
pub record Step (d : Date) : Type 0 where
  pub before : IsDate (previous_day d)
  pub back : next_day (previous_day d) ≡ d
  pub near : rank d ≤ rank (previous_day d) + 4

walk_to :
    (d p : Date) → previous_day d ≡ p → IsDate p → next_day p ≡ d → rank d ≤ rank p + 4 → Step d
walk_to d p e v n r = record { before = rw e v; back = ap next_day e ∙ n; near = rw e r }

in_month : (y m i : ℕ) → IsDate (date y m (suc (suc i))) → Step (date y m (suc (suc i)))
unfolding next_day
in_month y m i v =
    walk_to (date y m (suc (suc i))) (date y m (suc i)) previous
      record { year = v.year; month = v.month; day = (omega arith, omega (arith, v.day.1)) } next
      (omega arith)
  where
    previous : previous_day (date y m (suc (suc i))) ≡ date y m (suc i)
    previous = unfold previous_day in ground arith

    inside : ltb (suc i) (month_length y m) ≡ true
    inside = lt→ltb (suc i) (month_length y m) (omega (arith, v.day.1))

    next : next_day (date y m (suc i)) ≡ date y m (suc (suc i))
    next = rw (inside, next_day) refl

at_month : (y m : ℕ) → IsDate (date y (suc (suc m)) 1) → Step (date y (suc (suc m)) 1)
unfolding next_day
at_month y m v =
    let long = month_length-long y (suc m) in
    walk_to (date y (suc (suc m)) 1) (date y (suc m) (month_length y (suc m))) previous
      record {
        year = v.year;
        month = (omega arith, omega (arith, v.month.1));
        day = (omega (arith, long.0), omega arith);
      }
      next (omega (arith, long.0))
  where
    previous : previous_day (date y (suc (suc m)) 1) ≡ date y (suc m) (month_length y (suc m))
    previous = unfold previous_day in ground arith

    past : ltb (month_length y (suc m)) (month_length y (suc m)) ≡ false
    past = ground arith

    into : ltb (suc m) 12 ≡ true
    into = lt→ltb (suc m) 12 (omega (arith, v.month.1))

    next : next_day (date y (suc m) (month_length y (suc m))) ≡ date y (suc (suc m)) 1
    next = rw (past, into, next_day) refl

at_year : (y : ℕ) → 1 ≤ y → Step (date (suc y) 1 1)
unfolding previous_day next_day month_length
at_year y h =
    let year_before : suc y - 1 ≡ y = omega arith in
    walk_to (date (suc y) 1 1) (date y 12 31) (ap (λ n. date n 12 31) year_before)
      record { year = h; month = (omega arith, omega arith); day = (omega arith, omega arith) } refl
      (omega arith)

-- Each date after the first one of the calendar.
pub step : (y m i : ℕ) → IsDate (date y m i) → 404 < rank (date y m i) → Step (date y m i)
step y m zero v h = ground (arith, v.day.0)
step y m (suc (suc i)) v h = in_month y m i v
step y zero (suc zero) v h = ground (arith, v.month.0)
step y (suc (suc m)) (suc zero) v h = at_month y m v
step zero (suc zero) (suc zero) v h = ground (arith, v.year)
step (suc y) (suc zero) (suc zero) v h = at_year y (omega (arith, h))

pub record Back (n : ℕ) (d : Date) : Type 0 where
  pub there : IsDate (backward n d)
  pub again : forward n (backward n d) ≡ d
  pub near : rank d ≤ rank (backward n d) + 4 * n

-- Some days back, and the same number of days forward.
pub backward_lem : (n : ℕ) (d : Date) → IsDate d → 404 + 4 * n ≤ rank d → Back n d
unfolding backward forward
backward_lem zero d v h = record { there = v; again = refl; near = omega arith }
backward_lem (suc n) d v h =
    let b = backward_lem n d v (omega (arith, h)) in
    let e = backward n d in
    let s = step e.year e.month e.day b.there (omega (arith, h, b.near)) in
    record {
      there = s.before;
      again = ap (forward n) s.back ∙ b.again;
      near = omega (arith, s.near, b.near);
    }
