-- ===== src/Contracts/Rule/Valid.antt =====
-- What holds of every rule that can be built.
use macos_apps_mcp.Base.{
  ℕ, zero, suc, ◌≤◌, ◌≡◌, refl, Bool, true, false, not, ◌&&◌, ◌||◌, Option, none, some, List, [],
  ◌∷◌, arith, inl, inr, ◌⊎◌, nat_eq, list_eq, contains, some_of, All, is_some,
}
use macos_apps_mcp.Base.Integer.{ℤ, pos, negsuc, int_eq, size, int_le, int_le_total, int_beq_iff}
use macos_apps_mcp.Base.Equality.{pair_eq}
use macos_apps_mcp.Base.Result.{Result, ok, ◌>>◌, raise_if, >>=-eq-ok}
use macos_apps_mcp.Base.Sort.Ascending.{Ascending, sort_unique-Ascending, text_le_total}
use macos_apps_mcp.Contracts.Rule.{
  Frequency, weekly, yearly, monthly, daily, Invalid, value_error, Day, weekday_codes, Recurrence,
  day_le, canonical, canonical_days, is_out_of, is_no_month, is_bad_day, has_ordinal, is_past_month,
  has_any, is_monthly, is_yearly, is_weekly, is_in_month, has_by_part, is_below_one,
  is_count_below_one, validate_together, validate_by_parts, canonical_rule, post_init,
}

-- Not zero, and not further from it than the limit.
abbrev pub Within : ℕ → ℤ → Type 0
Within limit v = (1 ≤ size v) × (size v ≤ limit)

abbrev pub Month : ℤ → Type 0
Month v = (n : ℕ) × (v ≡ pos n) × (1 ≤ n) × (n ≤ 12)

abbrev pub Weekday : Day → Type 0
Weekday d = (contains weekday_codes d.1 ≡ true) × (size d.0 ≤ 53)

abbrev pub Positive : ℤ → Type 0
Positive v = (n : ℕ) × (v ≡ pos (suc n))

abbrev pub CountPositive : Option ℤ → Type 0
CountPositive none = Unit
CountPositive (some v) = Positive v

-- A rule that RFC 5545 allows, in its canonical form.
pub record IsRule {T : Type 0} (r : Recurrence T) : Type 0 where
  pub interval : Positive r.interval
  pub count : CountPositive r.count
  pub one_end : (r.count ≡ none) ⊎ (r.until ≡ none)
  pub month_days : All (Within 31) r.bymonthday
  pub year_days : All (Within 366) r.byyearday
  pub positions : All (Within 366) r.bysetpos
  pub months : All Month r.bymonth
  pub days : All Weekday r.byday
  pub ordinals :
      (some_of has_ordinal r.byday ≡ false) ⊎ ((r.frequency ≡ monthly) ⊎ (r.frequency ≡ yearly))
  pub in_month : (is_in_month r ≡ false) ⊎ All (λ d. size d.0 ≤ 5) r.byday
  pub not_weekly : (r.bymonthday ≡ []) ⊎ (is_weekly r.frequency ≡ false)
  pub only_yearly : (r.byyearday ≡ []) ⊎ (r.frequency ≡ yearly)
  pub something : (r.bysetpos ≡ []) ⊎ (has_by_part r ≡ true)
  pub sorted_days : Ascending day_le r.byday
  pub sorted :
      Ascending int_le r.bymonthday
      × Ascending int_le r.bymonth
      × Ascending int_le r.byyearday
      × Ascending int_le r.bysetpos

none_of :
    {A : Type 0} (p : A → Bool) (P : A → Type 0) (xs : List A)
    → ((x : A) → p x ≡ false → P x)
    → some_of p xs ≡ false
    → All P xs
none_of p P [] f h = tt
none_of p P (x ∷ xs) f h = (f x (ground (arith, h)), none_of p P xs f (ground (arith, h)))

passed : (b : Bool) (e : Invalid) → raise_if b e ≡ ok tt → b ≡ false
passed true e h = ground (arith, h)
passed false e h = refl

-- A chain of checks that was passed.
first_passed :
    {A : Type 0} (b : Bool) (e : Invalid) (next : Result Invalid A) (a : A)
    → (raise_if b e >> next) ≡ ok a
    → (b ≡ false) × (next ≡ ok a)
first_passed true e next a h = ground (arith, h)
first_passed false e next a h = (refl, h)

within : (limit : ℕ) (v : ℤ) → is_out_of limit v ≡ false → Within limit v
within limit (pos n) h = (ground (arith, h), ground (arith, h))
within limit (negsuc n) h = (ground (arith, h), ground (arith, h))

month : (v : ℤ) → is_no_month v ≡ false → Month v
month (pos n) h = (n, refl, ground (arith, h), ground (arith, h))
month (negsuc n) h = ground (arith, h)

positive : (v : ℤ) → is_below_one v ≡ false → Positive v
positive (pos zero) h = ground (arith, h)
positive (pos (suc n)) h = (n, refl)
positive (negsuc n) h = ground (arith, h)

day_le_total : (a b : Day) → day_le a b ≡ false → day_le b a ≡ true
day_le_total (a, s) (b, t) h =
    ground (arith, h, int_le_total a b, text_le_total s t, int_beq_iff a b, int_beq_iff b a)

count_positive : (c : Option ℤ) → is_count_below_one c ≡ false → CountPositive c
count_positive none h = tt
count_positive (some v) h = positive v h

weekday : (d : Day) → is_bad_day d ≡ false → Weekday d
weekday (ordinal, code) h = (ground (arith, h), ground (arith, h))

nothing : {A : Type 0} (xs : List A) → has_any xs ≡ false → xs ≡ []
nothing [] h = refl
nothing (x ∷ xs) h = ground arith

-- Of two things that are banned together, one is not there.
one_not : (a b : Bool) → (a && b) ≡ false → (a ≡ false) ⊎ (b ≡ false)
one_not true b h = inr h
one_not false b h = inl refl

none_or :
    {A : Type 0} (xs : List A) (b : Bool) → (has_any xs && b) ≡ false → (xs ≡ []) ⊎ (b ≡ false)
none_or [] b h = inl refl
none_or (x ∷ xs) b h = inr h

long_one :
    (f : Frequency) → not (is_monthly f || is_yearly f) ≡ false → (f ≡ monthly) ⊎ (f ≡ yearly)
long_one daily h = ground arith
long_one weekly h = ground arith
long_one monthly h = inl refl
long_one yearly h = inr refl

the_yearly : (f : Frequency) → not (is_yearly f) ≡ false → f ≡ yearly
the_yearly daily h = ground arith
the_yearly weekly h = ground arith
the_yearly monthly h = ground arith
the_yearly yearly h = refl

not_both :
    {A : Type 0} {B : Type 0} (a : Option A) (b : Option B)
    → (is_some a && is_some b) ≡ false
    → (a ≡ none) ⊎ (b ≡ none)
not_both none b h = inl refl
not_both (some a) none h = inr refl
not_both (some a) (some b) h = ground arith

-- The bans on combinations, as validate_together checks them.
pub record Together {T : Type 0} (r : Recurrence T) : Type 0 where
  pub ordinals :
      (some_of has_ordinal r.byday ≡ false) ⊎ ((r.frequency ≡ monthly) ⊎ (r.frequency ≡ yearly))
  pub in_month : (is_in_month r ≡ false) ⊎ All (λ d. size d.0 ≤ 5) r.byday
  pub not_weekly : (r.bymonthday ≡ []) ⊎ (is_weekly r.frequency ≡ false)
  pub only_yearly : (r.byyearday ≡ []) ⊎ (r.frequency ≡ yearly)
  pub something : (r.bysetpos ≡ []) ⊎ (has_by_part r ≡ true)

mapped {ℓ κ μ} : {A : Type ℓ} {B : Type κ} {C : Type μ} → (B → C) → A ⊎ B → A ⊎ C
mapped f (inl a) = inl a
mapped f (inr b) = inr (f b)

validate_together-Together :
    {T : Type 0} (r : Recurrence T) → validate_together r ≡ ok tt → Together r
unfolding validate_together
validate_together-Together r h =
    let (ordinals, h) = first_passed _ value_error _ tt h in
    let (in_month, h) = first_passed _ value_error _ tt h in
    let (not_weekly, h) = first_passed _ value_error _ tt h in
    let (only_yearly, h) = first_passed _ value_error _ tt h in
    let something = passed _ value_error h in
    record {
      ordinals = mapped (long_one r.frequency) (one_not (some_of has_ordinal r.byday) _ ordinals);
      in_month =
          mapped
            (none_of is_past_month (λ d. size d.0 ≤ 5) r.byday (λ d small. ground (arith, small)))
            (one_not (is_in_month r) _ in_month);
      not_weekly = none_or r.bymonthday _ not_weekly;
      only_yearly = mapped (the_yearly r.frequency) (none_or r.byyearday _ only_yearly);
      something = mapped (λ e. ground (arith, e)) (none_or r.bysetpos _ something);
    }

-- What is built is the canonical form of what was given.
pub post_init_same :
    {T : Type 0} (r r' : Recurrence T) → post_init r ≡ ok r' → r' ≡ canonical_rule r
unfolding post_init
post_init_same r r' h =
    let (one_end, h) = first_passed (is_some r.count && is_some r.until) value_error _ r' h in
    let (interval, h) = first_passed _ value_error _ r' h in
    let (count, h) = first_passed _ value_error _ r' h in
    let (u, valid, made) =
      >>=-eq-ok (validate_by_parts (canonical_rule r)) (λ _. ok (canonical_rule r)) h in
    ground (arith, made)

-- Every Recurrence that can be built, from an RRULE or directly, is one that RFC 5545 allows: its
-- interval and count are positive, at most one of count and until is given, every BY value is in its
-- range, no banned combination of parts occurs, and each BY list is in order and without repetition.
pub post_init-IsRule : {T : Type 0} (r r' : Recurrence T) → post_init r ≡ ok r' → IsRule r'
unfolding post_init validate_by_parts
post_init-IsRule r r' h =
    let (one_end, h) = first_passed (is_some r.count && is_some r.until) value_error _ r' h in
    let (interval, h) = first_passed _ value_error _ r' h in
    let (count, h) = first_passed _ value_error _ r' h in
    let (u, valid, made) =
      >>=-eq-ok (validate_by_parts (canonical_rule r)) (λ _. ok (canonical_rule r)) h in
    let (month_days, h) = first_passed _ value_error _ tt valid in
    let (year_days, h) = first_passed _ value_error _ tt h in
    let (positions, h) = first_passed _ value_error _ tt h in
    let (months, h) = first_passed _ value_error _ tt h in
    let (days, h) = first_passed _ value_error _ tt h in
    let together = validate_together-Together (canonical_rule r) h in
    let same : r' ≡ canonical_rule r = ground (arith, made) in
    rw same record {
      interval = positive r.interval interval;
      count = count_positive r.count count;
      one_end = not_both r.count r.until one_end;
      month_days =
          none_of (is_out_of 31) (Within 31) (canonical r.bymonthday) (within 31) month_days;
      year_days =
          none_of (is_out_of 366) (Within 366) (canonical r.byyearday) (within 366) year_days;
      positions =
          none_of (is_out_of 366) (Within 366) (canonical r.bysetpos) (within 366) positions;
      months = none_of is_no_month Month (canonical r.bymonth) month months;
      days = none_of is_bad_day Weekday (canonical_days r.byday) weekday days;
      ordinals = together.ordinals;
      in_month = together.in_month;
      not_weekly = together.not_weekly;
      only_yearly = together.only_yearly;
      something = together.something;
      sorted_days = sort_unique-Ascending day_le day_le_total r.byday;
      sorted = (
        sort_unique-Ascending int_le int_le_total r.bymonthday,
        sort_unique-Ascending int_le int_le_total r.bymonth,
        sort_unique-Ascending int_le int_le_total r.byyearday,
        sort_unique-Ascending int_le int_le_total r.bysetpos,
      );
    }
