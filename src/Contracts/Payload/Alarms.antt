-- ===== src/Contracts/Payload/Alarms.antt =====
-- The alarms that a calendar event can have.
use macos_apps_mcp.Base.{
  ◌≤◌, ◌≡◌, refl, ◌∙◌, map, ap, ltb, Bool, true, false, some, List, [], ◌∷◌, arith, nat_eq, length,
  some_of, inl, inr, ◌⊎◌, contains, Bool-cases, nat_beq_iff,
}
use macos_apps_mcp.Base.Integer.{ℤ, int_eq}
use macos_apps_mcp.Base.Result.{ok, >>=-eq-ok, raise_if}
use macos_apps_mcp.Contracts.Rule.{value_error}
use macos_apps_mcp.Base.Sort.{unique, contains-unique}
use macos_apps_mcp.Contracts.Payload.{
  Offset, minutes, not_minutes, whole_minutes, is_negative, check_minutes, check_alarms,
}

-- No element twice.
abbrev pub NoRepeat : List ℤ → Type 0
NoRepeat [] = Unit
NoRepeat (x ∷ xs) = (contains xs x ≡ false) × NoRepeat xs

length-unique-le : (xs : List ℤ) → length (unique xs) ≤ length xs
unfolding unique
length-unique-le [] = omega arith
length-unique-le (x ∷ xs) = ground (arith, length-unique-le xs)

unique-NoRepeat : (xs : List ℤ) → length (unique xs) ≡ length xs → NoRepeat xs
unfolding unique
unique-NoRepeat [] h = tt
unique-NoRepeat (x ∷ xs) h = elim (Bool-cases (contains (unique xs) x)) [
  | inl again ↦ ground (arith, again, h, length-unique-le xs)
  | inr new ↦
      (ground (arith, new, contains-unique x xs), unique-NoRepeat xs (ground (arith, new, h)))
]

whole_minutes_all :
    (given : List Offset) (alarms : List ℤ)
    → whole_minutes given ≡ ok alarms
    → given ≡ map minutes alarms
unfolding whole_minutes
whole_minutes_all [] alarms h = let none : alarms ≡ [] = ground (arith, h) in rw none
whole_minutes_all (not_minutes ∷ given) alarms h = ground (arith, h)
whole_minutes_all (minutes m ∷ given) alarms h =
    let (rest, read, made) = >>=-eq-ok (whole_minutes given) _ h in
    let whole : alarms ≡ m ∷ rest = ground (arith, made) in
    rw whole (ap (λ xs. minutes m ∷ xs) (whole_minutes_all given rest read))

check_minutes-NoRepeat :
    (all_day : Bool) (alarms : List ℤ)
    → check_minutes all_day alarms ≡ ok tt
    → NoRepeat alarms × ((some_of is_negative alarms ≡ false) ⊎ (all_day ≡ true))
unfolding check_minutes
check_minutes-NoRepeat all_day alarms h = (
  unique-NoRepeat alarms (ground (arith, h, nat_beq_iff (length (unique alarms)) (length alarms))),
  elim (Bool-cases all_day) [ inl whole ↦ inr whole | inr timed ↦ inl (ground (arith, h, timed)) ],
)

length_minutes : (alarms : List ℤ) → length (map minutes alarms) ≡ length alarms
length_minutes [] = refl
length_minutes (m ∷ alarms) = ground (arith, length_minutes alarms)

-- An event is accepted with a list of alarms only if these are integers, at most five, none is given
-- twice, and none is negative unless the event takes the whole day.
pub check_alarms-NoRepeat :
    (all_day : Bool) (given : List Offset)
    → check_alarms all_day (some given) ≡ ok tt
    → (alarms : List ℤ) × (given ≡ map minutes alarms)
      × (length alarms ≤ 5)
      × NoRepeat alarms
      × ((some_of is_negative alarms ≡ false) ⊎ (all_day ≡ true))
unfolding check_alarms
check_alarms-NoRepeat all_day given h =
    let (u, short, h) = >>=-eq-ok (raise_if (ltb 5 (length given)) value_error) _ h in
    let (alarms, read, h) = >>=-eq-ok (whole_minutes given) _ h in
    let whole = whole_minutes_all given alarms read in
    let (once, timed) = check_minutes-NoRepeat all_day alarms h in
    let few : length given ≤ 5 = ground (arith, short) in
    let same : length given ≡ length alarms = ap length whole ∙ length_minutes alarms in
    (alarms, whole, omega (arith, few, same), once, timed)
