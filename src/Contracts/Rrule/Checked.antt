-- ===== src/Contracts/Rrule/Checked.antt =====
-- Lemmas on `from_rrule` of macos_apps_mcp/contracts.py: what the text says of each part of the rule.
use macos_apps_mcp.Base.{
  ◌≡◌, refl, sym, ◌∙◌, ap, Str, codes, true, ◌&&◌, Option, none, some, List, [], arith, every,
  contains, ◌==◌, nat_eq, list_eq, list_beq_iff, is_some, Bool-cases, All, Option-cases, inl, inr,
}
use macos_apps_mcp.Base.Dict.{Dict, keys, lookup}
use macos_apps_mcp.Base.Integer.{ℤ, pos}
use macos_apps_mcp.Base.Result.{Result, ok, err, raise_if, >>=-eq-ok}
use macos_apps_mcp.Base.Sort.{unique, sort_by}
use macos_apps_mcp.Contracts.Rule.{
  Frequency, daily, weekly, monthly, yearly, Invalid, value_error, Recurrence, canonical,
  canonical_days, canonical_rule, Day,
}
use macos_apps_mcp.Contracts.Rule.Valid.{IsRule, post_init-IsRule, post_init_same}
use macos_apps_mcp.Base.Text.{split}
use macos_apps_mcp.Contracts.Rrule.Fields.{IsToken, given_for, parts_given}
use macos_apps_mcp.Contracts.Rrule.{
  body_of, Reader, rrule_supported, fields_of, check_parts, frequency_of, part_or, parse_byday,
  parse_ints, rrule_until, by_ints, some_result, or_invalid, rule_of, from_rrule,
}

-- The name of a frequency.
abbrev pub name_of : Frequency → Str
name_of daily = codes "daily"
name_of weekly = codes "weekly"
name_of monthly = codes "monthly"
name_of yearly = codes "yearly"

abbrev pub or_blank : Option Str → Str
or_blank none = []
or_blank (some v) = v

-- A value is what a part of the text says, or the default where the part is absent.
abbrev pub Said : {A : Type 0} → Option Str → (Str → A → Type 0) → A → A → Type 0
Said none P default a = a ≡ default
Said (some value) P default a = P value a

-- The numbers of a BY part, sorted and each once.
abbrev pub Numbers : {T : Type 0} → Reader T → Option Str → List ℤ → Type 0
Numbers reader given ns =
    Said given (λ v ms. (xs : List ℤ) × (parse_ints reader v ≡ ok xs) × (ms ≡ canonical xs)) [] ns

-- A rule is what its text says, part by part, in canonical form; each part that the text has is
-- supported, and RFC 5545 allows the rule. The text gives a part by the last token that names it.
pub record Parsed {T : Type 0} (reader : Reader T) (rrule : Str) (r : Recurrence T) : Type 0 where
  pub fields : Dict Str Str
  pub tokens : All IsToken (split b';' (body_of reader rrule))
  pub given :
      (part : Str) → lookup part fields ≡ given_for reader part (split b';' (body_of reader rrule))
  pub supported : every (contains rrule_supported) (keys fields) ≡ true
  pub frequency : reader.lower (or_blank (lookup (codes "FREQ") fields)) ≡ name_of r.frequency
  pub interval :
      Said (lookup (codes "INTERVAL") fields) (λ v i. reader.int v ≡ some i) (pos 1) r.interval
  pub count :
      Said
        (lookup (codes "COUNT") fields)
        (λ v c. (n : ℤ) × (reader.int v ≡ some n) × (c ≡ some n))
        none
        r.count
  pub until :
      Said
        (lookup (codes "UNTIL") fields)
        (λ v u. (t : T) × (rrule_until reader v ≡ ok t) × (u ≡ some t))
        none
        r.until
  pub byday :
      Said
        (lookup (codes "BYDAY") fields)
        (λ v ds. (xs : List Day) × (parse_byday reader v ≡ ok xs) × (ds ≡ canonical_days xs))
        []
        r.byday
  pub bymonthday : Numbers reader (lookup (codes "BYMONTHDAY") fields) r.bymonthday
  pub bymonth : Numbers reader (lookup (codes "BYMONTH") fields) r.bymonth
  pub byyearday : Numbers reader (lookup (codes "BYYEARDAY") fields) r.byyearday
  pub bysetpos : Numbers reader (lookup (codes "BYSETPOS") fields) r.bysetpos
  pub is_rule : IsRule r

Said-map :
    {A B : Type 0} (P : Str → A → Type 0) (Q : Str → B → Type 0) (g : A → B) (given : Option Str)
    (default a : A) (default' : B)
    → ((v : Str) → P v a → Q v (g a))
    → g default ≡ default'
    → Said given P default a
    → Said given Q default' (g a)
Said-map P Q g none default a default' h e same = ap g same ∙ e
Said-map P Q g (some v) default a default' h e said = h v said

or_invalid_ok : {A : Type 0} (o : Option A) (a : A) → or_invalid o ≡ ok a → o ≡ some a
or_invalid_ok none a h = ground (arith, h)
or_invalid_ok (some x) a h = ground (arith, h)

module _ {T : Type 0} (reader : Reader T) where
  part_or-Said :
      {A : Type 0} (fields : Dict Str Str) (part : Str) (f : Str → Result Invalid A) (default a : A)
      → part_or reader fields part f default ≡ ok a
      → Said (lookup part fields) (λ v x. f v ≡ ok x) default a
  part_or-Said fields part f default a h = elim (Option-cases (lookup part fields)) [
    | inl absent ↦ rw absent (let h = rw (absent, part_or) at (h) in ground (arith, h))
    | inr (v, there) ↦ rw there (let h = rw (there, part_or) at (h) in h)
  ]

  some_result_ok :
      {A : Type 0} (r : Result Invalid A) (o : Option A)
      → some_result reader r ≡ ok o
      → (a : A) × (r ≡ ok a) × (o ≡ some a)
  some_result_ok (err e) o h = ground (arith, h)
  some_result_ok (ok a) o h = (a, refl, ground (arith, h))

  check_parts_passed :
      (fields : Dict Str Str)
      → check_parts reader fields ≡ ok tt
      → every (contains rrule_supported) (keys fields) ≡ true
  unfolding check_parts
  check_parts_passed fields h = ground (arith, h)

  named :
      (name s : Str) (g f : Frequency)
      → f ≡ g
      → (name == s) ≡ true
      → s ≡ name_of g
      → name ≡ name_of f
  named name s g f same is_s named_g =
      (list_beq_iff name s).0 is_s ∙ named_g ∙ ap name_of (sym same)

  frequency_of_ok :
      (fields : Dict Str Str) (f : Frequency)
      → frequency_of reader fields ≡ ok f
      → reader.lower (or_blank (lookup (codes "FREQ") fields)) ≡ name_of f
  unfolding frequency_of
  frequency_of_ok fields f h =
      let name = reader.lower (or_blank (lookup (codes "FREQ") fields)) in
      elim (Bool-cases (name == codes "daily")) [
        | inl is_daily ↦
            named name (codes "daily") daily f (ground (arith, is_daily, h)) is_daily refl
        | inr not_daily ↦ elim (Bool-cases (name == codes "weekly")) [
          | inl is_weekly ↦
              named name (codes "weekly") weekly f (ground (arith, not_daily, is_weekly, h))
                is_weekly refl
          | inr not_weekly ↦ elim (Bool-cases (name == codes "monthly")) [
            | inl is_monthly ↦
                named name (codes "monthly") monthly f
                  (ground (arith, not_daily, not_weekly, is_monthly, h)) is_monthly refl
            | inr not_monthly ↦ elim (Bool-cases (name == codes "yearly")) [
              | inl is_yearly ↦
                  named name (codes "yearly") yearly f
                    (ground (arith, not_daily, not_weekly, not_monthly, is_yearly, h)) is_yearly
                    refl
              | inr unknown ↦ ground (arith, not_daily, not_weekly, not_monthly, unknown, h)
            ]
          ]
        ]
      ]

  by_ints-Numbers :
      (fields : Dict Str Str) (part : Str) (xs : List ℤ)
      → by_ints reader fields part ≡ ok xs
      → Numbers reader (lookup part fields) (canonical xs)
  unfolding sort_by unique
  by_ints-Numbers fields part xs h =
      Said-map (λ v x. parse_ints reader v ≡ ok x)
        (λ v ms. (xs : List ℤ) × (parse_ints reader v ≡ ok xs) × (ms ≡ canonical xs)) canonical
        (lookup part fields) [] xs [] (λ v said. (xs, said, refl)) refl
        (part_or-Said fields part (parse_ints reader) [] xs h)

  counted :
      (given : Option ℤ) (o : Option ℤ)
      → some_result reader (or_invalid given) ≡ ok o
      → (n : ℤ) × (given ≡ some n) × (o ≡ some n)
  counted none o h = ground (arith, h)
  counted (some n) o h = (n, refl, ground (arith, h))

  interval-Said :
      (fields : Dict Str Str) (interval : ℤ)
      → part_or reader fields (codes "INTERVAL") (λ v. or_invalid (reader.int v)) (pos 1)
        ≡ ok interval
      → Said (lookup (codes "INTERVAL") fields) (λ v i. reader.int v ≡ some i) (pos 1) interval
  interval-Said fields interval i =
      Said-map (λ v x. or_invalid (reader.int v) ≡ ok x) (λ v x. reader.int v ≡ some x) (λ x. x)
        (lookup (codes "INTERVAL") fields) (pos 1) interval (pos 1)
        (λ v said. or_invalid_ok (reader.int v) interval said) refl
        (part_or-Said fields (codes "INTERVAL") (λ v. or_invalid (reader.int v)) (pos 1) interval i)

  count-Said :
      (fields : Dict Str Str) (count : Option ℤ)
      → part_or reader fields
          (codes "COUNT")
          (λ v. some_result reader (or_invalid (reader.int v)))
          none
        ≡ ok count
      → Said
          (lookup (codes "COUNT") fields)
          (λ v c. (n : ℤ) × (reader.int v ≡ some n) × (c ≡ some n))
          none
          count
  count-Said fields count c =
      Said-map (λ v x. some_result reader (or_invalid (reader.int v)) ≡ ok x)
        (λ v x. (n : ℤ) × (reader.int v ≡ some n) × (x ≡ some n)) (λ x. x)
        (lookup (codes "COUNT") fields) none count none
        (λ v said. counted (reader.int v) count said) refl
        (part_or-Said fields (codes "COUNT") (λ v. some_result reader (or_invalid (reader.int v)))
          none count c)

  until-Said :
      (fields : Dict Str Str) (until : Option T)
      → part_or reader fields (codes "UNTIL") (λ v. some_result reader (rrule_until reader v)) none
        ≡ ok until
      → Said
          (lookup (codes "UNTIL") fields)
          (λ v u. (t : T) × (rrule_until reader v ≡ ok t) × (u ≡ some t))
          none
          until
  until-Said fields until t =
      Said-map (λ v x. some_result reader (rrule_until reader v) ≡ ok x)
        (λ v x. (n : T) × (rrule_until reader v ≡ ok n) × (x ≡ some n)) (λ x. x)
        (lookup (codes "UNTIL") fields) none until none
        (λ v said. some_result_ok (rrule_until reader v) until said) refl
        (part_or-Said fields (codes "UNTIL") (λ v. some_result reader (rrule_until reader v)) none
          until t)

  byday-Said :
      (fields : Dict Str Str) (byday : List Day)
      → part_or reader fields (codes "BYDAY") (parse_byday reader) [] ≡ ok byday
      → Said
          (lookup (codes "BYDAY") fields)
          (λ v ds. (xs : List Day) × (parse_byday reader v ≡ ok xs) × (ds ≡ canonical_days xs))
          []
          (canonical_days byday)
  unfolding sort_by unique
  byday-Said fields byday d =
      Said-map (λ v x. parse_byday reader v ≡ ok x)
        (λ v ds. (xs : List Day) × (parse_byday reader v ≡ ok xs) × (ds ≡ canonical_days xs))
        canonical_days (lookup (codes "BYDAY") fields) [] byday [] (λ v said. (byday, said, refl))
        refl (part_or-Said fields (codes "BYDAY") (parse_byday reader) [] byday d)

  moved :
      (rrule : Str) (r r' : Recurrence T) → r ≡ r' → Parsed reader rrule r → Parsed reader rrule r'
  moved rrule r r' same parsed = rw (← same) parsed

  -- If from_rrule returns a rule, then each token of the text is blank or has a `=`, each part that a
  -- token names is one of the nine that are supported, each field of the rule is what the text says of
  -- its part or else the default, none of them ignored, the BY lists are sorted with each value once,
  -- and RFC 5545 allows the rule. Of a part that is given twice the later value counts.
  pub from_rrule-Parsed :
      (rrule : Str) (r : Recurrence T) → from_rrule reader rrule ≡ ok r → Parsed reader rrule r
  unfolding from_rrule rule_of sort_by unique
  from_rrule-Parsed rrule r h =
      let (fields, read, h) = >>=-eq-ok (fields_of reader rrule) _ h in
      let said = parts_given reader fields (split b';' (body_of reader rrule)) read in
      let (u, known, h) = >>=-eq-ok (check_parts reader fields) _ h in
      let (described, parts, built) = >>=-eq-ok (rule_of reader fields) _ h in
      let (frequency, f, h) = >>=-eq-ok (frequency_of reader fields) _ parts in
      let (interval, i, h) =
        >>=-eq-ok
          (part_or reader fields (codes "INTERVAL") (λ v. or_invalid (reader.int v)) (pos 1)) _ h in
      let (v, one_end, h) =
        >>=-eq-ok
          (raise_if
            (is_some (lookup (codes "COUNT") fields) && is_some (lookup (codes "UNTIL") fields))
            value_error)
          _ h in
      let (count, c, h) =
        >>=-eq-ok
          (part_or reader fields (codes "COUNT")
            (λ v. some_result reader (or_invalid (reader.int v))) none)
          _ h in
      let (until, t, h) =
        >>=-eq-ok
          (part_or reader fields (codes "UNTIL") (λ v. some_result reader (rrule_until reader v))
            none)
          _ h in
      let (byday, d, h) =
        >>=-eq-ok (part_or reader fields (codes "BYDAY") (parse_byday reader) []) _ h in
      let (bymonthday, md, h) = >>=-eq-ok (by_ints reader fields (codes "BYMONTHDAY")) _ h in
      let (bymonth, m, h) = >>=-eq-ok (by_ints reader fields (codes "BYMONTH")) _ h in
      let (byyearday, y, h) = >>=-eq-ok (by_ints reader fields (codes "BYYEARDAY")) _ h in
      let (bysetpos, sp, h) = >>=-eq-ok (by_ints reader fields (codes "BYSETPOS")) _ h in
      let whole : Recurrence T = record {
        frequency = frequency;
        interval = interval;
        count = count;
        until = until;
        byday = byday;
        bymonthday = bymonthday;
        bymonth = bymonth;
        byyearday = byyearday;
        bysetpos = bysetpos;
      } in
      let same : described ≡ whole = ground (arith, h) in
      let canonical_form : r ≡ canonical_rule whole =
        post_init_same described r built ∙ ap canonical_rule same in
      moved rrule (canonical_rule whole) r (sym canonical_form) record {
        fields = fields;
        tokens = said.0;
        given = said.1;
        supported = check_parts_passed fields known;
        frequency = frequency_of_ok fields frequency f;
        interval = interval-Said fields interval i;
        count = count-Said fields count c;
        until = until-Said fields until t;
        byday = byday-Said fields byday d;
        bymonthday = by_ints-Numbers fields (codes "BYMONTHDAY") bymonthday md;
        bymonth = by_ints-Numbers fields (codes "BYMONTH") bymonth m;
        byyearday = by_ints-Numbers fields (codes "BYYEARDAY") byyearday y;
        bysetpos = by_ints-Numbers fields (codes "BYSETPOS") bysetpos sp;
        is_rule = rw (← canonical_form) (post_init-IsRule described r built);
      }
