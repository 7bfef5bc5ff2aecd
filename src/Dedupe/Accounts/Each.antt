-- ===== src/Dedupe/Accounts/Each.antt =====
-- What holds of each loser still does after the restrictions of the options.
use macos_apps_mcp.Base.{
  ℕ, Str, ◌≡◌, Option, none, some, List, [], ◌∷◌, inl, inr, Bool-cases, ◌==◌, nat_eq, list_eq,
  contains, length, take, some_of, All, ltb,
}
use macos_apps_mcp.Base.Lists.{All-filter, All-map}
use macos_apps_mcp.Base.Dict.{Dict, keys}
use macos_apps_mcp.Base.Dict.Entries.{Entries}
use macos_apps_mcp.Base.Sort.{sort_by, text_le}
use macos_apps_mcp.Dedupe.Accounts.{Work, key_is, restrict_mailbox, narrow, restrict_limit, choose}

module _ (Q : Str → Str → Type 0) where
  -- Each id of each mailbox has the property.
  abbrev pub Each : Dict Str (List Str) → Type 0
  Each losers = All (λ (e : Str × List Str). All (Q e.0) e.1) losers

  pub Each-narrow :
      (ids : List Str) (losers : Dict Str (List Str)) → Each losers → Each (narrow ids losers)
  unfolding narrow
  Each-narrow ids [] a = tt
  Each-narrow ids ((url, mids) ∷ losers) a = elim (Bool-cases (some_of (contains ids) mids)) [
    | inl some_left ↦
        rw some_left (All-filter (Q url) (contains ids) mids a.0, Each-narrow ids losers a.1)
    | inr none_left ↦ rw none_left (Each-narrow ids losers a.1)
  ]

  pub Each-restrict_limit :
      (limit : Option ℕ) (work : Work) → Each work.0 → Each (restrict_limit limit work).0
  unfolding restrict_limit
  Each-restrict_limit none work a = a
  Each-restrict_limit (some n) work a = elim (Bool-cases (ltb n (length work.1))) [
    | inl more ↦ rw more (Each-narrow (take n (sort_by text_le (keys work.1))) work.0 a)
    | inr fits ↦ rw fits a
  ]

  pub Each-choose :
      (m : Option Str) (work left : Work) → choose m work ≡ some left → Each work.0 → Each left.0
  unfolding choose restrict_mailbox
  Each-choose none work left h a = let p : work ≡ left = cc in rw (← p) a
  Each-choose (some []) work left h a = let p : work ≡ left = cc in rw (← p) a
  Each-choose (some (c ∷ m)) work left h a =
      elim (Bool-cases (length (restrict_mailbox (c ∷ m) work).0 == 0)) [
        | inl none_left ↦ let bad = rw none_left at h in cc
        | inr some_left ↦
            let e = rw some_left at h in
            let p : restrict_mailbox (c ∷ m) work ≡ left = cc in
            rw (← p) (All-filter _ (key_is (λ u. u == (c ∷ m))) work.0 a)
      ]

  pub Each-Entries :
      (P : Str → Str → Type 0) (losers : Dict Str (List Str))
      → ((url mid : Str) → P url mid → Q url mid)
      → Entries (λ url. All (P url)) losers
      → Each losers
  Each-Entries P [] f a = tt
  Each-Entries P ((url, mids) ∷ losers) f a =
      (All-map (P url) (Q url) mids (f url) a.0, Each-Entries P losers f a.1)
