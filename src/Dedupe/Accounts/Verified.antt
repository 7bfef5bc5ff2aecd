-- ===== src/Dedupe/Accounts/Verified.antt =====
-- The mandatory post-pass of the cross-account pass.
use macos_apps_mcp.Base.{
  Str, codes, ◌≡◌, ap, ◌∙◌, true, some, List, [], ◌∷◌, ◌++◌, arith, inl, inr, Bool-cases, ◌==◌,
  nat_eq, list_eq, option_eq, list_beq_iff, option_beq_iff, beq_refl, contains, All, length, Bool,
  false, ◌⊎◌, select,
}
use mathlib.Core.Path.{subst}
use macos_apps_mcp.Base.Lists.{All-append, append_none}
use macos_apps_mcp.Base.Dict.{Dict, lookup}
use macos_apps_mcp.Base.Dict.Group.{or_empty, push, lookup-push}
use macos_apps_mcp.Base.Sort.{sort_by, sort_by-All, All-at, All-contains}
use macos_apps_mcp.Base.Result.{ok, ◌>>=◌, >>=-eq-ok, Result-cases}
use macos_apps_mcp.Dedupe.Plan.{Copy, chunks}
use macos_apps_mcp.Dedupe.Plan.Chunks.{IsChunk, concat, chunks_lem}
use macos_apps_mcp.Dedupe.Pass.{Mail}
use macos_apps_mcp.Dedupe.Accounts.Report.{CrossReport, executed}
use macos_apps_mcp.Dedupe.Accounts.{
  Work, key_le, keeper_rows, by_mailbox, missing, check_batches, check_keepers, trash_losers,
  execute,
}
use macos_apps_mcp.Dedupe.Accounts.Proven.{no_tally}

missing_none :
    (statuses : Dict Str Str) (url : Str) (mids : List Str)
    → missing statuses url mids ≡ []
    → All (λ mid. lookup mid statuses ≡ some (codes "present")) mids
unfolding missing
missing_none statuses url [] h = tt
missing_none statuses url (mid ∷ mids) h =
    elim (Bool-cases (lookup mid statuses == some (codes "present"))) [
      | inl present ↦
          let rest = rw present at h in
          (
            (option_beq_iff (lookup mid statuses) (some (codes "present"))).0 present,
            missing_none statuses url mids rest,
          )
      | inr absent ↦ let bad = rw absent at h in cc
    ]

All-concat :
    {A : Type 0} (P : A → Type 0) (xss : List (List A)) → All (All P) xss → All P (concat xss)
All-concat P [] a = tt
All-concat P (xs ∷ xss) a = All-append P xs (concat xss) a.0 (All-concat P xss a.1)

contains-append : (m : Str) (xs ys : List Str) → contains xs m ≡ true → contains (xs ++ ys) m ≡ true
contains-append m [] ys h = cc
contains-append m (x ∷ xs) ys h = ground (arith, contains-append m xs ys)

contains-append-last : (m : Str) (xs : List Str) → contains (xs ++ (m ∷ [])) m ≡ true
contains-append-last m [] = ground (arith, beq_refl m)
contains-append-last m (x ∷ xs) = ground (arith, contains-append-last m xs)

-- What holds of the selected elements holds of each that passes the test.
All-unselect :
    {A : Type 0} (P : A → Type 0) (p : A → Bool) (xs : List A)
    → All P (select p xs)
    → All (λ x. (p x ≡ false) ⊎ P x) xs
unfolding select
All-unselect P p [] a = tt
All-unselect P p (x ∷ xs) a = elim (Bool-cases (p x)) [
  | inl chosen ↦ let a = rw chosen at (a) in (inr a.0, All-unselect P p xs a.1)
  | inr other ↦ let a = rw other at (a) in (inl other, All-unselect P p xs a)
]

-- Each row's id is listed under its mailbox.
by_mailbox_grows :
    (u m : Str) (d : Dict Str (List Str)) (rows : List Copy)
    → contains (or_empty (lookup u d)) m ≡ true
    → contains (or_empty (lookup u (by_mailbox d rows))) m ≡ true
unfolding by_mailbox
by_mailbox_grows u m d [] h = h
by_mailbox_grows u m d (r ∷ rows) h =
    by_mailbox_grows u m (push r.mailbox_url r.message_id d) rows (
      rw (lookup-push r.mailbox_url u r.message_id d)
        (contains-append m (or_empty (lookup u d)) _ h))

listed :
    (Q : Str → Str → Type 0) (d : Dict Str (List Str)) (u m : Str)
    → All (λ (e : Str × List Str). All (Q e.0) e.1) d
    → contains (or_empty (lookup u d)) m ≡ true
    → Q u m
unfolding lookup
listed Q [] u m a h = cc
listed Q ((k, ms) ∷ d) u m a h = elim (Bool-cases (k == u)) [
  | inl same ↦
      let here : contains ms m ≡ true = rw same at h in
      rw (← (list_beq_iff k u).0 same) (All-at (Q k) ms m a.0 here)
  | inr other ↦ let there = rw other at h in listed Q d u m a.1 there
]

by_mailbox-All :
    (Q : Str → Str → Type 0) (d : Dict Str (List Str)) (rows : List Copy)
    → All (λ (e : Str × List Str). All (Q e.0) e.1) (by_mailbox d rows)
    → All (λ (c : Copy). Q c.mailbox_url c.message_id) rows
unfolding by_mailbox
by_mailbox-All Q d [] a = tt
by_mailbox-All Q d (r ∷ rows) a = (
  listed Q (by_mailbox (push r.mailbox_url r.message_id d) rows) r.mailbox_url r.message_id a (
      by_mailbox_grows r.mailbox_url r.message_id (push r.mailbox_url r.message_id d) rows (
        rw (lookup-push r.mailbox_url r.mailbox_url r.message_id d) (
          rw (beq_refl r.mailbox_url)
            (contains-append-last r.message_id (or_empty (lookup r.mailbox_url d)))))),
  by_mailbox-All Q (push r.mailbox_url r.message_id d) rows a,
)

module _ {W : Type 0} (mail : Mail W) where
  -- In this store, Mail has answered a small batch of the mailbox with the id as present.
  pub record Confirmed (w : W) (url mid : Str) : Type 0 where
    pub batch : List Str
    pub small : IsChunk batch
    pub asked : contains batch mid ≡ true
    pub statuses : Dict Str Str
    pub answer : mail.presence w batch url ≡ ok statuses
    pub present : lookup mid statuses ≡ some (codes "present")

  check_batches-Confirmed :
      (w : W) (url : Str) (batches : List (List Str))
      → check_batches mail w url batches ≡ ok []
      → All IsChunk batches
      → All (All (Confirmed w url)) batches
  unfolding check_batches
  check_batches-Confirmed w url [] h c = tt
  check_batches-Confirmed w url (batch ∷ batches) h c =
      let (statuses, answered, rest) =
        >>=-eq-ok (mail.presence w batch url)
          (λ statuses.
            check_batches mail w url batches >>= λ rest. ok (missing statuses url batch ++ rest))
          h in
      let (more, checked, joined) =
        >>=-eq-ok (check_batches mail w url batches)
          (λ rest. ok (missing statuses url batch ++ rest)) rest in
      let p : missing statuses url batch ++ more ≡ [] = cc in
      let (here, later) = append_none (missing statuses url batch) more p in
      let there = missing_none statuses url batch here in
      (
        All-contains (Confirmed w url) batch (λ mid m. record {
          batch = batch;
          small = c.0;
          asked = m;
          statuses = statuses;
          answer = answered;
          present = All-at _ batch mid there m;
        }),
        check_batches-Confirmed w url batches (rw (← later) checked) c.1,
      )

  check_keepers-Confirmed :
      (w : W) (d : Dict Str (List Str))
      → check_keepers mail w d ≡ ok []
      → All (λ (e : Str × List Str). All (Confirmed w e.0) e.1) d
  unfolding check_keepers
  check_keepers-Confirmed w [] h = tt
  check_keepers-Confirmed w ((url, mids) ∷ d) h =
      let (lost, checked, rest) =
        >>=-eq-ok (check_batches mail w url (chunks mids))
          (λ lost. check_keepers mail w d >>= λ rest. ok (lost ++ rest)) h in
      let (more, checked_more, joined) =
        >>=-eq-ok (check_keepers mail w d) (λ rest. ok (lost ++ rest)) rest in
      let p : lost ++ more ≡ [] = cc in
      let (here, later) = append_none lost more p in
      let (whole, small) = chunks_lem mids in
      (
        subst (All (Confirmed w url)) whole (
            All-concat (Confirmed w url) (chunks mids)
              (check_batches-Confirmed w url (chunks mids) (rw (← here) checked) small)),
        check_keepers-Confirmed w d (rw (← later) checked_more),
      )

  -- If an execution of the cross-account plan ends with no copy reported lost, then, refused or
  -- not, each copy of the index whose account is the one that the plan keeps for its message was
  -- reported present by Mail, in its own mailbox and in a batch of at most eight, after the last
  -- message was moved.
  pub execute-Confirmed :
      (rows : List Copy) (work : Work) (w w' : W) (r : CrossReport)
      → execute mail rows work w ≡ (ok (executed r), w')
      → r.lost ≡ []
      → All
          (λ (c : Copy).
            ((lookup c.message_id work.1 == some c.account) ≡ false)
            ⊎ Confirmed w' c.mailbox_url c.message_id)
          rows
  unfolding execute keeper_rows
  execute-Confirmed rows work w w' r h none_lost =
      let start = trash_losers mail (sort_by key_le work.0) no_tally w in
      let copies = sort_by key_le (by_mailbox [] (keeper_rows work.1 rows)) in
      elim (Result-cases start.0) [
        | inl (e, stopped) ↦ let bad = rw (stopped, execute) at h in cc
        | inr (t, went) ↦ elim (Result-cases (check_keepers mail start.1 copies)) [
          | inl (e, unread) ↦ let bad = rw (went, execute, unread) at h in cc
          | inr (lost, checked) ↦
              let done = rw (went, execute, checked) at h in
              let after : start.1 ≡ w' = ap (λ p. p.1) done in
              let first : ok (
                    executed
                      (record { tally = t; lost = lost; kept = length (keeper_rows work.1 rows) }))
                  ≡ ok (executed r) =
                ap (λ p. p.0) done in
              let same : executed
                    (record { tally = t; lost = lost; kept = length (keeper_rows work.1 rows) })
                  ≡ executed r =
                cc in
              let report : record {
                tally = t;
                lost = lost;
                kept = length (keeper_rows work.1 rows);
              }
                  ≡ r =
                cc in
              let none : lost ≡ [] = ap (λ (x : CrossReport). x.lost) report ∙ none_lost in
              All-unselect (λ (c : Copy). Confirmed w' c.mailbox_url c.message_id)
                (λ (c : Copy). lookup c.message_id work.1 == some c.account) rows
                (by_mailbox-All (Confirmed w') [] (keeper_rows work.1 rows) (
                  sort_by-All _ key_le (by_mailbox [] (keeper_rows work.1 rows))
                    (check_keepers-Confirmed w' copies (rw (← after) (rw (← none) checked)))))
        ]
      ]
