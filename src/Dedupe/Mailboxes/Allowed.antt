-- ===== src/Dedupe/Mailboxes/Allowed.antt =====
-- What the same-mailbox pass may do to the store.
use macos_apps_mcp.Base.{
  Str, ◌≡◌, refl, sym, ◌∙◌, Bool, true, false, ◌&&◌, Option, List, [], ◌∷◌, inl, inr, Bool-cases,
  ◌==◌, nat_eq, list_eq, select, All,
}
use macos_apps_mcp.Base.Result.{Result-cases}
use macos_apps_mcp.Base.Sort.{All-contains}
use macos_apps_mcp.Dedupe.Options.{Options, is_given}
use macos_apps_mcp.Dedupe.Plan.{Row, sets, chunks}
use macos_apps_mcp.Dedupe.Plan.Sets.{is_collapsible, sets_exact}
use macos_apps_mcp.Dedupe.Plan.Chunks.{IsChunk, chunks_lem, All-chunks}
use macos_apps_mcp.Dedupe.Pass.{Mail, preflight_trash}
use macos_apps_mcp.Dedupe.Mailboxes.{
  Report, plus, nothing, is_none_left, chosen, collapse_batches, run_mailbox, run_mailboxes,
  plan_mailboxes, planned_urls, dedupe_mailboxes,
}

-- Each id of a batch is one whose rows, in this reading of the mailbox, all agree.
abbrev pub Agrees : List Row → Str → Type 0
Agrees rows mid = is_collapsible (select (λ r. r.message_id == mid) rows) ≡ true

-- The store `w` comes from the store `seen` by batches of one mailbox, and by nothing else.
pub data After {W : Type 0} (mail : Mail W) (url : Str) (seen : W) : W → Type 0 where
  at_once : After mail url seen seen
  later :
      (w : W) (batch : List Str)
      → After mail url seen w
      → After mail url seen (mail.dedupe_batch batch url w).1

module _ {W : Type 0} (mail : Mail W) (I : W → Type 0)
    (step : (url : Str) (seen w : W) (batch : List Str)
      → IsChunk batch
      → All (Agrees (mail.duplicate_rows seen url)) batch
      → After mail url seen w
      → I seen
      → I w
      → I (mail.dedupe_batch batch url w).1) where
  collapse_batches-keeps :
      (url : Str) (seen w : W) (batches : List (List Str))
      → All IsChunk batches
      → All (All (Agrees (mail.duplicate_rows seen url))) batches
      → After mail url seen w
      → I seen
      → I w
      → I (collapse_batches mail url batches w).1
  unfolding collapse_batches
  collapse_batches-keeps url seen w [] c a from first i = i
  collapse_batches-keeps url seen w (batch ∷ batches) c a from first i =
      let moved = step url seen w batch c.0 a.0 from first i in
      elim (Result-cases (mail.dedupe_batch batch url w).0) [
        | inl (e, stopped) ↦ rw (stopped, collapse_batches) moved
        | inr (n, went) ↦
            rw (went, collapse_batches)
              (collapse_batches-keeps url seen (mail.dedupe_batch batch url w).1 batches c.1 a.1
                (later w batch from) first moved)
      ]

  run_mailbox-keeps :
      (url : Str) (rows : List Row) (execute : Bool) (w : W)
      → I w
      → I (run_mailbox mail url rows execute w).1
  unfolding run_mailbox
  run_mailbox-keeps url rows false w i = i
  run_mailbox-keeps url rows true w i =
      let seen_rows = mail.duplicate_rows w url in
      elim (Bool-cases (is_none_left (sets seen_rows).0)) [
        | inl none_left ↦ rw none_left i
        | inr some_left ↦ rw some_left (
            collapse_batches-keeps url w w (chunks (sets seen_rows).0)
              (chunks_lem (sets seen_rows).0).1
              (All-chunks (Agrees seen_rows) (sets seen_rows).0 (
                All-contains (Agrees seen_rows) (sets seen_rows).0
                  (λ mid m. sym (sets_exact seen_rows mid) ∙ m)))
              at_once i i)
      ]

  run_mailboxes-keeps :
      (planned : List (Str × List Row)) (execute : Bool) (total : Report) (w : W)
      → I w
      → I (run_mailboxes mail planned execute total w).1
  unfolding run_mailboxes
  run_mailboxes-keeps [] execute total w i = i
  run_mailboxes-keeps ((url, rows) ∷ planned) execute total w i =
      let moved = run_mailbox-keeps url rows execute w i in
      elim (Result-cases (run_mailbox mail url rows execute w).0) [
        | inl (e, stopped) ↦ rw (stopped, run_mailboxes) moved
        | inr (report, went) ↦
            rw (went, run_mailboxes)
              (run_mailboxes-keeps planned execute (plus total report)
                (run_mailbox mail url rows execute w).1 moved)
      ]

  -- Whatever is kept by moving to Trash the redundant copies of at most eight ids of one mailbox,
  -- all of whose rows agree in size and in date, is kept by the whole same-mailbox pass, on every path
  -- through it, failures included: it does nothing else. The rows are read in a store of the pass,
  -- where the property holds too, and since that reading only batches of that mailbox have run.
  pub dedupe_mailboxes-keeps :
      (account_of : Str → Option Str) (o : Options) (w : W)
      → I w
      → I (dedupe_mailboxes mail account_of o w).1
  unfolding dedupe_mailboxes
  dedupe_mailboxes-keeps account_of o w i =
      let planned = plan_mailboxes mail w (chosen o.mailbox (mail.duplicate_summary w)) in
      elim (Bool-cases
        (is_given o.mailbox && is_none_left (chosen o.mailbox (mail.duplicate_summary w)))) [
          | inl unknown ↦ rw unknown i
          | inr chosen_some ↦
              rw chosen_some
                (elim (Result-cases
                  (preflight_trash account_of (mail.trash_url w) (planned_urls mail planned))) [
                    | inl (e, refused) ↦ rw refused i
                    | inr (_, clear) ↦ rw clear (run_mailboxes-keeps planned o.execute nothing w i)
                  ])
        ]

module _ {W : Type 0} (mail : Mail W) where
  run_mailbox_preview :
      (url : Str) (rows : List Row) (w : W) → (run_mailbox mail url rows false w).1 ≡ w
  unfolding run_mailbox
  run_mailbox_preview url rows w = refl

  run_mailboxes_preview :
      (planned : List (Str × List Row)) (total : Report) (w : W)
      → (run_mailboxes mail planned false total w).1 ≡ w
  unfolding run_mailboxes run_mailbox
  run_mailboxes_preview [] total w = refl
  run_mailboxes_preview ((url, rows) ∷ planned) total w = run_mailboxes_preview planned _ w

  -- Without `--execute` the same-mailbox pass leaves the store as it was.
  pub dedupe_mailboxes_preview :
      (account_of : Str → Option Str) (o : Options) (w : W)
      → o.execute ≡ false
      → (dedupe_mailboxes mail account_of o w).1 ≡ w
  unfolding dedupe_mailboxes
  dedupe_mailboxes_preview account_of o w h =
      let planned = plan_mailboxes mail w (chosen o.mailbox (mail.duplicate_summary w)) in
      elim (Bool-cases
        (is_given o.mailbox && is_none_left (chosen o.mailbox (mail.duplicate_summary w)))) [
          | inl unknown ↦ rw unknown refl
          | inr chosen_some ↦
              rw chosen_some
                (elim (Result-cases
                  (preflight_trash account_of (mail.trash_url w) (planned_urls mail planned))) [
                    | inl (e, refused) ↦ rw refused refl
                    | inr (_, clear) ↦ rw clear (rw h (run_mailboxes_preview planned nothing w))
                  ])
        ]
