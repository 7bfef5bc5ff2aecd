-- ===== src/Dedupe/Accounts/Proven.antt =====
-- What the cross-account pass may do to the store.
use macos_apps_mcp.Base.{
  Str, ◌≡◌, refl, sym, Bool, false, Option, some, List, [], ◌∷◌, map, inl, inr, Bool-cases,
  Option-cases, ◌==◌, nat_eq, list_eq, length, All,
}
use mathlib.Core.Path.{subst}
use macos_apps_mcp.Base.Dict.{Dict}
use macos_apps_mcp.Base.Sort.{sort_by, All-sort_by}
use macos_apps_mcp.Base.Result.{Result-cases}
use macos_apps_mcp.Dedupe.Options.{Options}
use macos_apps_mcp.Dedupe.Plan.{Copy, Plan, accounts_of, chunks}
use macos_apps_mcp.Dedupe.Plan.Losers.{IsLoser, Loses}
use macos_apps_mcp.Dedupe.Plan.Safe.{cross_account_plan-IsSafe}
use macos_apps_mcp.Dedupe.Plan.Chunks.{IsChunk, chunks_lem, All-chunks}
use macos_apps_mcp.Dedupe.Pass.{Mail, preflight_trash}
use macos_apps_mcp.Dedupe.Accounts.Report.{Tally}
use macos_apps_mcp.Dedupe.Accounts.{
  bare, order_of, unknown, Work, restrict_limit, key_le, loser_urls, is_caught, keeper_rows,
  by_mailbox, check_keepers, trash_batches, trash_losers, execute, act, choose, plan_of, run_rows,
  run_cross_account,
}
use macos_apps_mcp.Dedupe.Accounts.Each.{Each, Each-restrict_limit, Each-choose, Each-Entries}

abbrev pub no_tally : Tally
no_tally = record { removed = 0; failed = 0; refused = false }

-- The check after the batches changes nothing.
execute_store :
    {W : Type 0} (mail : Mail W) (rows : List Copy) (work : Work) (w : W)
    → (execute mail rows work w).1 ≡ (trash_losers mail (sort_by key_le work.0) no_tally w).1
unfolding execute
execute_store mail rows work w =
    let start = trash_losers mail (sort_by key_le work.0) no_tally w in
    elim (Result-cases start.0) [
      | inl (e, stopped) ↦ rw (stopped, execute) refl
      | inr (t, went) ↦
          elim (Result-cases (
            check_keepers mail start.1
              (sort_by key_le (by_mailbox [] (keeper_rows work.1 rows))))) [
                | inl (e, unread) ↦ rw (went, execute, unread) refl
                | inr (lost, checked) ↦ rw (went, execute, checked) refl
              ]
    ]

module _ {W : Type 0} (mail : Mail W) (I : W → Type 0) (Q : Str → Str → Type 0)
    (step : (url : Str) (w : W) (batch : List Str)
      → IsChunk batch
      → All (Q url) batch
      → I w
      → I (mail.trash_mail batch url w).1) where
  trash_batches-keeps :
      (url : Str) (batches : List (List Str)) (t : Tally) (w : W)
      → All IsChunk batches
      → All (All (Q url)) batches
      → I w
      → I (trash_batches mail url batches t w).1
  unfolding trash_batches
  trash_batches-keeps url [] t w c a i = i
  trash_batches-keeps url (batch ∷ batches) t w c a i =
      let moved = step url w batch c.0 a.0 i in
      elim (Result-cases (mail.trash_mail batch url w).0) [
        | inl (e, stopped) ↦ elim (Bool-cases (is_caught e)) [
          | inl caught ↦ rw (stopped, trash_batches, caught) moved
          | inr uncaught ↦ rw (stopped, trash_batches, uncaught) moved
        ]
        | inr (n, went) ↦
            rw (went, trash_batches)
              (trash_batches-keeps url batches _ (mail.trash_mail batch url w).1 c.1 a.1 moved)
      ]

  trash_losers-keeps :
      (losers : Dict Str (List Str)) (t : Tally) (w : W)
      → Each Q losers
      → I w
      → I (trash_losers mail losers t w).1
  unfolding trash_losers
  trash_losers-keeps [] t w a i = i
  trash_losers-keeps ((url, mids) ∷ losers) t w a i =
      let moved =
        trash_batches-keeps url (chunks mids) t w (chunks_lem mids).1 (All-chunks (Q url) mids a.0)
          i in
      elim (Result-cases (trash_batches mail url (chunks mids) t w).0) [
        | inl (e, stopped) ↦ rw (stopped, trash_losers) moved
        | inr (t', went) ↦ elim (Bool-cases t'.refused) [
          | inl refused ↦ rw (went, trash_losers, refused) moved
          | inr on ↦
              rw (went, trash_losers, on)
                (trash_losers-keeps losers t' (trash_batches mail url (chunks mids) t w).1 a.1
                  moved)
        ]
      ]

  execute-keeps :
      (rows : List Copy) (work : Work) (w : W)
      → Each Q work.0
      → I w
      → I (execute mail rows work w).1
  execute-keeps rows work w a i =
      subst I (sym (execute_store mail rows work w))
        (trash_losers-keeps (sort_by key_le work.0) no_tally w (All-sort_by _ key_le work.0 a) i)

  act-keeps :
      (account_of : Str → Option Str) (run : Bool) (rows : List Copy) (work : Work) (w : W)
      → Each Q work.0
      → I w
      → I (act mail account_of run rows work w).1
  unfolding act
  act-keeps account_of run rows work w a i =
      elim (Result-cases (preflight_trash account_of (mail.trash_url w) (loser_urls work.0))) [
        | inl (e, refused) ↦ rw (refused, act) i
        | inr (_, clear) ↦
            rw (clear, act)
              (elim (Bool-cases run) [
                | inl acts ↦ rw acts (execute-keeps rows work w a i)
                | inr previews ↦ rw previews i
              ])
      ]

module _ {W : Type 0} (mail : Mail W) (is_trash : Str → Bool) (account_of : Str → Option Str) where
  abbrev pub rows_of : W → List Copy
  rows_of w = map bare (mail.cross_account_rows w)

  -- The ids that the plan may send to Trash, by mailbox.
  abbrev pub MayGo : Options → W → Str → Str → Type 0
  MayGo o w = IsLoser is_trash (order_of o.keep_account) (mail.fingerprint w) (rows_of w)

  plan-Each :
      (o : Options) (w : W)
      → Each (MayGo o w) (plan_of mail is_trash account_of o (rows_of w) w).losers
  plan-Each o w =
      Each-Entries (MayGo o w)
        (Loses is_trash (order_of o.keep_account) (mail.fingerprint w) (rows_of w) p.keepers)
        p.losers (λ url mid l. l.0)
        (cross_account_plan-IsSafe is_trash (order_of o.keep_account) (mail.fingerprint w)
          (rows_of w))
    where
      p : Plan
      p = plan_of mail is_trash account_of o (rows_of w) w

  -- The store at the end, when it is known wherever the pass may end.
  run-cases :
      (P : W → Type 0) (o : Options) (w : W)
      → P w
      → ((work : Work)
          → (let p = plan_of mail is_trash account_of o (rows_of w) w in
              choose o.mailbox (p.losers, p.keepers))
            ≡ some work
          → P (act mail account_of o.execute (rows_of w) (restrict_limit o.limit work) w).1)
      → P (run_cross_account mail is_trash account_of o w).1
  unfolding run_cross_account run_rows
  run-cases P o w same acted =
      let p = plan_of mail is_trash account_of o (rows_of w) w in
      elim (Bool-cases (length (rows_of w) == 0)) [
        | inl none_found ↦ rw none_found same
        | inr found ↦
            rw found
              (elim (Bool-cases (
                length (unknown (order_of o.keep_account) (accounts_of (rows_of w)))
                == length (order_of o.keep_account))) [
                  | inl nobody ↦ rw nobody same
                  | inr somebody ↦
                      rw somebody (elim (Option-cases (choose o.mailbox (p.losers, p.keepers))) [
                        | inl nothing_there ↦ rw nothing_there same
                        | inr (work, there) ↦ rw there (acted work there)
                      ])
                ])
      ]

  -- Whatever is kept by moving to Trash at most eight messages of one mailbox, each with a keeper
  -- in another account of the given order and with the same body in all its copies, is kept by the
  -- whole cross-account pass, on every path through it, refusals included: it does nothing else.
  pub run_cross_account-keeps :
      (I : W → Type 0) (o : Options) (w : W)
      → ((url : Str) (v : W) (batch : List Str)
          → IsChunk batch
          → All (MayGo o w url) batch
          → I v
          → I (mail.trash_mail batch url v).1)
      → I w
      → I (run_cross_account mail is_trash account_of o w).1
  run_cross_account-keeps I o w step i = run-cases I o w i (λ work there.
      act-keeps mail I (MayGo o w) step account_of o.execute (rows_of w)
        (restrict_limit o.limit work) w
        (Each-restrict_limit (MayGo o w) o.limit work
          (Each-choose (MayGo o w) o.mailbox _ work there (plan-Each o w)))
        i)

  act_preview :
      (rows : List Copy) (work : Work) (w : W) → (act mail account_of false rows work w).1 ≡ w
  unfolding act
  act_preview rows work w =
      elim (Result-cases (preflight_trash account_of (mail.trash_url w) (loser_urls work.0))) [
        | inl (e, refused) ↦ rw (refused, act) refl
        | inr (_, clear) ↦ rw (clear, act) refl
      ]

  -- Without `--execute` the cross-account pass leaves the store as it was.
  pub run_cross_account_preview :
      (o : Options) (w : W)
      → o.execute ≡ false
      → (run_cross_account mail is_trash account_of o w).1 ≡ w
  run_cross_account_preview o w h =
      run-cases (λ v. v ≡ w) o w refl
        (λ work there. rw h (act_preview (rows_of w) (restrict_limit o.limit work) w))
