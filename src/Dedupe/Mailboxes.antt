-- ===== src/Dedupe/Mailboxes.antt =====
-- The same-mailbox pass: `_run_mailbox` and the second half of `dedupe_mail`.
pub mod Allowed
use macos_apps_mcp.Base.{
  ℕ, ◌+◌, Str, Bool, true, false, not, ◌&&◌, ◌||◌, Option, none, some, List, [], ◌∷◌, if◌then◌else◌,
  ◌==◌, nat_eq, list_eq, length, select,
}
use macos_apps_mcp.Base.Result.{Result, ok, err, ◌>>=◌}
use macos_apps_mcp.Dedupe.Options.{Options, is_given}
use macos_apps_mcp.Dedupe.Plan.{Row, sets, chunks}
use macos_apps_mcp.Dedupe.Pass.{
  Failure, ambiguous_target, Stop, system_exit, raised, Mail, preflight_trash,
}

-- The sets found, collapsed and left alone.
pub record Report : Type 0 where
  pub found : ℕ
  pub removed : ℕ
  pub skipped : ℕ

abbrev pub plus : Report → Report → Report
plus a b = record {
  found = a.found + b.found;
  removed = a.removed + b.removed;
  skipped = a.skipped + b.skipped;
}

abbrev pub nothing : Report
nothing = record { found = 0; removed = 0; skipped = 0 }

abbrev pub is_none_left : {A : Type 0} → List A → Bool
is_none_left [] = true
is_none_left (_ ∷ _) = false

-- `summary`, restricted to the mailbox of the options
unfoldable pub chosen : Option Str → List Str → List Str
chosen none urls = urls
chosen (some []) urls = urls
chosen (some (c ∷ m)) urls = select (λ u. u == (c ∷ m)) urls

module _ {W : Type 0} (mail : Mail W) where
  -- The loop over the chunks: it ends at the first batch that raises.
  unfoldable pub collapse_batches : Str → List (List Str) → W → Result Failure ℕ × W
  collapse_batches url [] w = (ok 0, w)
  collapse_batches url (batch ∷ batches) w =
      let (r, w') = mail.dedupe_batch batch url w in
      elim r [
        | err e ↦ (err e, w')
        | ok n ↦
            let (rest, w'') = collapse_batches url batches w' in
            (rest >>= (λ removed. ok (n + removed)), w'')
      ]

  -- `_run_mailbox`: an execution reads the rows again.
  unfoldable pub run_mailbox : Str → List Row → Bool → W → Result Failure Report × W
  run_mailbox url rows execute w =
      let (safe, skipped) = sets (if execute then mail.duplicate_rows w url else rows) in
      if not execute || is_none_left safe
      then (ok (record { found = length safe; removed = 0; skipped = length skipped }), w)
      else let (r, w') = collapse_batches url (chunks safe) w in
        (
          r >>= (λ removed.
              ok (record { found = length safe; removed = removed; skipped = length skipped })),
          w',
        )

  abbrev pub stop_of : Failure → Stop
  stop_of ambiguous_target = system_exit 2
  stop_of e = raised e

  -- The loop over the planned mailboxes.
  unfoldable pub run_mailboxes : List (Str × List Row) → Bool → Report → W → Result Stop Report × W
  run_mailboxes [] execute total w = (ok total, w)
  run_mailboxes ((url, rows) ∷ planned) execute total w =
      let (r, w') = run_mailbox url rows execute w in
      elim r [
        | err e ↦ (err (stop_of e), w')
        | ok report ↦ run_mailboxes planned execute (plus total report) w'
      ]

  unfoldable pub plan_mailboxes : W → List Str → List (Str × List Row)
  plan_mailboxes w [] = []
  plan_mailboxes w (url ∷ urls) = (url, mail.duplicate_rows w url) ∷ plan_mailboxes w urls

  -- `[url for url, rows in planned if _sets(rows)[0]]`
  unfoldable pub planned_urls : List (Str × List Row) → List Str
  planned_urls [] = []
  planned_urls ((url, rows) ∷ planned) =
      let rest = planned_urls planned in if is_none_left (sets rows).0 then rest else url ∷ rest

  -- `dedupe_mail` without `--cross-account`
  unfoldable pub dedupe_mailboxes : (Str → Option Str) → Options → W → Result Stop Report × W
  dedupe_mailboxes account_of o w =
      let summary = chosen o.mailbox (mail.duplicate_summary w) in
      let planned = plan_mailboxes w summary in
      if is_given o.mailbox && is_none_left summary
      then (ok nothing, w)
      else elim (preflight_trash account_of (mail.trash_url w) (planned_urls planned)) [
        | err e ↦ (err e, w)
        | ok _ ↦ run_mailboxes planned o.execute nothing w
      ]
