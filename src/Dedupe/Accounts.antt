-- ===== src/Dedupe/Accounts.antt =====
-- The cross-account pass: `_run_cross_account` of macos_apps_mcp/dedupe.py. What it prints is left out, but for the copies that
-- its last check misses. A batch never counts more successes than it has targets.
pub mod Report
pub mod Each
pub mod Proven
pub mod Verified
use macos_apps_mcp.Base.{
  ℕ, ◌+◌, ◌-◌, Str, codes, Bool, true, false, not, ◌&&◌, Option, none, some, List, [], ◌∷◌, ◌++◌,
  map, ltb, if◌then◌else◌, ◌==◌, nat_eq, list_eq, option_eq, contains, length, take, select,
  some_of,
}
use mathlib.Core.List.{reverse}
use macos_apps_mcp.Base.Dict.{Dict, keys, lookup}
use macos_apps_mcp.Base.Dict.Group.{push}
use macos_apps_mcp.Base.Sort.{unique, sort_by, text_le}
use macos_apps_mcp.Base.Text.{strip, lstrip, split}
use macos_apps_mcp.Base.Result.{Result, ok, err, ◌>>=◌}
use macos_apps_mcp.Dedupe.Options.{Options}
use macos_apps_mcp.Dedupe.Plan.{Copy, Plan, accounts_of, cross_account_plan, chunks}
use macos_apps_mcp.Dedupe.Pass.{
  Failure, ambiguous_target, native_error, value_error, other_error, Stop, system_exit, raised,
  Mail, preflight_trash,
}
use macos_apps_mcp.Mail.Ids.{bare_id}
use macos_apps_mcp.Dedupe.Accounts.Report.{
  Tally, Lost, CrossReport, End, no_work, previewed, executed,
}

abbrev pub bare : Copy → Copy
bare r = record r { message_id = bare_id r.message_id }

-- `[a.strip() for a in pieces if a.strip()]`
unfoldable pub stripped : List Str → List Str
stripped [] = []
stripped (p ∷ ps) = let rest = stripped ps in if strip p == [] then rest else strip p ∷ rest

abbrev pub order_of : Option Str → List Str
order_of none = []
order_of (some keep) = stripped (split b',' keep)

-- `unknown`: the accounts of the order that hold no copy.
unfoldable pub unknown : List Str → List Str → List Str
unknown order accounts = select (λ a. not (contains accounts a)) order

-- The losers and keepers that are left after `--mailbox` and `--limit`.
abbrev pub Work : Type 0
Work = Dict Str (List Str) × Dict Str Str

abbrev pub key_is : {V : Type 0} → (Str → Bool) → Str × V → Bool
key_is p (k, _) = p k

-- `opts["mailbox"]`, when it is given
unfoldable pub restrict_mailbox : Str → Work → Work
restrict_mailbox m (losers, keepers) =
    let left = select (key_is (λ u. u == m)) losers in
    (left, select (key_is (λ k. some_of (λ (e : Str × List Str). contains e.1 k) left)) keepers)

-- `losers` under a limit: the mailboxes that keep an id.
unfoldable pub narrow : List Str → Dict Str (List Str) → Dict Str (List Str)
narrow ids [] = []
narrow ids ((url, mids) ∷ losers) =
    let rest = narrow ids losers in
    if some_of (contains ids) mids then (url, select (contains ids) mids) ∷ rest else rest

-- `--mailbox`: a mailbox without losers ends the pass.
unfoldable pub choose : Option Str → Work → Option Work
choose none work = some work
choose (some []) work = some work
choose (some (c ∷ m)) work =
    let left = restrict_mailbox (c ∷ m) work in if length left.0 == 0 then none else some left

-- `opts["limit"]`, on more sets than it allows
unfoldable pub restrict_limit : Option ℕ → Work → Work
restrict_limit none work = work
restrict_limit (some n) (losers, keepers) =
    let ids = take n (sort_by text_le (keys keepers)) in
    if ltb n (length keepers)
    then (narrow ids losers, select (key_is (contains ids)) keepers)
    else (losers, keepers)

abbrev pub key_le : {V : Type 0} → Str × V → Str × V → Bool
key_le (j, _) (k, _) = text_le j k

-- `[url for url, mids in losers.items() if mids]`
unfoldable pub loser_urls : Dict Str (List Str) → List Str
loser_urls [] = []
loser_urls ((url, mids) ∷ losers) =
    let rest = loser_urls losers in if length mids == 0 then rest else url ∷ rest

-- `except (NativeError, ValueError)`
abbrev pub is_caught : Failure → Bool
is_caught other_error = false
is_caught _ = true

-- `keeper_rows`
unfoldable pub keeper_rows : Dict Str Str → List Copy → List Copy
keeper_rows keepers rows = select (λ (r : Copy). lookup r.message_id keepers == some r.account) rows

-- `by_mailbox`
unfoldable pub by_mailbox : Dict Str (List Str) → List Copy → Dict Str (List Str)
by_mailbox d [] = d
by_mailbox d (r ∷ rows) = by_mailbox (push r.mailbox_url r.message_id d) rows

-- The ids of a batch that are not reported present.
unfoldable pub missing : Dict Str Str → Str → List Str → List Lost
missing statuses url [] = []
missing statuses url (mid ∷ mids) =
    let rest = missing statuses url mids in
    if lookup mid statuses == some (codes "present")
    then rest
    else record { id = mid; mailbox = url } ∷ rest

module _ {W : Type 0} (mail : Mail W) where
  unfoldable pub check_batches : W → Str → List (List Str) → Result Failure (List Lost)
  check_batches w url [] = ok []
  check_batches w url (batch ∷ batches) = mail.presence w batch url >>= λ statuses.
      check_batches w url batches >>= λ rest. ok (missing statuses url batch ++ rest)

  -- The mandatory post-pass.
  unfoldable pub check_keepers : W → Dict Str (List Str) → Result Failure (List Lost)
  check_keepers w [] = ok []
  check_keepers w ((url, mids) ∷ d) =
      check_batches w url (chunks mids) >>= λ lost. check_keepers w d >>= λ rest. ok (lost ++ rest)

  -- The batches of one mailbox, up to the first that is refused.
  unfoldable pub trash_batches : Str → List (List Str) → Tally → W → Result Failure Tally × W
  trash_batches url [] t w = (ok t, w)
  trash_batches url (batch ∷ batches) t w =
      let (r, w') = mail.trash_mail batch url w in
      elim r [
        | err e ↦ if is_caught e then (ok (record t { refused = true }), w') else (err e, w')
        | ok n ↦
            trash_batches url batches
              (record t { removed = t.removed + n; failed = t.failed + (length batch - n) }) w'
      ]

  unfoldable pub trash_losers : Dict Str (List Str) → Tally → W → Result Failure Tally × W
  trash_losers [] t w = (ok t, w)
  trash_losers ((url, mids) ∷ losers) t w =
      let (r, w') = trash_batches url (chunks mids) t w in
      elim r [
        | err e ↦ (err e, w')
        | ok t' ↦ elim t'.refused [ true ↦ (ok t', w') | false ↦ trash_losers losers t' w' ]
      ]

  -- From the first batch to the end of the check.
  unfoldable pub execute : List Copy → Work → W → Result Stop End × W
  execute rows (losers, keepers) w =
      let (r, w') =
        trash_losers (sort_by key_le losers) (record { removed = 0; failed = 0; refused = false })
          w in
      let kept = keeper_rows keepers rows in
      let checked = check_keepers w' (sort_by key_le (by_mailbox [] kept)) in
      elim r [
        | err e ↦ (err (raised e), w')
        | ok t ↦ elim checked [
          | err e ↦ (err (raised e), w')
          | ok lost ↦ (ok (executed (record { tally = t; lost = lost; kept = length kept })), w')
        ]
      ]

  -- From the preflight on.
  unfoldable pub act : (Str → Option Str) → Bool → List Copy → Work → W → Result Stop End × W
  act account_of run rows work w =
      elim (preflight_trash account_of (mail.trash_url w) (loser_urls work.0)) [
        | err e ↦ (err e, w)
        | ok _ ↦ if run then execute rows work w else (ok previewed, w)
      ]

  module _ (is_trash : Str → Bool) (account_of : Str → Option Str) where
    abbrev pub plan_of : Options → List Copy → W → Plan
    plan_of o rows w =
        cross_account_plan is_trash (order_of o.keep_account) (mail.fingerprint w) rows

    unfoldable pub run_rows : Options → List Copy → W → Result Stop End × W
    run_rows o rows w =
        let p = plan_of o rows w in
        if length (unknown (order_of o.keep_account) (accounts_of rows))
          == length (order_of o.keep_account)
        then (err (system_exit 2), w)
        else elim (choose o.mailbox (p.losers, p.keepers)) [
          | none ↦ (ok no_work, w)
          | some work ↦ act account_of o.execute rows (restrict_limit o.limit work) w
        ]

    -- `_run_cross_account`
    unfoldable pub run_cross_account : Options → W → Result Stop End × W
    run_cross_account o w =
        let rows = map bare (mail.cross_account_rows w) in
        if length rows == 0 then (ok no_work, w) else run_rows o rows w
