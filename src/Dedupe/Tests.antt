-- ===== src/Dedupe/Tests.antt =====
-- Examples of the duplicate cleanup: a message in two accounts, and one twice in a mailbox.
use macos_apps_mcp.Base.{
  ℕ, Str, codes, ◌≡◌, refl, Bool, true, false, not, ◌&&◌, Option, none, some, List, [], ◌∷◌, nat_eq,
  list_eq, option_eq, list_beq, contains, select, ◌==◌, ◌⊎◌, All, length,
}
use macos_apps_mcp.Base.Integer.{ℤ}
use macos_apps_mcp.Base.Dict.{Dict, lookup, insert}
use macos_apps_mcp.Base.Dict.Group.{push, group_onto}
use macos_apps_mcp.Base.Sort.{unique, sort_by, insert_by, text_le}
use macos_apps_mcp.Base.Text.{starts_with, partition}
use macos_apps_mcp.Base.Result.{ok}
use macos_apps_mcp.Dedupe.Options.{
  Options, parse, parse_args, parse_arg, check_keeper, value_of, is_given,
}
use macos_apps_mcp.Dedupe.Options.Checked.{HasLimit, parse_lem}
use macos_apps_mcp.Dedupe.Plan.{
  Row, Copy, sets, sort_sets, chunks, chunks_in, cross_account_plan, plan_sets, plan_set, collapse,
  targets, add_losers, first_in,
}
use macos_apps_mcp.Dedupe.Plan.Sets.{is_collapsible, sets_exact}
use macos_apps_mcp.Dedupe.Plan.Chunks.{IsChunk}
use macos_apps_mcp.Dedupe.Plan.Losers.{IsSafe}
use macos_apps_mcp.Dedupe.Plan.Safe.{cross_account_plan-IsSafe}
use macos_apps_mcp.Dedupe.Pass.{trash_at, Mail}
use macos_apps_mcp.Dedupe.Mailboxes.{dedupe_mailboxes}
use macos_apps_mcp.Dedupe.Mailboxes.Allowed.{dedupe_mailboxes-keeps}
use macos_apps_mcp.Dedupe.Accounts.{
  Work, run_cross_account, execute, keeper_rows, by_mailbox, missing, check_batches, check_keepers,
  trash_batches, trash_losers,
}
use macos_apps_mcp.Dedupe.Accounts.Report.{CrossReport, executed}
use macos_apps_mcp.Dedupe.Accounts.Proven.{run_cross_account-keeps}
use macos_apps_mcp.Dedupe.Accounts.Verified.{Confirmed, execute-Confirmed}

abbrev inbox : Str
inbox = codes "imap://A/INBOX"

abbrev other_inbox : Str
other_inbox = codes "imap://B/INBOX"

abbrev twin : Row
twin = record { message_id = codes "m1"; size = 10; date_sent = 5 }

abbrev rows : List Row
rows = twin ∷ twin ∷ record { message_id = codes "m2"; size = 7; date_sent = 6 } ∷ []

sets_exact_example :
    contains (sets rows).0 (codes "m1")
    ≡ is_collapsible (select (λ r. r.message_id == codes "m1") rows)
sets_exact_example = sets_exact rows (codes "m1")

twins_found : (sets rows).0 ≡ codes "m1" ∷ []
unfolding sets sort_sets group_onto push insert lookup list_beq
twins_found = refl

abbrev nine : List ℕ
nine = 1 ∷ 2 ∷ 3 ∷ 4 ∷ 5 ∷ 6 ∷ 7 ∷ 8 ∷ 9 ∷ []

abbrev copies : List Copy
copies =
    record { message_id = codes "m1"; account = codes "A"; mailbox_url = inbox; rowid = 1 }
    ∷ record { message_id = codes "m1"; account = codes "B"; mailbox_url = other_inbox; rowid = 2 }
    ∷ []

abbrev no_trash_here : Str → Bool
no_trash_here _ = false

abbrev same_print : ℕ → Option Str
same_print _ = some (codes "body")

cross_account_plan-IsSafe_example :
    IsSafe no_trash_here
      (codes "A" ∷ [])
      same_print
      copies
      (cross_account_plan no_trash_here (codes "A" ∷ []) same_print copies)
cross_account_plan-IsSafe_example =
    cross_account_plan-IsSafe no_trash_here (codes "A" ∷ []) same_print copies

one_loser :
    (cross_account_plan no_trash_here (codes "A" ∷ []) same_print copies).losers
    ≡ (other_inbox, codes "m1" ∷ []) ∷ []
unfolding cross_account_plan plan_sets plan_set collapse targets add_losers first_in group_onto push
    insert lookup list_beq unique select
one_loser = refl

abbrev no_int : Str → Option ℤ
no_int _ = none

abbrev argv : List Str
argv = codes "--execute" ∷ codes "--mailbox=x" ∷ []

abbrev parsed_options : Options
parsed_options = record {
  execute = true;
  mailbox = some (codes "x");
  cross_account = false;
  keep_account = none;
  verbose = false;
  limit = none;
}

argv_parses : parse no_int argv ≡ ok parsed_options
unfolding parse parse_args parse_arg check_keeper value_of partition starts_with list_beq
argv_parses = refl

parse_lem_example :
    (true ≡ contains argv (codes "--execute"))
    × HasLimit none
    × ((false && not (is_given none)) ≡ false)
parse_lem_example = parse_lem no_int argv parsed_options argv_parses

-- A store that is the list of the batches it was told to move.
abbrev Moves : Type 0
Moves = List (Str × List Str)

abbrev all_present : List Str → Dict Str Str
all_present [] = []
all_present (m ∷ ms) = (m, codes "present") ∷ all_present ms

abbrev mail : Mail Moves
mail = record {
  duplicate_summary = λ _. inbox ∷ [];
  duplicate_rows = λ _ _. rows;
  cross_account_rows = λ _. copies;
  fingerprint = λ _. same_print;
  trash_url = λ _ a. trash_at a;
  dedupe_batch = λ batch url w. (ok (length batch), (url, batch) ∷ w);
  trash_mail = λ batch url w. (ok (length batch), (url, batch) ∷ w);
  presence = λ _ batch _. ok (all_present batch);
}

abbrev account : Str → Option Str
account url = some url

abbrev SmallMoves : Moves → Type 0
SmallMoves w = All (λ (m : Str × List Str). IsChunk m.1) w

dedupe_mailboxes-keeps_example : SmallMoves (dedupe_mailboxes mail account parsed_options []).1
dedupe_mailboxes-keeps_example =
    dedupe_mailboxes-keeps mail SmallMoves
      (λ url seen w batch small agrees from first moved. (small, moved)) account parsed_options []
      tt

abbrev preview_options : Options
preview_options = record parsed_options { execute = false; keep_account = some (codes "A") }

abbrev cross_options : Options
cross_options = record parsed_options {
  mailbox = none;
  cross_account = true;
  keep_account = some (codes "A");
}

run_cross_account-keeps_example :
    SmallMoves (run_cross_account mail no_trash_here account cross_options []).1
run_cross_account-keeps_example =
    run_cross_account-keeps mail no_trash_here account SmallMoves cross_options []
      (λ url v batch small go moved. (small, moved)) tt

abbrev work : Work
work = ((other_inbox, codes "m1" ∷ []) ∷ [], (codes "m1", codes "A") ∷ [])

abbrev report : CrossReport
report = record { tally = record { removed = 1; failed = 0; refused = false }; lost = []; kept = 1 }

abbrev after : Moves
after = (other_inbox, codes "m1" ∷ []) ∷ []

run : execute mail copies work [] ≡ (ok (executed report), after)
unfolding execute trash_losers trash_batches check_keepers check_batches missing keeper_rows
    by_mailbox push insert lookup list_beq select sort_by insert_by text_le chunks chunks_in
run = refl

execute-Confirmed_example :
    All
      (λ (c : Copy).
        ((lookup c.message_id work.1 == some c.account) ≡ false)
        ⊎ Confirmed mail after c.mailbox_url c.message_id)
      copies
execute-Confirmed_example = execute-Confirmed mail copies work [] after report run refl
