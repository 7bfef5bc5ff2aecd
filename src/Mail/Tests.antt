-- ===== src/Mail/Tests.antt =====
-- Examples of the recovery plane: two messages that are moved, and moved back.
use macos_apps_mcp.Base.{
  ℕ, suc, ◌≡◌, refl, Str, codes, true, false, not, ◌&&◌, ◌⊎◌, none, some, List, [], ◌∷◌, map,
  nat_eq, list_eq, list_beq, take, some_of, select, every,
}
use macos_apps_mcp.Base.Decimal.{padded, digits_within}
use macos_apps_mcp.Base.Dict.{lookup, insert}
use macos_apps_mcp.Base.Dict.Group.{group_onto, push}
use macos_apps_mcp.Base.Result.{ok, err, ◌>>=◌}
use macos_apps_mcp.Base.Text.{is_space, strip, lstrip, starts_with}
use macos_apps_mcp.Base.Text.Strip.{Free}
use macos_apps_mcp.Audit.Log.{Log, append}
use macos_apps_mcp.Mail.Ids.{bare_id, stored_id}
use macos_apps_mcp.Mail.Outcomes.{move_answer, trash_answer, is_moved, is_deleted, is_gone}
use macos_apps_mcp.Mail.Outcomes.Left.{is_undone, move_answer-moved, trash_answer-deleted}
use macos_apps_mcp.Mail.Recover.{
  Target, new_target, as_dict, plain, Failure, native_error, PlanRecord, Entry, full, absent,
  check_op, plan_entry, plain_left_source,
}
use macos_apps_mcp.Mail.Recover.Locate.{
  Index, locate, locate_one, choose, first, rowid_paths_onto, payload_at,
}
use macos_apps_mcp.Mail.Recover.Backup.{
  Disk, KeptFile, back_up, back_up_one, enter, keep, is_directory_name,
}
use macos_apps_mcp.Mail.Recover.Backup.Kept.{BackedUp, Extends, back_up-Preserved}
use macos_apps_mcp.Mail.Recover.Act.{
  State, Env, Call, Present, prepare, preserve, located_for, check_lossy, write_plan, plan_record,
  receipt_id,
}
use macos_apps_mcp.Mail.Recover.Run.{Act, perform, recoverable}
use macos_apps_mcp.Mail.Recover.Run.First.{PlanLogged, recoverable-PlanLogged}
use macos_apps_mcp.Mail.Recover.Run.Dry.{shown_as, recoverable_dry}
use macos_apps_mcp.Mail.Recover.Undo.{undo_plan}
use macos_apps_mcp.Mail.Recover.Undo.Answers.{has_no_space-Free, moved}
use macos_apps_mcp.Mail.Recover.Undo.Replay.{heard, back, perform-undo_plan}

abbrev inbox : Str
inbox = codes "imap://A/INBOX"

abbrev archive : Str
archive = codes "imap://A/Archive"

abbrev messages : List Target
messages = new_target (codes "a@x") inbox ∷ new_target (codes "b@x") inbox ∷ []

-- One of the messages is on disk.
abbrev index : Index
index = record {
  locations = λ _. record { message_id = codes "<a@x>"; mailbox_url = inbox; rowid = 7 } ∷ [];
  store = some (record { name = codes "7.emlx"; path = codes "/7" } ∷ []);
  account_of = λ _. some (codes "A");
  number = λ _. some 7;
}

abbrev disk : Disk
disk = record { payload = λ _. some (1 ∷ 2 ∷ []); can_enter = λ _. true; can_write = λ _ _. true }

abbrev env : Env
env = record { index = index; disk = disk; stamp = codes "20260805"; bytes = λ _. 1 }

abbrev call : Call
call = record { op = codes "move"; destination = some archive; backup = true; allow_lossy = false }

abbrev empty_log : Log Entry
empty_log = record {
  backup = [];
  live = [];
  can_rotate = true;
  can_append = true;
  can_read_backup = true;
  can_read_live = true;
}

-- Mail counts the acts on it.
abbrev start : State ℕ
start = record { log = empty_log; minted = 0; files = []; world = 0 }

-- The first message moves, the other does not.
abbrev first_moves : Act ℕ
first_moves located w = (
  ok (some ((codes "a@x", plain (codes "ok")) ∷ (codes "b@x", plain (codes "not-in-source")) ∷ [])),
  suc w,
)

abbrev all_there : Present ℕ
all_there located w = (ok ((codes "a@x", codes "present") ∷ []), w)

recoverable-PlanLogged_example :
    ((recoverable env call first_moves false none messages start).1.world ≡ 0)
    ⊎ PlanLogged call messages (recoverable env call first_moves false none messages start).1.log
recoverable-PlanLogged_example = recoverable-PlanLogged env call first_moves none messages start

recoverable_dry_example :
    ((e : Failure) × (recoverable env call first_moves true (some all_there) messages start
        ≡ (err e, start)))
    ⊎ ((read : Present ℕ) × (some all_there ≡ some read)
        × (recoverable env call first_moves true (some all_there) messages start ≡ (
          (read messages start.world).0 >>= (λ found. ok (shown_as call messages found)),
          record start { world = (read messages start.world).1 },
        )))
recoverable_dry_example = recoverable_dry env call first_moves (some all_there) messages start

abbrev receipt : Str
receipt = codes "20260805-000-move"

abbrev located : List Target
located =
    record (new_target (codes "a@x") inbox) {
      rowid = some 7;
      path = some (codes "/7");
      fidelity = full;
      backup = some (receipt, some 7);
    }
    ∷ record (new_target (codes "b@x") inbox) { fidelity = absent }
    ∷ []

abbrev kept_files : List KeptFile
kept_files = record { receipt = receipt; rowid = some 7; bytes = 1 ∷ 2 ∷ [] } ∷ []

abbrev found_messages : List Target
found_messages = locate index messages

messages_backed_up : back_up disk receipt found_messages [] ≡ (ok located, kept_files)
unfolding back_up back_up_one enter keep is_directory_name payload_at locate locate_one choose first
    rowid_paths_onto list_beq bare_id stored_id strip lstrip is_space group_onto push insert lookup
    starts_with
messages_backed_up = refl

abbrev planned : PlanRecord
planned = record {
  op = codes "move";
  receipt = receipt;
  destination = some archive;
  backup_dir = some receipt;
  targets = map as_dict located;
}

abbrev ready : State ℕ
ready = record {
  log = record empty_log { live = plan_entry planned ∷ [] };
  minted = 1;
  files = kept_files;
  world = 0;
}

messages_prepared : prepare env call messages start ≡ (ok (planned, located), ready)
unfolding prepare check_lossy located_for preserve write_plan plan_record receipt_id append padded
    digits_within back_up back_up_one enter keep is_directory_name payload_at locate locate_one
    choose first rowid_paths_onto list_beq bare_id stored_id strip lstrip is_space group_onto push
    insert lookup select starts_with
messages_prepared = refl

stamp-Free : Free is_space env.stamp
unfolding is_space
stamp-Free = has_no_space-Free env.stamp refl

move_known : check_op call.op ≡ ok (codes "move")
unfolding check_op list_beq
move_known = refl

perform-undo_plan_example :
    undo_plan planned.receipt (perform env call first_moves messages start).1.log
    ≡ back planned (select (moved (heard (first_moves located ready.world).0)) located)
perform-undo_plan_example =
    perform-undo_plan env call first_moves messages start planned located ready (codes "move")
      stamp-Free move_known refl messages_prepared refl

-- Only the message that moved is moved back.
one_moves_back : select (moved (heard (first_moves located ready.world).0)) located ≡ take 1 located
unfolding select lookup list_beq plain_left_source
one_moves_back = refl

-- An act that raises.
abbrev breaks : Act ℕ
breaks _ w = (err native_error, suc w)

back_up-Preserved_example : BackedUp disk kept_files found_messages located × Extends [] kept_files
back_up-Preserved_example =
    back_up-Preserved disk receipt found_messages located [] kept_files messages_backed_up

abbrev outcomes : List Str
outcomes = codes "moved" ∷ codes "ERROR -1700" ∷ []

outcomes_moved : some_of is_moved outcomes ≡ true
unfolding list_beq
outcomes_moved = refl

move_answer-moved_example : is_undone (move_answer false outcomes) ≡ true
move_answer-moved_example = move_answer-moved false outcomes outcomes_moved

abbrev deletions : List Str
deletions = codes "gone" ∷ codes "deleted" ∷ []

deletions_deleted : some_of is_deleted deletions ≡ true
unfolding list_beq
deletions_deleted = refl

trash_answer-deleted_example :
    is_undone (trash_answer false deletions)
    ≡ not (every is_deleted deletions && (not false && not (every is_gone deletions)))
trash_answer-deleted_example = trash_answer-deleted false deletions deletions_deleted
