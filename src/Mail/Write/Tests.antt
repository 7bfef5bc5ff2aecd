-- ===== src/Mail/Write/Tests.antt =====
-- Examples of a move between two mailboxes, and of its undo.
use macos_apps_mcp.Base.{ℕ, suc, ◌≡◌, Str, codes, true, false, ◌⊎◌, none, some, List, [], ◌∷◌}
use macos_apps_mcp.Base.Result.{ok}
use macos_apps_mcp.Mail.Recover.Act.{State, Env}
use macos_apps_mcp.Mail.Write.{Scripts, Reads, move_mail}
use macos_apps_mcp.Mail.Undo.{undo}
use macos_apps_mcp.Mail.Undo.Logged.{Replayed, undo-Replayed}

abbrev from : Str
from = codes "imap://A/INBOX"

abbrev to : Str
to = codes "imap://A/Archive"

-- Mail counts the scripts that change it.
abbrev scripts : Scripts ℕ
scripts = record {
  bulk_read = λ box w. (ok ((codes "a@x", codes "1") ∷ []), w);
  run_move = λ src dst pairs w. (ok (codes "1\u{1f}moved\u{1e}"), suc w);
  run_trash = λ src dst pairs w. (ok (codes "1\u{1f}gone\u{1e}"), suc w);
  run_dedupe = λ src dst mids w. (ok (codes "a@x\u{1f}ok 1\u{1e}"), suc w);
  run_present = λ src mids w. (ok (codes "a@x\u{1f}present\u{1e}"), w);
}

abbrev reads : Reads
reads = record {
  is_label_mailbox = λ _. ok false;
  account_has_labels = λ _. ok false;
  account_of = λ _. some (codes "A");
  trash_url = λ _. ok none;
  lower = λ s. s;
  unquote = λ s. s;
}

abbrev env : Env
env = record {
  index = record {
    locations = λ _. [];
    store = none;
    account_of = λ _. some (codes "A");
    number = λ _. none;
  };
  disk = record { payload = λ _. none; can_enter = λ _. true; can_write = λ _ _. true };
  stamp = codes "20260805";
  bytes = λ _. 1;
}

abbrev start : State ℕ
start = record {
  log = record {
    backup = [];
    live = [];
    can_rotate = true;
    can_append = true;
    can_read_backup = true;
    can_read_live = true;
  };
  minted = 0;
  files = [];
  world = 0;
}

abbrev given : List Str
given = codes "a@x" ∷ []

abbrev after_move : State ℕ
after_move = (move_mail env scripts reads given from to false start).1

undo-Replayed_example :
    ((undo env scripts reads (codes "20260805-000-move") false after_move).1.world
      ≡ after_move.world)
    ⊎ Replayed reads
        (codes "20260805-000-move")
        after_move
        (undo env scripts reads (codes "20260805-000-move") false after_move).1
undo-Replayed_example = undo-Replayed env scripts reads (codes "20260805-000-move") after_move
