-- ===== src/Mail/Write.antt =====
-- `move_mail`, `trash_mail` and `dedupe_batch` of macos_apps_mcp/adapters/mail.py, on the
-- plane of macos_apps_mcp/adapters/mail_recover.py. Mail's scripts are parameters that may change the
-- world; the reads of Mail's index are parameters that may raise.
pub mod Routed
mod Tests
use macos_apps_mcp.Base.{
  ℕ, Str, codes, Bool, true, false, not, ◌&&◌, ◌||◌, Option, none, some, List, [], ◌∷◌, ◌++◌, map,
  if◌then◌else◌, ◌==◌, nat_eq, list_eq, contains, is_some,
}
use macos_apps_mcp.Base.Dict.{Dict, lookup}
use macos_apps_mcp.Base.Dict.Group.{or_empty}
use macos_apps_mcp.Base.Sort.{unique}
use macos_apps_mcp.Base.Result.{Result, ok, err, ◌>>=◌, raise_if, ◌>>◌}
use macos_apps_mcp.Base.Effect.{Effect, give, lift, ◌>>>◌}
use macos_apps_mcp.MailboxUrl.{path}
use macos_apps_mcp.Mail.Address.{Box, mailbox_args}
use macos_apps_mcp.Mail.Outcomes.{
  parse_statuses, split_ids, copies_onto, no_copies, counts_onto, answers_from, move_answer,
  trash_answer, dedupe_answer, not_in_source,
}
use macos_apps_mcp.Mail.Recover.{
  Target, new_target, Answer, plain, Failure, value_error, native_error, ambiguous_target,
  write_refused, PlanRecord, check_batch,
}
use macos_apps_mcp.Mail.Recover.Act.{State, Env, Call, Present, Reply}
use macos_apps_mcp.Mail.Recover.Run.{Act, recoverable, ids}
use macos_apps_mcp.Mail.Recover.Undo.{undo_plan}

-- The scripts: a bulk read of a mailbox, the three acts, and the presence read, with their raw answers.
pub record Scripts (W : Type 0) : Type 0 where
  pub bulk_read : Box → Effect W Failure (List (Str × Str))
  pub run_move : Box → Box → List (Str × Str) → Effect W Failure Str
  pub run_trash : Box → Box → List (Str × Str) → Effect W Failure Str
  pub run_dedupe : Box → Box → List Str → Effect W Failure Str
  pub run_present : Box → List Str → Effect W Failure Str

-- What `mail_index` and `str` say.
pub record Reads : Type 0 where
  pub is_label_mailbox : Str → Result Failure Bool
  pub account_has_labels : Option Str → Result Failure Bool
  pub account_of : Str → Option Str
  pub trash_url : Str → Result Failure (Option Str)
  pub lower : Str → Str
  pub unquote : Str → Str

abbrev pub firsts : List (Str × Str) → List Str
firsts [] = []
firsts ((a, _) ∷ xs) = a ∷ firsts xs

-- `pairs`
unfoldable pub pairs : Dict Str (List Str) → List Str → List (Str × Str)
pairs copies [] = []
pairs copies (mid ∷ mids) =
    map (λ nid. (mid, nid)) (or_empty (lookup mid copies)) ++ pairs copies mids

abbrev pub all_missing : List Str → Dict Str Answer
all_missing [] = []
all_missing (mid ∷ mids) = (mid, plain not_in_source) ∷ all_missing mids

abbrev pub dedupe_answers : Dict Str Str → Dict Str Answer
dedupe_answers [] = []
dedupe_answers ((mid, status) ∷ statuses) = (mid, dedupe_answer status) ∷ dedupe_answers statuses

module _ {W : Type 0} (scripts : Scripts W) where
  -- `_copies`
  unfoldable pub copies_of : Box → List Str → Effect W Failure (Dict Str (List Str))
  copies_of box mids = scripts.bulk_read box >>> λ rows. give (copies_onto (no_copies mids) rows)

  -- `_counts`
  unfoldable pub counts_of : Box → Effect W Failure (Dict Str ℕ)
  counts_of box = scripts.bulk_read box >>> λ rows. give (counts_onto [] (firsts rows))

  -- `act` of `move_mail` and of `trash_mail`: by internal id, with the counts before and after.
  unfoldable pub transfer_act :
      (Bool → List Str → Answer)
      → (Box → Box → List (Str × Str) → Effect W Failure Str)
      → Box
      → Box
      → Act W
  transfer_act answer run src dst located = copies_of src (ids located) >>> λ copies.
      counts_of dst >>> λ before. elim (pairs copies (ids located)) [
        | [] ↦ give (some (all_missing (ids located)))
        | p ∷ ps ↦ run src dst (p ∷ ps) >>> λ raw. counts_of dst >>> λ after.
            give
              (some (answers_from answer copies (parse_statuses raw) before after [] (ids located)))
      ]

  unfoldable pub dedupe_act : Box → Box → Act W
  dedupe_act src dst located = scripts.run_dedupe src dst (ids located) >>> λ raw.
      give (some (dedupe_answers (parse_statuses raw)))

  -- `_presence`
  unfoldable pub presence : Box → Present W
  presence src targets = scripts.run_present src (ids targets) >>> λ raw. give (parse_statuses raw)

module _ (reads : Reads) where
  abbrev pub box_of : Str → Result Failure Box
  box_of = mailbox_args reads.lower reads.unquote

  -- `_refuse_label_route`, with a destination or without one.
  unfoldable pub refuse_label_route : Str → Option Str → Result Failure (Unit {0})
  refuse_label_route source destination = reads.is_label_mailbox source >>= λ is_label.
      raise_if is_label write_refused >> elim destination [
        | none ↦ ok tt
        | some to ↦ reads.is_label_mailbox to >>= λ into_label.
            raise_if into_label write_refused
            >> (if is_some (reads.account_of to)
                then ok tt
                else reads.account_has_labels (reads.account_of source) >>= λ has.
                    raise_if has write_refused)
      ]

  abbrev pub is_unified : Box → Bool
  is_unified box = box.0 == []

  -- The checks of `move_mail`.
  unfoldable pub move_route : Str → Str → Result Failure (Box × Box)
  move_route from to = box_of from >>= λ src.
      raise_if (is_unified src) value_error
      >> (box_of to >>= λ dst.
          raise_if (src.0 == dst.0 && src.1 == dst.1) value_error
          >> (raise_if (is_unified dst && src.0 == codes "local") value_error
              >> (refuse_label_route from (some to) >> ok (src, dst))))

  -- The checks of `trash_mail` and of `dedupe_batch`: the account, its Trash, and both boxes.
  unfoldable pub trash_of : Str → Result Failure (Str × Str)
  trash_of mailbox = elim (reads.account_of mailbox) [
    | none ↦ err value_error
    | some account ↦ reads.trash_url account >>= λ found. elim found [
      | none ↦ err native_error
      | some trash ↦ ok (account, trash)
    ]
  ]

abbrev pub targets_in : Str → Option Str → List Str → List Target
targets_in folder account [] = []
targets_in folder account (mid ∷ mids) =
    record (new_target mid folder) { account = account } ∷ targets_in folder account mids

abbrev pub call_of : Str → Str → Bool → Call
call_of op destination backup = record {
  op = op;
  destination = some destination;
  backup = backup;
  allow_lossy = false;
}

-- A write that is given to the plane once its checks have passed.
unfoldable pub when_checked :
    {W : Type 0} {A : Type 0}
    → Result Failure A
    → (A → State W → Result Failure Reply × State W)
    → State W
    → Result Failure Reply × State W
when_checked (err e) run st = (err e, st)
when_checked (ok a) run st = run a st

module _ {W : Type 0} (env : Env) (scripts : Scripts W) (reads : Reads) where
  -- `move_mail`
  unfoldable pub move_mail : List Str → Str → Str → Bool → State W → Result Failure Reply × State W
  move_mail given from to dry_run =
      when_checked (check_batch (split_ids given) >>= λ mids. move_route reads from to) (λ route.
        recoverable env (call_of (codes "move") to true)
          (transfer_act scripts move_answer scripts.run_move route.0 route.1) dry_run
          (some (presence scripts route.0))
          (targets_in from (reads.account_of from) (split_ids given)))

  -- The checks of `trash_mail`: the account, its Trash, and both boxes.
  unfoldable pub trash_route : Str → Result Failure ((Str × Str) × (Box × Box))
  trash_route mailbox =
      refuse_label_route reads mailbox none
      >> (box_of reads mailbox >>= λ src. trash_of reads mailbox >>= λ found.
          box_of reads found.1 >>= λ dst.
          raise_if (src.0 == dst.0 && src.1 == dst.1) value_error >> ok (found, (src, dst)))

  -- `trash_mail`
  unfoldable pub trash_mail : List Str → Str → Bool → State W → Result Failure Reply × State W
  trash_mail given mailbox dry_run =
      when_checked (check_batch (split_ids given) >>= λ mids. trash_route mailbox) (λ route.
        recoverable env (call_of (codes "trash") route.0.1 true)
          (transfer_act scripts trash_answer scripts.run_trash route.1.0 route.1.1) dry_run
          (some (presence scripts route.1.0))
          (targets_in mailbox (some route.0.0) (split_ids given)))

  -- The checks of `dedupe_batch`.
  unfoldable pub dedupe_route : Str → Result Failure ((Str × Str) × (Box × Box))
  dedupe_route mailbox = box_of reads mailbox >>= λ src.
      trash_of reads mailbox >>= λ found. box_of reads found.1 >>= λ dst. ok (found, (src, dst))

  -- `dedupe_batch`
  unfoldable pub dedupe_batch : List Str → Str → Bool → State W → Result Failure Reply × State W
  dedupe_batch given mailbox dry_run =
      when_checked (check_batch (split_ids given) >>= λ mids. dedupe_route mailbox) (λ route.
        recoverable env (call_of (codes "dedupe") route.0.1 false)
          (dedupe_act scripts route.1.0 route.1.1) dry_run (some (presence scripts route.1.0))
          (targets_in mailbox (some route.0.0) (split_ids given)))
