-- ===== src/Mail/Undo.antt =====
-- `undo` of macos_apps_mcp/adapters/mail.py: a receipt is replayed as a move back.
pub mod Logged
use macos_apps_mcp.Base.{
  Str, codes, Bool, true, false, not, Option, none, some, List, [], ◌∷◌, if◌then◌else◌, ◌==◌,
  nat_eq, list_eq, contains,
}
use macos_apps_mcp.Base.Sort.{unique}
use macos_apps_mcp.Base.Result.{Result, ok, err, ◌>>=◌, raise_if, ◌>>◌}
use macos_apps_mcp.Audit.Log.{Log}
use macos_apps_mcp.MailboxUrl.{path}
use macos_apps_mcp.Mail.Recover.{
  Target, Failure, value_error, type_error, batch_too_large, native_error, ambiguous_target,
  write_refused, os_error, other_error, native_timeout, PlanRecord, Entry,
}
use macos_apps_mcp.Mail.Recover.Act.{State, Env, Reply}
use macos_apps_mcp.Mail.Recover.Run.{ids}
use macos_apps_mcp.Mail.Recover.Undo.{undo_plan}
use macos_apps_mcp.Mail.Write.{Scripts, Reads, when_checked, move_mail}

abbrev pub folders : List Target → List Str
folders [] = []
folders (t ∷ ts) = t.folder ∷ folders ts

abbrev pub only_folder : List Str → Result Failure Str
only_folder [] = err native_error
only_folder (f ∷ []) = ok f
only_folder (f ∷ g ∷ fs) = err native_error

-- The one source mailbox of a receipt.
unfoldable pub the_folder : List Target → Result Failure Str
the_folder ts = only_folder (unique (folders ts))

abbrev pub destination_of : PlanRecord → Str
destination_of p = elim p.destination [ none ↦ [] | some d ↦ d ]

abbrev pub refuse_ambiguous : Result Failure (Option Str) → Result Failure (Option Str)
refuse_ambiguous (ok found) = ok found
refuse_ambiguous (err ambiguous_target) = err write_refused
refuse_ambiguous (err native_error) = err native_error
refuse_ambiguous (err value_error) = err value_error
refuse_ambiguous (err type_error) = err type_error
refuse_ambiguous (err batch_too_large) = err batch_too_large
refuse_ambiguous (err write_refused) = err write_refused
refuse_ambiguous (err os_error) = err os_error
refuse_ambiguous (err other_error) = err other_error
refuse_ambiguous (err (native_timeout rid)) = err (native_timeout rid)

module _ (reads : Reads) where
  abbrev pub is_there : Str → Option Str → Bool
  is_there dest none = false
  is_there dest (some current) = path reads.unquote current == path reads.unquote dest

  -- A receipt of `trash` or `dedupe` is for the Trash that its account has now.
  unfoldable pub check_current_trash : PlanRecord → Str → Str → Result Failure (Unit {0})
  check_current_trash p dest account =
      if contains (codes "trash" ∷ codes "dedupe" ∷ []) p.op
      then (refuse_ambiguous (reads.trash_url account) >>= λ current.
          raise_if (not (is_there dest current)) write_refused)
      else ok tt

  -- The checks of `undo`: the mailbox that the batch is in, and the one that it came from.
  unfoldable pub undo_route : PlanRecord → List Target → Result Failure (Str × Str)
  undo_route p ts = the_folder ts >>= λ source. elim (reads.account_of (destination_of p)) [
    | none ↦ err write_refused
    | some account ↦ reads.is_label_mailbox (destination_of p) >>= λ is_label.
        raise_if is_label write_refused
        >> (check_current_trash p (destination_of p) account >> ok (destination_of p, source))
  ]

  -- The targets of a receipt, and the two mailboxes.
  unfoldable pub way_back : Str → Log Entry → Result Failure (List Target × (Str × Str))
  way_back receipt_id log = undo_plan receipt_id log >>= λ found.
      undo_route found.0 found.1 >>= λ route. ok (found.1, route)

-- `undo`
unfoldable pub undo :
    {W : Type 0} → Env → Scripts W → Reads → Str → Bool → State W → Result Failure Reply × State W
undo env scripts reads receipt_id dry_run st =
    when_checked (way_back reads receipt_id st.log)
      (λ back. move_mail env scripts reads (ids back.0) back.1.0 back.1.1 dry_run) st
