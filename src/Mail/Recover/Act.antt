-- ===== src/Mail/Recover/Act.antt =====
-- `preview` and `recoverable` of macos_apps_mcp/adapters/mail_recover.py: first the backup, then the
-- log, then the act. The act and the presence read are parameters that may change the world.
pub mod First
use macos_apps_mcp.Base.{
  ℕ, suc, ◌+◌, Str, codes, Bool, true, false, not, ◌&&◌, ◌||◌, Option, none, some, List, [], ◌∷◌,
  ◌++◌, map, if◌then◌else◌, ◌==◌, nat_eq, list_eq, contains, length, select,
}
use macos_apps_mcp.Base.Decimal.{padded}
use macos_apps_mcp.Base.Dict.{Dict, lookup, insert}
use macos_apps_mcp.Base.Result.{Result, ok, err, ◌>>=◌}
use macos_apps_mcp.Audit.Log.{Log, append}
use macos_apps_mcp.Mail.Recover.{
  Target, Row, as_dict, check_op, check_batch, permanent_ops, Fidelity, full, partial, absent,
  unknown, LeftSource, Answer, plain, outcome, plain_left_source, Failure, type_error, native_error,
  write_refused, native_timeout, PlanRecord, DoneRecord, Entry, plan_entry, done_entry,
}
use macos_apps_mcp.Mail.Recover.Locate.{Index, locate}
use macos_apps_mcp.Mail.Recover.Backup.{Disk, KeptFile, back_up, enter}

-- The wire shape of a dry run.
pub record Preview : Type 0 where
  pub op : Str
  pub count : ℕ
  pub would_affect : List Row
  pub destination : Option Str

-- The wire shape of an act. `not_affected` is the number that the note names, if there is a note.
pub record Report : Type 0 where
  pub op : Str
  pub receipt : Str
  pub count : ℕ
  pub succeeded : ℕ
  pub targets : List Row
  pub destination : Option Str
  pub backup_dir : Option Str
  pub partial_backups : List Str
  pub not_affected : Option ℕ
  pub undo : Option Str

pub data Reply : Type 0 where
  previewed : Preview → Reply
  acted : Report → Reply

-- `is_preview`
unfoldable pub is_preview : Reply → Bool
is_preview (previewed p) = true
is_preview (acted r) = false

-- The log, the counter of receipts, the backups, and Mail.
pub record State (W : Type 0) : Type 0 where
  pub log : Log Entry
  pub minted : ℕ
  pub files : List KeptFile
  pub world : W

-- What one call reads: the index and the store, the disk, the clock, and the length of a record in the log.
pub record Env : Type 0 where
  pub index : Index
  pub disk : Disk
  pub stamp : Str
  pub bytes : Entry → ℕ

-- The arguments that are neither the targets nor a callback.
pub record Call : Type 0 where
  pub op : Str
  pub destination : Option Str
  pub backup : Bool
  pub allow_lossy : Bool

-- `_receipt_id`
unfoldable pub receipt_id : Str → ℕ → Str → Str
receipt_id stamp n op = stamp ++ (b'-' ∷ (padded 3 n ++ (b'-' ∷ op)))

abbrev pub text_at : Dict Str Str → Str → Str
text_at answered mid = elim (lookup mid answered) [ none ↦ codes "missing" | some s ↦ s ]

abbrev pub read_status : Dict Str Str → Target → Target
read_status answered t = record t { status = text_at answered t.id }

-- A presence read, and the status that it gives each target.
abbrev pub Present : Type 0 → Type 0
Present W = List Target → W → Result Failure (Dict Str Str) × W

module _ {W : Type 0} where
  unfoldable pub stamped : Option (Present W) → List Target → W → Result Failure (List Target) × W
  stamped none items w = (ok items, w)
  stamped (some present) items w =
      let (answered, w') = present items w in
      (answered >>= (λ found. ok (map (read_status found) items)), w')

  -- `preview`
  unfoldable pub preview :
      Str → List Target → Option Str → Option (Present W) → W → Result Failure Preview × W
  preview op targets destination present w = elim (check_op op >>= λ _. check_batch targets) [
    | err e ↦ (err e, w)
    | ok items ↦
        let (read, w') = stamped present items w in
        (
          read >>= (λ ts. ok record {
            op = op;
            count = length ts;
            would_affect = map as_dict ts;
            destination = destination;
          }),
          w',
        )
  ]

abbrev pub is_full_copy : Fidelity → Bool
is_full_copy full = true
is_full_copy partial = false
is_full_copy absent = false
is_full_copy unknown = false

abbrev pub lossy : List Target → List Target
lossy = select (λ t. not (is_full_copy t.fidelity))

abbrev pub is_empty {ℓ} : {A : Type ℓ} → List A → Bool
is_empty [] = true
is_empty (x ∷ xs) = false

-- The refusal of a permanent delete without full copies.
unfoldable pub check_lossy : Call → List Target → Result Failure (List Target)
check_lossy c located =
    if contains permanent_ops c.op && (not c.allow_lossy && not (is_empty (lossy located)))
    then err native_error
    else ok located

unfoldable pub located_for : Env → Call → List Target → List Target
located_for env c items =
    if c.backup || contains permanent_ops c.op then locate env.index items else items

-- The backups and their directory, if the call wants backups.
unfoldable pub preserve :
    Env
    → Call
    → Str
    → List Target
    → List KeptFile
    → Result Failure (List Target × Option Str) × List KeptFile
preserve env c rid located files =
    if c.backup
    then (let (kept, files') = back_up env.disk rid located files in
        (kept >>= (λ ts. enter env.disk rid >>= λ dir. ok (ts, some dir)), files'))
    else (ok (located, none), files)

unfoldable pub plan_record : Call → Str → List Target → Option Str → PlanRecord
plan_record c rid located dir = record {
  op = c.op;
  receipt = rid;
  destination = c.destination;
  backup_dir = dir;
  targets = map as_dict located;
}

module _ {W : Type 0} (env : Env) (c : Call) where
  -- The record of the plan goes to the log, or the call is refused.
  unfoldable pub write_plan :
      Str → List Target → Option Str → State W → Result Failure (PlanRecord × List Target) × State W
  write_plan rid located dir st =
      let p = plan_record c rid located dir in
      let (log', written) = append env.bytes st.log (plan_entry p) in
      (if written then ok (p, located) else err write_refused, record st { log = log' })

  -- `recoverable` up to and with the record of the plan.
  unfoldable pub prepare :
      List Target → State W → Result Failure (PlanRecord × List Target) × State W
  prepare items st = elim (check_lossy c (located_for env c items)) [
    | err e ↦ (err e, st)
    | ok located ↦
        let rid = receipt_id env.stamp st.minted c.op in
        let (kept, files') = preserve env c rid located st.files in
        let st' = record st { minted = suc st.minted; files = files' } in
        elim kept [ err e ↦ (err e, st') | ok (ts, dir) ↦ write_plan rid ts dir st' ]
  ]
