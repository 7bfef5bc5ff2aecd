-- ===== src/Mail/Recover.antt =====
-- The data of macos_apps_mcp/adapters/mail_recover.py: targets, what an act answers, the records of
-- the log, and the checks that come before everything else.
pub mod Locate
pub mod Backup
pub mod Act
pub mod Run
pub mod Undo
pub mod Storage
use macos_apps_mcp.Base.{
  ℕ, Str, codes, Bool, true, false, not, Option, none, some, List, [], ◌∷◌, if◌then◌else◌, ◌==◌,
  nat_eq, list_eq, contains, length, ltb,
}
use macos_apps_mcp.Base.Dict.{Dict}
use macos_apps_mcp.Base.Result.{Result, ok, err}

abbrev pub max_targets : ℕ
max_targets = 25

-- `OPS`
abbrev pub ops : List Str
ops = codes "move" ∷ codes "trash" ∷ codes "dedupe" ∷ []

-- `PERMANENT_OPS`
abbrev pub permanent_ops : List Str
permanent_ops = []

-- How much of a message its backup can hold; `unknown` if nobody has looked.
pub data Fidelity : Type 0 where
  full partial absent unknown : Fidelity

-- Whether a target left its source mailbox; the third answer is `_UNKNOWN` in the source.
pub data LeftSource : Type 0 where
  left stayed unsure : LeftSource

-- What an act answers for one id: a status text, or an `Outcome`.
pub data Answer : Type 0 where
  plain : Str → Answer
  outcome : Str → LeftSource → Answer

-- `_plain_left_source`
unfoldable pub plain_left_source : Str → LeftSource
plain_left_source status =
    if status == codes "ok" then left else if status == codes "unknown" then unsure else stayed

-- What can be raised. `native_timeout` holds the receipt that the message names, if it names one.
pub data Failure : Type 0 where
  value_error type_error batch_too_large native_error ambiguous_target : Failure
  write_refused os_error other_error : Failure
  native_timeout : Option Str → Failure

-- The path of a backup: the receipt's directory, and the number that names the `.eml` file.
abbrev pub BackupPath : Type 0
BackupPath = Str × Option ℕ

pub record Target : Type 0 where
  pub id : Str
  pub folder : Str
  pub account : Option Str
  pub rowid : Option ℕ
  pub path : Option Str
  pub fidelity : Fidelity
  pub backup : Option BackupPath
  pub status : Str

-- `Target(id=..., folder=...)`
abbrev pub new_target : Str → Str → Target
new_target mid folder = record {
  id = mid;
  folder = folder;
  account = none;
  rowid = none;
  path = none;
  fidelity = unknown;
  backup = none;
  status = codes "planned";
}

-- The keys of `Target.as_dict`; a key that is left out is `none`.
pub record Row : Type 0 where
  pub id : Str
  pub folder : Str
  pub fidelity : Option Fidelity
  pub account : Option Str
  pub rowid : Option ℕ
  pub backup : Option BackupPath
  pub status : Str

abbrev pub known_fidelity : Fidelity → Option Fidelity
known_fidelity unknown = none
known_fidelity full = some full
known_fidelity partial = some partial
known_fidelity absent = some absent

-- `Target.as_dict`
unfoldable pub as_dict : Target → Row
as_dict t = record {
  id = t.id;
  folder = t.folder;
  fidelity = known_fidelity t.fidelity;
  account = t.account;
  rowid = t.rowid;
  backup = t.backup;
  status = t.status;
}

-- `check_batch`
unfoldable pub check_batch : {A : Type 0} → List A → Result Failure (List A)
check_batch [] = err value_error
check_batch (t ∷ ts) =
    if ltb max_targets (length (t ∷ ts)) then err batch_too_large else ok (t ∷ ts)

-- `_check_op`
unfoldable pub check_op : Str → Result Failure Str
check_op op = if not (contains ops op) then err value_error else ok op

-- The record that is written before acting.
pub record PlanRecord : Type 0 where
  pub op : Str
  pub receipt : Str
  pub destination : Option Str
  pub backup_dir : Option Str
  pub targets : List Row

-- The record that completes it. An old one has no `left_source`; `results` is empty if it is missing.
pub record DoneRecord : Type 0 where
  pub receipt : Str
  pub results : Dict Str Str
  pub left_source : Option (Dict Str LeftSource)

-- One record of the audit log: of this plane, or of anything else, which has no receipt.
pub data Entry : Type 0 where
  plan_entry : PlanRecord → Entry
  done_entry : DoneRecord → Entry
  other_entry : Entry
