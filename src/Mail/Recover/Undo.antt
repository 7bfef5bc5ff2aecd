-- ===== src/Mail/Recover/Undo.antt =====
-- `find_receipt`, `_left_sources` and `undo_plan` of macos_apps_mcp/adapters/mail_recover.py.
pub mod Answers
pub mod Found
pub mod Replay
use macos_apps_mcp.Base.{
  Str, codes, Bool, true, false, Option, none, some, List, [], ◌∷◌, if◌then◌else◌, ◌==◌, ◌||◌,
  nat_eq, list_eq,
}
use macos_apps_mcp.Base.Dict.{Dict, lookup}
use macos_apps_mcp.Base.Text.{strip}
use macos_apps_mcp.Base.Result.{Result, ok, err, ◌>>=◌}
use macos_apps_mcp.Audit.Log.{Log, readable}
use macos_apps_mcp.Mail.Recover.{
  Target, Row, Fidelity, unknown, LeftSource, left, stayed, unsure, Failure, native_error,
  PlanRecord, DoneRecord, Entry, plan_entry, done_entry, other_entry,
}
use mathlib.Core.List.{reverse}

abbrev pub is_plan : Str → Entry → Option PlanRecord
is_plan rid (plan_entry p) = if p.receipt == rid then some p else none
is_plan rid (done_entry d) = none
is_plan rid other_entry = none

abbrev pub is_done : Str → Entry → Option DoneRecord
is_done rid (plan_entry p) = none
is_done rid (done_entry d) = if d.receipt == rid then some d else none
is_done rid other_entry = none

-- The first entry of a list that a test takes.
unfoldable pub first_of {ℓ κ} : {A : Type ℓ} {B : Type κ} → (A → Option B) → List A → Option B
first_of f [] = none
first_of f (x ∷ xs) = let rest = first_of f xs in elim (f x) [ none ↦ rest | some y ↦ some y ]

-- `results` of a done record with any.
abbrev pub results_of : Str → Entry → Option (Dict Str Str)
results_of rid e = elim (is_done rid e) [
  | none ↦ none
  | some d ↦ elim d.results [ [] ↦ none | r ∷ rs ↦ some (r ∷ rs) ]
]

-- The loop of `find_receipt`, over the log from the newest entry: the first plan, and the first
-- outcomes that are not empty.
unfoldable pub find_in : Str → List Entry → Result Failure (PlanRecord × Dict Str Str)
find_in rid newest = elim (first_of (is_plan rid) newest) [
  | none ↦ err native_error
  | some p ↦ ok (p, elim (first_of (results_of rid) newest) [ none ↦ [] | some r ↦ r ])
]

-- `find_receipt`
unfoldable pub find_receipt : Str → Log Entry → Result Failure (PlanRecord × Dict Str Str)
find_receipt receipt_id log = find_in (strip receipt_id) (reverse (readable log))

-- The loop of `_left_sources`.
unfoldable pub left_in : Str → List Entry → Option (Dict Str LeftSource)
left_in rid newest = elim (first_of (is_done rid) newest) [ none ↦ none | some d ↦ d.left_source ]

-- `_left_sources`
unfoldable pub left_sources_at : Str → Log Entry → Option (Dict Str LeftSource)
left_sources_at receipt_id log = left_in (strip receipt_id) (reverse (readable log))

abbrev pub may_have_left : LeftSource → Bool
may_have_left left = true
may_have_left unsure = true
may_have_left stayed = false

-- The test of the comprehension of `undo_plan`.
unfoldable pub is_replayed : Option (Dict Str LeftSource) → Dict Str Str → Str → Bool
is_replayed (some sources) outcomes mid = elim (lookup mid sources) [
  | none ↦ true
  | some l ↦ may_have_left l
]
is_replayed none outcomes mid = elim (lookup mid outcomes) [
  | none ↦ true
  | some s ↦ s == codes "ok" || s == codes "unknown"
]

abbrev pub fidelity_or_unknown : Option Fidelity → Fidelity
fidelity_or_unknown none = unknown
fidelity_or_unknown (some f) = f

unfoldable pub target_of : Row → Target
target_of r = record {
  id = r.id;
  folder = r.folder;
  account = r.account;
  rowid = r.rowid;
  path = none;
  fidelity = fidelity_or_unknown r.fidelity;
  backup = r.backup;
  status = codes "planned";
}

unfoldable pub replayed : (Str → Bool) → List Row → List Target
replayed p [] = []
replayed p (r ∷ rows) = let rest = replayed p rows in if p r.id then target_of r ∷ rest else rest

abbrev pub has_destination : PlanRecord → Bool
has_destination p = elim p.destination [ none ↦ false | some [] ↦ false | some (c ∷ s) ↦ true ]

abbrev pub some_targets : PlanRecord → List Target → Result Failure (PlanRecord × List Target)
some_targets p [] = err native_error
some_targets p (t ∷ ts) = ok (p, t ∷ ts)

-- `undo_plan`
unfoldable pub undo_plan : Str → Log Entry → Result Failure (PlanRecord × List Target)
undo_plan receipt_id log = find_receipt receipt_id log >>= λ found.
    if has_destination found.0
    then some_targets found.0
        (replayed (is_replayed (left_sources_at receipt_id log) found.1) found.0.targets)
    else err native_error
