-- ===== src/Mail/Recover/Run.antt =====
-- `recoverable` of macos_apps_mcp/adapters/mail_recover.py: the act, the record of its outcome, and
-- the report.
pub mod First
pub mod Dry
use macos_apps_mcp.Base.{
  ℕ, ◌-◌, Str, codes, Bool, true, false, not, Option, none, some, List, [], ◌∷◌, map, if◌then◌else◌,
  ◌==◌, nat_eq, list_eq, length, select, is_some,
}
use macos_apps_mcp.Base.Dict.{Dict, lookup, insert}
use macos_apps_mcp.Base.Result.{Result, ok, err, ◌>>=◌}
use macos_apps_mcp.Audit.Log.{append}
use macos_apps_mcp.Mail.Recover.{
  Target, as_dict, check_op, check_batch, LeftSource, Answer, plain, outcome, plain_left_source,
  Failure, value_error, type_error, batch_too_large, native_error, ambiguous_target, write_refused,
  os_error, other_error, native_timeout, PlanRecord, DoneRecord, done_entry,
}
use macos_apps_mcp.Mail.Recover.Act.{
  State, Env, Call, Report, Reply, previewed, acted, Present, preview, prepare, lossy,
}

-- An answer with both of its facts.
pub record Outcome : Type 0 where
  pub status : Str
  pub left_source : LeftSource

abbrev pub settle : Answer → Outcome
settle (plain s) = record { status = s; left_source = plain_left_source s }
settle (outcome s moved) = record { status = s; left_source = moved }

-- `statuses.get(id, _UNKNOWN)`
abbrev pub answer_for : Dict Str Answer → Str → Answer
answer_for statuses mid = elim (lookup mid statuses) [ none ↦ plain (codes "unknown") | some a ↦ a ]

module _ (statuses : Dict Str Answer) where
  -- `answers`, each one settled.
  unfoldable pub answers_onto : Dict Str Outcome → List Target → Dict Str Outcome
  answers_onto out [] = out
  answers_onto out (t ∷ ts) = answers_onto (insert t.id (settle (answer_for statuses t.id)) out) ts

-- The target with the status that it ended with: each target has an entry.
abbrev pub ended : Dict Str Outcome → Target → Target
ended answers t = elim (lookup t.id answers) [ none ↦ t | some a ↦ record t { status = a.status } ]

unfoldable pub left_sources : Dict Str Outcome → Dict Str LeftSource
left_sources [] = []
left_sources ((mid, a) ∷ answers) = (mid, a.left_source) ∷ left_sources answers

-- `{t.id: t.status for t in done}`
unfoldable pub results_onto : Dict Str Str → List Target → Dict Str Str
results_onto out [] = out
results_onto out (t ∷ ts) = results_onto (insert t.id t.status out) ts

unfoldable pub done_record : Str → Dict Str Outcome → List Target → DoneRecord
done_record rid answers done = record {
  receipt = rid;
  results = results_onto [] done;
  left_source = some (left_sources answers);
}

abbrev pub is_ok : Target → Bool
is_ok t = t.status == codes "ok"

abbrev pub ids : List Target → List Str
ids [] = []
ids (t ∷ ts) = t.id ∷ ids ts

unfoldable pub report : Call → PlanRecord → List Target → Report
report c p done =
    let good = length (select is_ok done) in
    record {
      op = c.op;
      receipt = p.receipt;
      count = length done;
      succeeded = good;
      targets = map as_dict done;
      destination = c.destination;
      backup_dir = if c.backup then p.backup_dir else none;
      partial_backups = ids (lossy done);
      not_affected = if good == length done then none else some (length done - good);
      undo = if is_some c.destination then some p.receipt else none;
    }

-- What an act gives: no answers at all stands for an empty dictionary.
abbrev pub Act : Type 0 → Type 0
Act W = List Target → W → Result Failure (Option (Dict Str Answer)) × W

abbrev pub given : Option (Dict Str Answer) → Dict Str Answer
given none = []
given (some statuses) = statuses

unfoldable pub is_timeout : Failure → Bool
is_timeout (native_timeout rid) = true
is_timeout value_error = false
is_timeout type_error = false
is_timeout batch_too_large = false
is_timeout native_error = false
is_timeout ambiguous_target = false
is_timeout write_refused = false
is_timeout os_error = false
is_timeout other_error = false

module _ {W : Type 0} (env : Env) (c : Call) where
  -- The record of the outcome; whether it could be written is not asked.
  unfoldable pub write_done :
      PlanRecord → Dict Str Answer → List Target → State W → List Target × State W
  write_done p statuses located st =
      let answers = answers_onto statuses [] located in
      let done = map (ended answers) located in
      (
        done,
        record st {
          log = (append env.bytes st.log (done_entry (done_record p.receipt answers done))).0;
        },
      )

  -- `recoverable` after the act: only a timeout is caught, and it is raised again with the receipt.
  unfoldable pub finish :
      PlanRecord
      → List Target
      → Result Failure (Option (Dict Str Answer))
      → State W
      → Result Failure Report × State W
  finish p located (ok statuses) st =
      let (done, st') = write_done p (given statuses) located st in (ok (report c p done), st')
  finish p located (err e) st =
      if is_timeout e
      then (err (native_timeout (some p.receipt)), (write_done p [] located st).1)
      else (err e, st)

  unfoldable pub carry_on :
      Act W → Result Failure (PlanRecord × List Target) × State W → Result Failure Report × State W
  carry_on act (err e, st) = (err e, st)
  carry_on act (ok (p, located), st) =
      let (answered, w) = act located st.world in
      finish p located answered (record st { world = w })

  abbrev pub perform : Act W → List Target → State W → Result Failure Report × State W
  perform act items st = carry_on act (prepare env c items st)

  unfoldable pub dry_run_of :
      List Target → Option (Present W) → State W → Result Failure Reply × State W
  dry_run_of items none st = (err type_error, st)
  dry_run_of items (some present) st =
      let (shown, w) = preview c.op items c.destination (some present) st.world in
      (shown >>= (λ p. ok (previewed p)), record st { world = w })

  -- `recoverable`
  unfoldable pub recoverable :
      Act W → Bool → Option (Present W) → List Target → State W → Result Failure Reply × State W
  recoverable act dry_run present targets st = elim (check_op c.op >>= λ _. check_batch targets) [
    | err e ↦ (err e, st)
    | ok items ↦
        let (done, st') = perform act items st in
        if dry_run then dry_run_of items present st else (done >>= (λ r. ok (acted r)), st')
  ]
