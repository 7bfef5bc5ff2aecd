-- ===== src/Mail/Recover/Undo/Found.antt =====
-- What `undo_plan` reads from a log that ends with a plan, or with a plan and its outcome.
use macos_apps_mcp.Base.{
  codes, ◌≡◌, refl, ◌∙◌, ap, Str, Bool, true, false, Option, none, some, List, [], ◌∷◌, ◌++◌, map,
  arith, if◌then◌else◌, Bool-cases, inl, inr, list_eq, nat_eq, beq_refl, All, select, All-reverse,
}
use macos_apps_mcp.Base.Dict.{Dict, lookup}
use macos_apps_mcp.Base.Text.{strip}
use macos_apps_mcp.Base.Result.{Result, ok, err}
use macos_apps_mcp.Audit.Log.{Log, is_readable, readable}
use macos_apps_mcp.Audit.Log.Appended.{readable_all}
use macos_apps_mcp.Mail.Recover.{
  Target, Fidelity, full, partial, absent, unknown, as_dict, known_fidelity, LeftSource, Failure,
  native_error, PlanRecord, DoneRecord, Entry, plan_entry, done_entry,
}
use macos_apps_mcp.Mail.Recover.Undo.{
  is_plan, is_done, first_of, results_of, find_in, find_receipt, left_in, left_sources_at,
  is_replayed, replayed, has_destination, some_targets, undo_plan, target_of, fidelity_or_unknown,
}
use mathlib.Core.List.{reverse, reverse-append}

-- A target as undo hands it on: the path and the status are not in the record.
abbrev pub undone : Target → Target
undone t = record t { path = none; status = codes "planned" }

pub target_of-as_dict : (t : Target) → target_of (as_dict t) ≡ undone t
unfolding target_of as_dict
target_of-as_dict t =
    ap (λ f. record t { path = none; fidelity = f; status = codes "planned" }) (known t.fidelity)
  where
    known : (f : Fidelity) → fidelity_or_unknown (known_fidelity f) ≡ f
    known full = refl
    known partial = refl
    known absent = refl
    known unknown = refl

pub replayed-as_dict :
    (p : Str → Bool) (q : Target → Bool) (ts : List Target)
    → All (λ t. p t.id ≡ q t) ts
    → replayed p (map as_dict ts) ≡ map undone (select q ts)
unfolding replayed select as_dict target_of
replayed-as_dict p q [] h = refl
replayed-as_dict p q (t ∷ ts) h = elim (Bool-cases (q t)) [
  | inl taken ↦
      let same : p t.id ≡ true = h.0 ∙ taken in
      rw (same, taken, target_of-as_dict t, replayed-as_dict p q ts h.1)
  | inr left_out ↦
      let same : p t.id ≡ false = h.0 ∙ left_out in rw (same, left_out, replayed-as_dict p q ts h.1)
]

-- What a found plan gives.
abbrev pub replay : PlanRecord → (Str → Bool) → Result Failure (PlanRecord × List Target)
replay p left_it =
    if has_destination p then some_targets p (replayed left_it p.targets) else err native_error

module _ (rid : Str) where
  no_done :
      (entries : List Entry)
      → All (λ x. is_done rid x ≡ none) entries
      → first_of (is_done rid) entries ≡ none
  unfolding first_of
  no_done [] a = refl
  no_done (x ∷ entries) a = ground (arith, a.0, no_done entries a.1)

  no_results :
      (entries : List Entry)
      → All (λ x. is_done rid x ≡ none) entries
      → first_of (results_of rid) entries ≡ none
  unfolding first_of
  no_results [] a = refl
  no_results (x ∷ entries) a = ground (arith, a.0, no_results entries a.1)

module _ (rid : Str) (p : PlanRecord) (older : List Entry) (log : Log Entry) where
  find_in_plan :
      (newer : List Entry)
      → first_of (is_plan rid) newer ≡ some p
      → find_in rid newer
        ≡ ok (p, elim (first_of (results_of rid) newer) [ none ↦ [] | some r ↦ r ])
  unfolding find_in
  find_in_plan newer found = rw (found, find_in)

  -- `undo_plan`, once the log is read and the receipt is found in it.
  undo_plan_found :
      (newer : List Entry) (sources : Option (Dict Str LeftSource)) (outcomes : Dict Str Str)
      → strip rid ≡ rid
      → reverse (readable log) ≡ newer
      → find_in rid newer ≡ ok (p, outcomes)
      → left_in rid newer ≡ sources
      → undo_plan rid log ≡ replay p (is_replayed sources outcomes)
  unfolding undo_plan find_receipt left_sources_at
  undo_plan_found newer sources outcomes s n found from =
      let there : find_receipt rid log ≡ ok (p, outcomes) =
        ap (λ r. find_in r (reverse (readable log))) s ∙ ap (find_in rid) n ∙ found in
      let moved : left_sources_at rid log ≡ sources =
        ap (λ r. left_in r (reverse (readable log))) s ∙ ap (left_in rid) n ∙ from in
      rw (there, moved)

  pub undo_plan_done :
      (d : DoneRecord) (sources : Dict Str LeftSource)
      → strip rid ≡ rid
      → p.receipt ≡ rid
      → d.receipt ≡ rid
      → d.left_source ≡ some sources
      → is_readable log ≡ true
      → log.backup ++ log.live ≡ older ++ plan_entry p ∷ done_entry d ∷ []
      → undo_plan rid log ≡ replay p (is_replayed (some sources) [])
  unfolding first_of is_replayed left_in
  undo_plan_done d sources s e f g k h =
      let newer = done_entry d ∷ plan_entry p ∷ reverse older in
      let n : reverse (readable log) ≡ newer =
        ap reverse (readable_all log k ∙ h)
        ∙ reverse-append older (plan_entry p ∷ done_entry d ∷ []) in
      let plan_there : first_of (is_plan rid) newer ≡ some p = ground (arith, e, beq_refl rid) in
      let done_there : first_of (is_done rid) newer ≡ some d = ground (arith, f, beq_refl rid) in
      let from : left_in rid newer ≡ some sources = rw (done_there, left_in) g in
      undo_plan_found newer (some sources) _ s n (find_in_plan newer plan_there) from

  pub undo_plan_crashed :
      strip rid ≡ rid
      → p.receipt ≡ rid
      → is_readable log ≡ true
      → log.backup ++ log.live ≡ older ++ plan_entry p ∷ []
      → All (λ x. is_done rid x ≡ none) older
      → undo_plan rid log ≡ replay p (λ _. true)
  unfolding first_of is_replayed left_in lookup
  undo_plan_crashed s e k h fresh =
      let newer = plan_entry p ∷ reverse older in
      let n : reverse (readable log) ≡ newer =
        ap reverse (readable_all log k ∙ h) ∙ reverse-append older (plan_entry p ∷ []) in
      let plan_there : first_of (is_plan rid) newer ≡ some p = ground (arith, e, beq_refl rid) in
      let unfinished : All (λ x. is_done rid x ≡ none) newer =
        (refl, All-reverse (λ x. is_done rid x ≡ none) older fresh) in
      let from : left_in rid newer ≡ none = rw (no_done rid newer unfinished, left_in) refl in
      let found : find_in rid newer ≡ ok (p, []) =
        find_in_plan newer plan_there
        ∙ ap (λ o. ok (p, elim o [ none ↦ [] | some r ↦ r ])) (no_results rid newer unfinished) in
      undo_plan_found newer none [] s n found from
