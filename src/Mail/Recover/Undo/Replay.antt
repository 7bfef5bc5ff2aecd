-- ===== src/Mail/Recover/Undo/Replay.antt =====
-- Undo after an act: what `undo_plan` gives for the receipt of a call of `recoverable`.
use macos_apps_mcp.Base.{
  ◌≡◌, refl, sym, ◌∙◌, ap, Str, Bool, true, Option, some, List, [], ◌∷◌, ◌++◌, map, arith,
  if◌then◌else◌, inl, inr, ◌⊎◌, select,
}
use macos_apps_mcp.Base.Dict.{Dict}
use macos_apps_mcp.Base.Text.{is_space, strip}
use macos_apps_mcp.Base.Text.Strip.{Free}
use macos_apps_mcp.Base.Result.{Result, ok, err, Result-cases}
use macos_apps_mcp.Audit.Log.{append}
use macos_apps_mcp.Audit.Log.Appended.{append-survives, append-is_open, is_open}
use macos_apps_mcp.Mail.Recover.{
  Target, as_dict, check_op, Answer, Failure, native_error, PlanRecord, Entry, plan_entry,
  done_entry,
}
use macos_apps_mcp.Mail.Recover.Act.{
  State, Env, Call, plan_record, prepare, write_plan, preserve, check_lossy, located_for,
  receipt_id,
}
use macos_apps_mcp.Mail.Recover.Act.First.{prepare-Ready}
use macos_apps_mcp.Mail.Recover.Run.{
  Act, answers_onto, left_sources, done_record, given, is_timeout, finish, write_done, carry_on,
  perform, ended,
}
use macos_apps_mcp.Mail.Recover.Undo.{
  has_destination, replayed, some_targets, undo_plan, is_replayed,
}
use macos_apps_mcp.Mail.Recover.Undo.Found.{undone, replay, replayed-as_dict, undo_plan_done}
use macos_apps_mcp.Mail.Recover.Undo.Answers.{
  moved, All-answers_onto, replayed_answers, strip-receipt_id,
}

-- The answers that the outcome's record is made from; none where the act was not heard out.
abbrev pub heard : Result Failure (Option (Dict Str Answer)) → Dict Str Answer
heard (ok statuses) = given statuses
heard (err e) = []

-- The act returned, or it timed out.
abbrev pub is_over : Result Failure (Option (Dict Str Answer)) → Bool
is_over (ok statuses) = true
is_over (err e) = is_timeout e

-- What undo gives for a plan and the targets that it is to move back.
abbrev pub back : PlanRecord → List Target → Result Failure (PlanRecord × List Target)
back p ts = if has_destination p then some_targets p (map undone ts) else err native_error

replay_rows :
    (p : PlanRecord) (left_it : Str → Bool) (located ts : List Target)
    → p.targets ≡ map as_dict located
    → replayed left_it (map as_dict located) ≡ map undone ts
    → replay p left_it ≡ back p ts
replay_rows p left_it located ts e h =
    let same : replayed left_it p.targets ≡ map undone ts = ap (replayed left_it) e ∙ h in rw same

module _ {W : Type 0} (env : Env) (c : Call) where
  -- Only the record of the plan is appended before the act, if anything is.
  prepare_log :
      (items : List Target) (st : State W)
      → ((prepare env c items st).1.log ≡ st.log)
        ⊎ ((p : PlanRecord) × ((prepare env c items st).1.log
              ≡ (append env.bytes st.log (plan_entry p)).0))
  unfolding prepare write_plan
  prepare_log items st = elim (Result-cases (check_lossy c (located_for env c items))) [
    | inl (e, refused) ↦ rw (refused, prepare) (inl refl)
    | inr (ls, passed) ↦
        let rid = receipt_id env.stamp st.minted c.op in
        elim (Result-cases (preserve env c rid ls st.files).0) [
          | inl (e, failed) ↦ rw (passed, prepare) (rw failed (inl refl))
          | inr ((us, dir), kept) ↦
              rw (passed, prepare) (rw kept (inr (plan_record c rid us dir, refl)))
        ]
  ]

  prepare-is_open :
      (items : List Target) (st : State W)
      → is_open st.log ≡ true
      → is_open (prepare env c items st).1.log ≡ true
  prepare-is_open items st h = elim (prepare_log items st) [
    | inl same ↦ rw same h
    | inr (p, grown) ↦ rw grown (append-is_open env.bytes st.log (plan_entry p) h).1
  ]

  -- The state in which `finish` leaves the log, where nothing stands in the way of the record.
  write_done-undo_plan :
      (p : PlanRecord) (located : List Target) (statuses : Dict Str Answer) (st : State W)
      (xs : List Entry)
      → strip p.receipt ≡ p.receipt
      → p.targets ≡ map as_dict located
      → is_open st.log ≡ true
      → st.log.live ≡ xs ++ plan_entry p ∷ []
      → undo_plan p.receipt (write_done env c p statuses located st).1.log
        ≡ back p (select (moved statuses) located)
  unfolding write_done done_record
  write_done-undo_plan p located statuses st xs s e h l =
      let answers = answers_onto statuses [] located in
      let d = done_record p.receipt answers (map (ended answers) located) in
      let opened = append-is_open env.bytes st.log (done_entry d) h in
      let log' = (append env.bytes st.log (done_entry d)).0 in
      let (older, shown) = append-survives env.bytes st.log (plan_entry p) (done_entry d) xs l in
      let whole =
        shown ∙ ap (λ b. older ++ plan_entry p ∷ (if b then done_entry d ∷ [] else [])) opened.0 in
      let found =
        undo_plan_done p.receipt p older log' d (left_sources answers) s refl refl refl
          (ground (arith, opened.1)) whole in
      let rows =
        replayed-as_dict (is_replayed (some (left_sources answers)) []) (moved statuses) located
          (replayed_answers statuses answers located (All-answers_onto statuses located [])) in
      found
      ∙ replay_rows p (is_replayed (some (left_sources answers)) []) located
          (select (moved statuses) located) e rows

  finish_over :
      (p : PlanRecord) (located : List Target)
      (answered : Result Failure (Option (Dict Str Answer))) (st : State W)
      → is_over answered ≡ true
      → (finish env c p located answered st).1 ≡ (write_done env c p (heard answered) located st).1
  unfolding finish
  finish_over p located (ok statuses) st h = refl
  finish_over p located (err e) st h = rw h refl

module _ {W : Type 0} (env : Env) (c : Call) (act : Act W) (items : List Target)
    (st : State W) where
  -- Undo after an act: where the audit log can be written and read, the act returned or timed out,
  -- and no white space is in the time stamp, undo_plan on the receipt gives back the plan with exactly
  -- the targets whose answer does not say that the message stayed, in order, each with its source
  -- mailbox; after a timeout, that is all of them. It refuses where the call had no destination, and
  -- where no target is left.
  pub perform-undo_plan :
      (p : PlanRecord) (located : List Target) (st' : State W) (op : Str)
      → Free is_space env.stamp
      → check_op c.op ≡ ok op
      → is_open st.log ≡ true
      → prepare env c items st ≡ (ok (p, located), st')
      → is_over (act located st'.world).0 ≡ true
      → undo_plan p.receipt (perform env c act items st).1.log
        ≡ back p (select (moved (heard (act located st'.world).0)) located)
  unfolding carry_on
  perform-undo_plan p located st' op free known opened prepared over =
      let ready = prepare-Ready env c items located p st st' prepared in
      let answered = (act located st'.world).0 in
      let st'' = record st' { world = (act located st'.world).1 } in
      let ran : (perform env c act items st).1 ≡ (finish env c p located answered st'').1 =
        ap (λ r. (carry_on env c act r).1) prepared in
      let ended_as = ran ∙ finish_over env c p located answered st'' over in
      let still_open : is_open st'.log ≡ true =
        ap (λ r. is_open r.1.log) (sym prepared) ∙ prepare-is_open env c items st opened in
      let stripped : strip p.receipt ≡ p.receipt =
        rw ready.rid (strip-receipt_id env.stamp st.minted c.op op free known) in
      ap (λ s. undo_plan p.receipt s.log) ended_as
      ∙ write_done-undo_plan env c p located (heard answered) st'' ready.older stripped
          ready.targets still_open ready.last
