-- ===== src/Mail/Recover/Run/Dry.antt =====
-- A dry run only reads.
use macos_apps_mcp.Base.{
  ◌≡◌, refl, ◌∙◌, ap, Str, true, Option, some, List, map, inl, inr, ◌⊎◌, length, Option-cases,
}
use macos_apps_mcp.Base.Dict.{Dict}
use macos_apps_mcp.Base.Result.{Result, ok, err, ◌>>=◌, Result-cases, >>=-eq-ok}
use macos_apps_mcp.Mail.Recover.{Target, as_dict, Failure, type_error, check_batch, check_op}
use macos_apps_mcp.Mail.Recover.Act.{
  State, Env, Call, Present, Reply, previewed, preview, stamped, read_status,
}
use macos_apps_mcp.Mail.Recover.Run.{Act, recoverable, dry_run_of}
use macos_apps_mcp.Mail.Recover.Run.First.{check_batch_same}

-- A row for each target, with the status that the presence read found for it.
abbrev pub shown_as : Call → List Target → Dict Str Str → Reply
shown_as c targets found = previewed record {
  op = c.op;
  count = length (map (read_status found) targets);
  would_affect = map as_dict (map (read_status found) targets);
  destination = c.destination;
}

-- `check_op` and `check_batch`
abbrev pub checked : Call → List Target → Result Failure (List Target)
checked c targets = check_op c.op >>= λ _. check_batch targets

module _ {W : Type 0} (env : Env) (c : Call) where
  dry_run_of_lem :
      (targets : List Target) (present : Present W) (st : State W)
      → checked c targets ≡ ok targets
      → dry_run_of env c targets (some present) st ≡ (
        (present targets st.world).0 >>= (λ found. ok (shown_as c targets found)),
        record st { world = (present targets st.world).1 },
      )
  unfolding dry_run_of preview stamped
  dry_run_of_lem targets present st h =
      rw (h, preview)
        (elim (Result-cases (present targets st.world).0) [
          | inl (e, failed) ↦ rw (failed, stamped) refl
          | inr (found, read) ↦ rw (read, stamped) refl
        ])

  -- A dry run of recoverable never gets to the act: it is refused and leaves everything as it was, or
  -- it reads the presence of the batch once, changes nothing but what that read changes, and, unless
  -- the read raises, answers with a preview of every target that has the status that was read for it.
  pub recoverable_dry :
      (act : Act W) (present : Option (Present W)) (targets : List Target) (st : State W)
      → ((e : Failure) × (recoverable env c act true present targets st ≡ (err e, st)))
        ⊎ ((read : Present W) × (present ≡ some read)
            × (recoverable env c act true present targets st ≡ (
              (read targets st.world).0 >>= (λ found. ok (shown_as c targets found)),
              record st { world = (read targets st.world).1 },
            )))
  unfolding recoverable dry_run_of
  recoverable_dry act present targets st = elim (Result-cases (checked c targets)) [
    | inl (e, refused) ↦ inl (e, rw (refused, recoverable) refl)
    | inr (items, passed) ↦
        let (op, known, taken) = >>=-eq-ok (check_op c.op) (λ _. check_batch targets) passed in
        let same = check_batch_same targets items taken in
        let passed' : checked c targets ≡ ok targets = passed ∙ ap ok same in
        rw (passed', recoverable)
          (elim (Option-cases present) [
            | inl unread ↦ inl (type_error, rw (unread, dry_run_of) refl)
            | inr (read, given) ↦
                inr (read, given, rw (given, dry_run_of) (dry_run_of_lem targets read st passed'))
          ])
  ]
