-- ===== src/Mail/Recover/Run/First.antt =====
-- Mail is not touched before the log holds the plan.
use macos_apps_mcp.Base.{
  ◌≡◌, refl, ◌∙◌, ap, Str, false, Option, List, [], ◌∷◌, ◌++◌, map, arith, Bool-cases, inl, inr,
  ◌⊎◌,
}
use macos_apps_mcp.Base.Dict.{Dict}
use macos_apps_mcp.Base.Result.{Result, ok, err, ◌>>=◌, Result-cases, >>=-eq-ok}
use macos_apps_mcp.Audit.Log.{Log}
use macos_apps_mcp.Audit.Log.Appended.{append-survives, live-Survives, Survives}
use macos_apps_mcp.Mail.Recover.{
  Target, Row, as_dict, Answer, Failure, PlanRecord, Entry, plan_entry, check_batch, check_op,
}
use macos_apps_mcp.Mail.Recover.Act.{State, Env, Call, Present, prepare, write_plan}
use macos_apps_mcp.Mail.Recover.Act.First.{source_of, prepare-Ready}
use macos_apps_mcp.Mail.Recover.Run.{
  Act, finish, write_done, carry_on, perform, recoverable, is_timeout,
}

abbrev pub row_source : Row → Str × Str
row_source r = (r.id, r.folder)

-- The log holds a plan that undoes the call: its destination, and each target with its mailbox.
pub record PlanLogged (c : Call) (targets : List Target) (log : Log Entry) : Type 0 where
  pub the_plan : PlanRecord
  pub survives : Survives (plan_entry the_plan) log
  pub destination : the_plan.destination ≡ c.destination
  pub sources : map row_source the_plan.targets ≡ map source_of targets

rows-source : (ts : List Target) → map row_source (map as_dict ts) ≡ map source_of ts
unfolding as_dict
rows-source [] = refl
rows-source (t ∷ ts) = rw (rows-source ts)

pub check_batch_same : (ts us : List Target) → check_batch ts ≡ ok us → us ≡ ts
unfolding check_batch
check_batch_same [] us h = ground arith
check_batch_same (t ∷ ts) us h = ground arith

module _ {W : Type 0} (env : Env) (c : Call) where
  prepare-world : (items : List Target) (st : State W) → (prepare env c items st).1.world ≡ st.world
  unfolding prepare write_plan
  prepare-world items st = ground arith

  finish-Survives :
      (p : PlanRecord) (located : List Target)
      (answered : Result Failure (Option (Dict Str Answer))) (st : State W) (xs : List Entry)
      (q : Entry)
      → st.log.live ≡ xs ++ q ∷ []
      → Survives q (finish env c p located answered st).1.log
  unfolding finish write_done
  finish-Survives p located (ok statuses) st xs q h =
      let (older, shown) = append-survives env.bytes st.log q _ xs h in (older, _, shown)
  finish-Survives p located (err e) st xs q h = elim (Bool-cases (is_timeout e)) [
    | inl timed_out ↦
        rw timed_out
          (let (older, shown) = append-survives env.bytes st.log q _ xs h in (older, _, shown))
    | inr untimed ↦ rw untimed (live-Survives st.log q xs h)
  ]

  perform-PlanLogged :
      (act : Act W) (items : List Target) (st : State W)
      → ((perform env c act items st).1.world ≡ st.world)
        ⊎ PlanLogged c items (perform env c act items st).1.log
  unfolding carry_on
  perform-PlanLogged act items st = elim (Result-cases (prepare env c items st).0) [
    | inl (e, failed) ↦ rw (failed, carry_on) (inl (prepare-world items st))
    | inr ((p, located), prepared) ↦
        rw (prepared, carry_on)
          (inr (
            let st' = (prepare env c items st).1 in
            let ready = prepare-Ready env c items located p st st' (ap (λ r. (r, st')) prepared) in
            let w = (act located st'.world).1 in
            record {
              the_plan = p;
              survives =
                  finish-Survives p located (act located st'.world).0 (record st' { world = w })
                    ready.older (plan_entry p) ready.last;
              destination = ready.destination;
              sources = ap (map row_source) ready.targets ∙ rows-source located ∙ ready.sources;
            }))
  ]

  -- Whatever the act does and however the call ends: if Mail was touched by a call of recoverable
  -- that is no dry run, then the audit log still holds, in one of its two files, a plan with the
  -- destination of the call, and with the id and the source mailbox of each target, in order.
  pub recoverable-PlanLogged :
      (act : Act W) (present : Option (Present W)) (targets : List Target) (st : State W)
      → ((recoverable env c act false present targets st).1.world ≡ st.world)
        ⊎ PlanLogged c targets (recoverable env c act false present targets st).1.log
  unfolding recoverable
  recoverable-PlanLogged act present targets st =
      elim (Result-cases (check_op c.op >>= λ _. check_batch targets)) [
        | inl (e, refused) ↦ rw (refused, recoverable) (inl refl)
        | inr (items, passed) ↦
            let (op, known, checked) =
              >>=-eq-ok (check_op c.op) (λ _. check_batch targets) passed in
            let same = check_batch_same targets items checked in
            rw (passed, recoverable) (rw (← same) (perform-PlanLogged act items st))
      ]
