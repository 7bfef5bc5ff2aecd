-- ===== src/Mail/Recover/Act/First.antt =====
-- What holds when the act begins: Mail is untouched, and the log ends with the plan, which names each
-- target and the mailbox that it comes from.
use macos_apps_mcp.Base.{
  ◌≡◌, refl, ◌∙◌, ap, Str, Option, some, List, [], ◌∷◌, ◌++◌, map, arith, if◌then◌else◌, Bool-cases,
  inl, inr, ◌&&◌, ◌||◌, contains, list_eq, nat_eq,
}
use macos_apps_mcp.Base.Result.{ok, ◌>>=◌, Result-cases, >>=-eq-ok}
use macos_apps_mcp.Audit.Log.{append, is_full}
use macos_apps_mcp.Audit.Log.Appended.{append-live}
use macos_apps_mcp.Mail.Recover.{Target, as_dict, PlanRecord, Entry, plan_entry, permanent_ops}
use macos_apps_mcp.Base.{ℕ, suc}
use macos_apps_mcp.Base.Dict.{Dict}
use macos_apps_mcp.Base.Sort.{unique}
use macos_apps_mcp.Mail.Ids.{stored_id}
use macos_apps_mcp.Mail.Recover.Locate.{
  locate, locate_one, Index, Location, StoreFile, by_id, store_paths,
}
use macos_apps_mcp.Mail.Recover.Backup.{Disk, KeptFile, back_up, back_up_one, enter, keep}
use macos_apps_mcp.Mail.Recover.Act.{
  State, Env, Call, plan_record, write_plan, prepare, preserve, located_for, check_lossy,
  receipt_id,
}

-- What undo needs of a target.
abbrev pub source_of : Target → Str × Str
source_of t = (t.id, t.folder)

pub map_kept {ℓ κ} :
    {A : Type ℓ} {B : Type κ} (g : A → B) (f : A → A) (xs : List A)
    → ((x : A) → g (f x) ≡ g x)
    → map g (map f xs) ≡ map g xs
map_kept g f [] h = refl
map_kept g f (x ∷ xs) h = ground (arith, h x, map_kept g f xs h)

locate_one-source :
    (account_of : Str → Option Str) (groups : Dict Str (List Location)) (paths : Dict ℕ StoreFile)
    (t : Target)
    → source_of (locate_one account_of groups paths t) ≡ source_of t
unfolding locate_one
locate_one-source account_of groups paths t = ground arith

locate-source :
    (index : Index) (ts : List Target) → map source_of (locate index ts) ≡ map source_of ts
unfolding locate
locate-source index [] = refl
locate-source index (t ∷ ts) =
    let rows = index.locations (unique (map (λ x. stored_id x.id) (t ∷ ts))) in
    let f = locate_one index.account_of (by_id rows) (store_paths index rows) in
    map_kept source_of f (t ∷ ts)
      (locate_one-source index.account_of (by_id rows) (store_paths index rows))

module _ (disk : Disk) (rid : Str) where
  back_up_one-source :
      (t u : Target) (files files' : List KeptFile)
      → back_up_one disk rid t files ≡ ok (u, files')
      → source_of u ≡ source_of t
  unfolding back_up_one enter keep
  back_up_one-source t u files files' h = ground arith

  back_up-source :
      (ts us : List Target) (files : List KeptFile)
      → (back_up disk rid ts files).0 ≡ ok us
      → map source_of us ≡ map source_of ts
  unfolding back_up
  back_up-source [] us files h = ground arith
  back_up-source (t ∷ ts) us files h = elim (Result-cases (back_up_one disk rid t files)) [
    | inl (e, failed) ↦ ground (arith, failed)
    | inr ((u, files'), done) ↦
        let h' : ((back_up disk rid ts files').0 >>= (λ vs. ok (u ∷ vs))) ≡ ok us =
          rw (done, back_up) at h in
        let (vs, rest, made) = >>=-eq-ok (back_up disk rid ts files').0 (λ vs. ok (u ∷ vs)) h' in
        let shown : us ≡ u ∷ vs = ground (arith, made) in
        let front = back_up_one-source t u files files' done in
        let back = back_up-source ts vs files' rest in rw (shown, front, back)
  ]

preserve-source :
    (env : Env) (c : Call) (rid : Str) (ts us : List Target) (dir : Option Str)
    (files : List KeptFile)
    → (preserve env c rid ts files).0 ≡ ok (us, dir)
    → map source_of us ≡ map source_of ts
unfolding preserve
preserve-source env c rid ts us dir files h = elim (Bool-cases c.backup) [
  | inl wanted ↦
      let kept = back_up env.disk rid ts files in
      let h' : (kept.0 >>= (λ vs. enter env.disk rid >>= λ d. ok (vs, some d))) ≡ ok (us, dir) =
        rw wanted at h in
      let (vs, rest, made) = >>=-eq-ok kept.0 _ h' in
      let (d, entered, same) = >>=-eq-ok (enter env.disk rid) _ made in
      let shown : us ≡ vs = ground (arith, same) in
      rw shown (back_up-source env.disk rid ts vs files rest)
  | inr unwanted ↦ let shown : us ≡ ts = ground (arith, unwanted, h) in rw shown
]

located_for-source :
    (env : Env) (c : Call) (ts : List Target)
    → map source_of (located_for env c ts) ≡ map source_of ts
unfolding located_for
located_for-source env c ts = elim (Bool-cases (c.backup || contains permanent_ops c.op)) [
  | inl searched ↦ rw searched (locate-source env.index ts)
  | inr unsearched ↦ rw unsearched refl
]

check_lossy_same : (c : Call) (ts us : List Target) → check_lossy c ts ≡ ok us → us ≡ ts
unfolding check_lossy
check_lossy_same c ts us h = ground arith

-- What the act finds.
pub record Ready {W : Type 0} (env : Env) (c : Call) (items located : List Target) (p : PlanRecord)
    (before after : State W) : Type 0 where
  pub same_world : after.world ≡ before.world
  pub rid : p.receipt ≡ receipt_id env.stamp before.minted c.op
  pub destination : p.destination ≡ c.destination
  pub targets : p.targets ≡ map as_dict located
  pub sources : map source_of located ≡ map source_of items
  pub older : List Entry
  pub last : after.log.live ≡ older ++ plan_entry p ∷ []

module _ {W : Type 0} (env : Env) (c : Call) where
  write_plan-Ready :
      (items us located : List Target) (dir : Option Str) (p : PlanRecord) (before st st' : State W)
      → st.world ≡ before.world
      → map source_of us ≡ map source_of items
      → write_plan env c (receipt_id env.stamp before.minted c.op) us dir st
        ≡ (ok (p, located), st')
      → Ready env c items located p before st'
  unfolding write_plan plan_record
  write_plan-Ready items us located dir p before st st' w s h =
      let p0 = plan_record c (receipt_id env.stamp before.minted c.op) us dir in
      let a = append env.bytes st.log (plan_entry p0) in
      elim (Bool-cases a.1) [
        | inl written ↦
            let same_plan : p ≡ p0 = ground (arith, written, h) in
            let same_targets : located ≡ us = ground (arith, written, h) in
            let same_state : st' ≡ record st { log = a.0 } = ground (arith, written, h) in
            rw (same_plan, same_targets, same_state)
              record {
                same_world = w;
                rid = refl;
                destination = refl;
                targets = refl;
                sources = s;
                older = if is_full env.bytes st.log && st.log.can_rotate then [] else st.log.live;
                last = append-live env.bytes st.log (plan_entry p0) written;
              }
        | inr lost ↦ ground (arith, lost, h)
      ]

  pub prepare-Ready :
      (items located : List Target) (p : PlanRecord) (st st' : State W)
      → prepare env c items st ≡ (ok (p, located), st')
      → Ready env c items located p st st'
  unfolding prepare
  prepare-Ready items located p st st' h =
      elim (Result-cases (check_lossy c (located_for env c items))) [
        | inl (e, refused) ↦ ground (arith, refused, h)
        | inr (ls, passed) ↦
            let rid = receipt_id env.stamp st.minted c.op in
            let kept = preserve env c rid ls st.files in
            elim (Result-cases kept.0) [
              | inl (e, failed) ↦ ground (arith, passed, failed, h)
              | inr ((us, dir), preserved) ↦
                  let middle = record st { minted = suc st.minted; files = kept.1 } in
                  let h' : write_plan env c rid us dir middle ≡ (ok (p, located), st') =
                    ground (arith, passed, preserved, h) in
                  let same = check_lossy_same c (located_for env c items) ls passed in
                  write_plan-Ready items us located dir p st middle st' refl
                    (preserve-source env c rid ls us dir st.files preserved
                      ∙ ap (map source_of) same
                      ∙ located_for-source env c items)
                    h'
            ]
      ]
