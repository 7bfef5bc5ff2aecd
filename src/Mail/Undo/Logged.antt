-- ===== src/Mail/Undo/Logged.antt =====
-- An undo is a move back, and plans its own receipt like any move.
use macos_apps_mcp.Base.{
  ◌≡◌, refl, sym, ◌∙◌, ap, Str, codes, true, false, none, some, List, [], ◌∷◌, arith, inl, inr, ◌⊎◌,
  nat_eq, list_eq, contains, All, beq_refl, Option-cases, list_beq_iff,
}
use macos_apps_mcp.Base.Sort.{unique, contains-unique}
use macos_apps_mcp.Base.Result.{ok, err, ◌>>=◌, ◌>>◌, raise_if, Result-cases, >>=-eq-ok}
use macos_apps_mcp.Mail.Outcomes.{split_ids, move_answer}
use macos_apps_mcp.Mail.Recover.{Target, write_refused, PlanRecord, check_batch}
use macos_apps_mcp.Mail.Recover.Act.{State, Env}
use macos_apps_mcp.Mail.Recover.Run.{ids}
use macos_apps_mcp.Mail.Recover.Run.First.{PlanLogged, recoverable-PlanLogged}
use macos_apps_mcp.Mail.Recover.Undo.{undo_plan}
use macos_apps_mcp.Mail.Write.{
  Scripts, Reads, when_checked, move_mail, move_route, call_of, targets_in, transfer_act, presence,
}
use macos_apps_mcp.Mail.Undo.{
  folders, only_folder, the_folder, undo_route, way_back, undo, destination_of, check_current_trash,
}

the_only_folder :
    (ts : List Target) (f : Str)
    → ((g : Str) → contains (folders ts) g ≡ true → g ≡ f)
    → All (λ t. t.folder ≡ f) ts
the_only_folder [] f h = tt
the_only_folder (t ∷ ts) f h = (
  h t.folder (ground (arith, beq_refl t.folder)),
  the_only_folder ts f (λ g m. h g (ground (arith, m))),
)

single_only : (s : List Str) (f : Str) → only_folder s ≡ ok f → s ≡ f ∷ []
single_only [] f h = ground arith
single_only (x ∷ []) f h = ground (arith, h)
single_only (x ∷ y ∷ s) f h = ground (arith, h)

the_folder-All : (ts : List Target) (f : Str) → the_folder ts ≡ ok f → All (λ t. t.folder ≡ f) ts
unfolding the_folder
the_folder-All ts f h =
    let single = single_only (unique (folders ts)) f h in
    the_only_folder ts f (λ g m.
      let there : contains (f ∷ []) g ≡ true =
        ap (λ s. contains s g) (sym single) ∙ contains-unique g (folders ts) ∙ m in
      ground (arith, there, list_beq_iff g f))

undo_route_there :
    (reads : Reads) (p : PlanRecord) (source : Str) (route : Str × Str)
    → (elim (reads.account_of (destination_of p)) [
      | none ↦ err write_refused
      | some account ↦ reads.is_label_mailbox (destination_of p) >>= λ is_label.
          raise_if is_label write_refused
          >> (check_current_trash reads p (destination_of p) account
              >> ok (destination_of p, source))
    ])
      ≡ ok route
    → route ≡ (destination_of p, source)
undo_route_there reads p source route h =
    elim (Option-cases (reads.account_of (destination_of p))) [
      | inl unified ↦ ground (arith, unified, h)
      | inr (account, named) ↦
          let chain = rw named at h in
          let (is_label, read, rest) =
            >>=-eq-ok (reads.is_label_mailbox (destination_of p)) _ chain in
          let (u, no_label, rest) = >>=-eq-ok (raise_if is_label write_refused) _ rest in
          let (v, there, last) =
            >>=-eq-ok (check_current_trash reads p (destination_of p) account) _ rest in
          ground (arith, last)
    ]

undo_route-source :
    (reads : Reads) (p : PlanRecord) (ts : List Target) (route : Str × Str)
    → undo_route reads p ts ≡ ok route
    → (route.0 ≡ destination_of p) × All (λ t. t.folder ≡ route.1) ts
unfolding undo_route
undo_route-source reads p ts route h =
    let (source, from_one, rest) = >>=-eq-ok (the_folder ts) _ h in
    let there : route ≡ (destination_of p, source) = undo_route_there reads p source route rest in
    rw there (refl, the_folder-All ts source from_one)

move_mail-PlanLogged :
    {W : Type 0} (env : Env) (scripts : Scripts W) (reads : Reads) (given : List Str)
    (from to : Str) (st : State W)
    → ((move_mail env scripts reads given from to false st).1.world ≡ st.world)
      ⊎ PlanLogged
          (call_of (codes "move") to true)
          (targets_in from (reads.account_of from) (split_ids given))
          (move_mail env scripts reads given from to false st).1.log
unfolding move_mail when_checked
move_mail-PlanLogged env scripts reads given from to st =
    elim (Result-cases (check_batch (split_ids given) >>= λ mids. move_route reads from to)) [
      | inl (e, refused) ↦ rw (refused, move_mail) (inl refl)
      | inr (route, ready) ↦
          rw (ready, move_mail)
            (recoverable-PlanLogged env (call_of (codes "move") to true)
              (transfer_act scripts move_answer scripts.run_move route.0 route.1)
              (some (presence scripts route.0))
              (targets_in from (reads.account_of from) (split_ids given)) st)
    ]

-- The receipt that an undo replays: its targets all come from one mailbox, and the log now holds a
-- plan of a move of just these ids from the receipt's destination to that mailbox.
pub record Replayed {W : Type 0} (reads : Reads) (receipt_id : Str) (before after : State W)
    : Type 0 where
  pub the_plan : PlanRecord
  pub targets : List Target
  pub source : Str
  pub found : undo_plan receipt_id before.log ≡ ok (the_plan, targets)
  pub one_source : All (λ t. t.folder ≡ source) targets
  pub logged :
      PlanLogged
        (call_of (codes "move") source true)
        (targets_in
          (destination_of the_plan)
          (reads.account_of (destination_of the_plan))
          (split_ids (ids targets)))
        after.log

-- If an undo that is no dry run touched Mail, then the receipt was found, its targets all come from
-- one mailbox, and the audit log holds a plan of the move of these ids back to that mailbox, from the
-- destination of the receipt.
pub undo-Replayed :
    {W : Type 0} (env : Env) (scripts : Scripts W) (reads : Reads) (receipt_id : Str) (st : State W)
    → ((undo env scripts reads receipt_id false st).1.world ≡ st.world)
      ⊎ Replayed reads receipt_id st (undo env scripts reads receipt_id false st).1
unfolding undo when_checked way_back
undo-Replayed env scripts reads receipt_id st =
    elim (Result-cases (way_back reads receipt_id st.log)) [
      | inl (e, refused) ↦ rw (refused, undo) (inl refl)
      | inr ((ts, (to, from)), back) ↦
          let ((p, found_ts), found, rest) = >>=-eq-ok (undo_plan receipt_id st.log) _ back in
          let (route, routed, made) = >>=-eq-ok (undo_route reads p found_ts) _ rest in
          let ending = undo_route-source reads p found_ts route routed in
          let same : found_ts ≡ ts = ground (arith, made) in
          let same_to : route.0 ≡ to = ground (arith, made) in
          let same_from : route.1 ≡ from = ground (arith, made) in
          rw (back, undo)
            (elim (move_mail-PlanLogged env scripts reads (ids ts) to from st) [
              | inl untouched ↦ inl untouched
              | inr logged ↦ inr record {
                the_plan = p;
                targets = ts;
                source = from;
                found = rw (← same) found;
                one_source = rw (← same, ← same_from) ending.1;
                logged = rw (← ending.0) (rw same_to logged);
              }
            ])
    ]
