-- ===== src/Mail/Write/Routed.antt =====
-- What `move_mail` refuses before it does anything.
use macos_apps_mcp.Base.{
  ◌≡◌, refl, ◌∙◌, ap, Str, codes, Bool, true, false, ◌&&◌, some, List, arith, if◌then◌else◌, inl,
  inr, ◌⊎◌, ◌==◌, nat_eq, list_eq, is_some, Bool-cases,
}
use macos_apps_mcp.Base.Result.{Result, ok, err, ◌>>=◌, raise_if, ◌>>◌, Result-cases, >>=-eq-ok}
use macos_apps_mcp.Mail.Address.{Box}
use macos_apps_mcp.Mail.Outcomes.{split_ids}
use macos_apps_mcp.Mail.Recover.{Failure, value_error, write_refused, check_batch}
use macos_apps_mcp.Mail.Recover.Act.{State, Env}
use macos_apps_mcp.Mail.Write.{
  Scripts, Reads, box_of, is_unified, refuse_label_route, move_route, when_checked, move_mail,
}

-- A route that passed the checks: both names are read, the source is a mailbox of its own, the two are
-- different mailboxes, neither is a Gmail label, and a unified destination is not of the local store
-- nor of an account with labels.
pub record Routed (reads : Reads) (from to : Str) (src dst : Box) : Type 0 where
  pub source : box_of reads from ≡ ok src
  pub destination : box_of reads to ≡ ok dst
  pub is_own : is_unified reads src ≡ false
  pub differ : (src.0 == dst.0 && src.1 == dst.1) ≡ false
  pub not_local : (is_unified reads dst && src.0 == codes "local") ≡ false
  pub from_no_label : reads.is_label_mailbox from ≡ ok false
  pub to_no_label : reads.is_label_mailbox to ≡ ok false
  pub no_labels :
      (is_some (reads.account_of to) ≡ true)
      ⊎ (reads.account_has_labels (reads.account_of from) ≡ ok false)

-- A check that was passed.
passed :
    {A : Type 0} (b : Bool) (e : Failure) (next : Result Failure A) (a : A)
    → (raise_if b e >> next) ≡ ok a
    → (b ≡ false) × (next ≡ ok a)
passed true e next a h = ground (arith, h)
passed false e next a h = (refl, h)

module _ (reads : Reads) (from to : Str) where
  no_labels_passed :
      (if is_some (reads.account_of to)
          then ok tt
          else (reads.account_has_labels (reads.account_of from) >>= λ has.
              raise_if has write_refused))
        ≡ ok tt
      → (is_some (reads.account_of to) ≡ true)
        ⊎ (reads.account_has_labels (reads.account_of from) ≡ ok false)
  no_labels_passed h = elim (Bool-cases (is_some (reads.account_of to))) [
    | inl named ↦ inl named
    | inr unified ↦
        let asked : (reads.account_has_labels (reads.account_of from) >>= λ has.
        raise_if has write_refused)
            ≡ ok tt =
          rw unified at h in
        let (has, answer, rest) =
          >>=-eq-ok (reads.account_has_labels (reads.account_of from)) _ asked in
        let has_not : has ≡ false = ground (arith, rest) in inr (answer ∙ ap ok has_not)
  ]

  label_route_passed :
      refuse_label_route reads from (some to) ≡ ok tt
      → (reads.is_label_mailbox from ≡ ok false)
        × (reads.is_label_mailbox to ≡ ok false)
        × ((is_some (reads.account_of to) ≡ true)
            ⊎ (reads.account_has_labels (reads.account_of from) ≡ ok false))
  unfolding refuse_label_route
  label_route_passed h =
      let (l, from_is, rest) = >>=-eq-ok (reads.is_label_mailbox from) _ h in
      let (from_not, rest') = passed l write_refused _ tt rest in
      let (m, to_is, last) = >>=-eq-ok (reads.is_label_mailbox to) _ rest' in
      let (to_not, last') = passed m write_refused _ tt last in
      (from_is ∙ ap ok from_not, to_is ∙ ap ok to_not, no_labels_passed last')

  move_route-Routed :
      (src dst : Box) → move_route reads from to ≡ ok (src, dst) → Routed reads from to src dst
  unfolding move_route
  move_route-Routed src dst h =
      let (src', source, rest) = >>=-eq-ok (box_of reads from) _ h in
      let (own, rest) = passed (is_unified reads src') value_error _ (src, dst) rest in
      let (dst', destination, rest) = >>=-eq-ok (box_of reads to) _ rest in
      let (differ, rest) =
        passed (src'.0 == dst'.0 && src'.1 == dst'.1) value_error _ (src, dst) rest in
      let (not_local, rest) =
        passed (is_unified reads dst' && src'.0 == codes "local") value_error _ (src, dst) rest in
      let (u, labels, rest) = >>=-eq-ok (refuse_label_route reads from (some to)) _ rest in
      let (from_no_label, to_no_label, no_labels) = label_route_passed labels in
      let same_src : src' ≡ src = ground (arith, rest) in
      let same_dst : dst' ≡ dst = ground (arith, rest) in
      rw (← same_src, ← same_dst)
        record {
          source = source;
          destination = destination;
          is_own = own;
          differ = differ;
          not_local = not_local;
          from_no_label = from_no_label;
          to_no_label = to_no_label;
          no_labels = no_labels;
        }

-- A call of move_mail, dry run or not, is refused with nothing changed, or its route passed the checks.
pub move_mail-Routed :
    {W : Type 0} (env : Env) (scripts : Scripts W) (reads : Reads) (given : List Str)
    (from to : Str) (dry_run : Bool) (st : State W)
    → ((e : Failure) × (move_mail env scripts reads given from to dry_run st ≡ (err e, st)))
      ⊎ ((src : Box) × (dst : Box) × Routed reads from to src dst)
unfolding move_mail when_checked
move_mail-Routed env scripts reads given from to dry_run st =
    elim (Result-cases (check_batch (split_ids given) >>= λ mids. move_route reads from to)) [
      | inl (e, refused) ↦ inl (e, rw (refused, move_mail) refl)
      | inr ((src, dst), ready) ↦
          let (mids, taken, routed) = >>=-eq-ok (check_batch (split_ids given)) _ ready in
          inr (src, dst, move_route-Routed reads from to src dst routed)
    ]
