-- ===== src/Dedupe/Plan/Safe.antt =====
-- What the cross-account plan may send to Trash.
use macos_apps_mcp.Base.{
  ℕ, Str, ◌≡◌, sym, ◌∙◌, Bool, true, false, not, ◌&&◌, Option, some, List, [], ◌∷◌, inl, inr, ltb,
  is_some, Bool-cases, Option-cases, ◌==◌, nat_eq, list_eq, option_eq, beq_refl, length, every,
  some_of, All,
}
use mathlib.Core.Path.{subst}
use macos_apps_mcp.Base.Lists.{All-map}
use macos_apps_mcp.Base.Dict.{Dict, insert, lookup-insert}
use macos_apps_mcp.Base.Dict.Entries.{Entries, Entries-map}
use macos_apps_mcp.Base.Dict.Group.{group_onto, Distinct-group_onto, Distinct-Entries}
use macos_apps_mcp.Base.Sort.{unique}
use macos_apps_mcp.Dedupe.Plan.{
  Copy, Plan, accounts_of, first_in, prints_of, targets, collapse, plan_set, plan_sets,
  cross_account_plan,
}
use macos_apps_mcp.Dedupe.Plan.Losers.{
  copies_of, Loses, IsSafe, group-copies, same_print, target-IsLoser, targets_there, Kept-insert,
  add_losers_lem,
}

module _ (is_trash : Str → Bool) (order : List Str) (fingerprint : ℕ → Option Str) where
  collapse-IsSafe :
      (rows : List Copy) (mid winner print : Str) (cs : List Copy) (p : Plan)
      → first_in order (accounts_of (copies_of rows mid)) ≡ some winner
      → every (λ (c : Copy). fingerprint c.rowid == some print) (copies_of rows mid) ≡ true
      → All
          (λ (c : Copy).
            (some_of
                (λ (d : Copy). d.mailbox_url == c.mailbox_url && not (d.account == winner))
                (copies_of rows mid)
              ≡ true)
            × (is_trash c.mailbox_url ≡ false))
          cs
      → IsSafe is_trash order fingerprint rows p
      → IsSafe is_trash order fingerprint rows (collapse is_trash order fingerprint mid winner cs p)
  unfolding collapse
  collapse-IsSafe rows mid winner print [] p first same a h = h
  collapse-IsSafe rows mid winner print (c ∷ cs) p first same a h =
      add_losers_lem is_trash order fingerprint
        (Loses is_trash order fingerprint rows (insert mid winner p.keepers)) mid (c ∷ cs) p.losers
        (All-map _ _ (c ∷ cs)
          (λ d t. (
            target-IsLoser is_trash order fingerprint rows mid winner print d first same t.0 t.1,
            lookup-insert mid mid winner p.keepers ∙ (rw (beq_refl mid) (sym first)),
          ))
          a)
        (Entries-map _ _ p.losers
          (λ url mids l.
            All-map _ _ mids
              (λ k m.
                (m.0, Kept-insert is_trash order fingerprint rows p.keepers mid k winner first m.1))
              l)
          h)

  plan_set-IsSafe :
      (rows : List Copy) (mid : Str) (copies : List Copy) (p : Plan)
      → copies ≡ copies_of rows mid
      → IsSafe is_trash order fingerprint rows p
      → IsSafe is_trash order fingerprint rows (plan_set is_trash order fingerprint mid copies p)
  unfolding plan_set
  plan_set-IsSafe rows mid [] p e h = unfold unique in h
  plan_set-IsSafe rows mid (c ∷ cs) p e h =
      elim (Bool-cases (ltb (length (unique (accounts_of (c ∷ cs)))) 2)) [
        | inl few ↦ rw few h
        | inr many ↦ rw many (elim (Option-cases (first_in order (accounts_of (c ∷ cs)))) [
          | inl nobody ↦ rw nobody h
          | inr (winner, first) ↦
              rw first
                (elim (Bool-cases (every is_some (prints_of is_trash order fingerprint (c ∷ cs)))) [
                  | inr unreadable ↦ rw unreadable h
                  | inl readable ↦
                      rw readable
                        (elim (Bool-cases
                          (length (unique (prints_of is_trash order fingerprint (c ∷ cs))) == 1)) [
                            | inr differ ↦ rw differ h
                            | inl one ↦
                                rw one
                                  let (print, same) =
                                      same_print is_trash order fingerprint c cs readable one in
                                    collapse-IsSafe rows mid winner print
                                      (targets is_trash order fingerprint winner (c ∷ cs)) p
                                      (subst (λ k. first_in order (accounts_of k) ≡ some winner) e
                                        first)
                                      (subst
                                        (λ k.
                                          every (λ (d : Copy). fingerprint d.rowid == some print) k
                                          ≡ true)
                                        e same)
                                      (targets_there is_trash order fingerprint winner (c ∷ cs)
                                        (copies_of rows mid)
                                        (λ d m.
                                          subst
                                            (λ k.
                                              some_of
                                                (λ (b : Copy).
                                                  b.mailbox_url == d.mailbox_url
                                                  && not (b.account == winner))
                                                k
                                              ≡ true)
                                            e m))
                                      h
                          ])
                ])
        ])
      ]

  plan_sets-IsSafe :
      (rows : List Copy) (d : Dict Str (List Copy)) (p : Plan)
      → Entries (λ mid copies. copies ≡ copies_of rows mid) d
      → IsSafe is_trash order fingerprint rows p
      → IsSafe is_trash order fingerprint rows (plan_sets is_trash order fingerprint d p)
  unfolding plan_sets
  plan_sets-IsSafe rows [] p a h = h
  plan_sets-IsSafe rows ((mid, copies) ∷ d) p a h =
      plan_sets-IsSafe rows d (plan_set is_trash order fingerprint mid copies p) a.1
        (plan_set-IsSafe rows mid copies p a.0 h)

  -- Every copy that the cross-account plan sends to Trash is one of a message that another account
  -- of the given order keeps: the keeper is the first account of the order that holds the message,
  -- the plan names it, the copy lies in a mailbox of another account that is no Trash, and all
  -- copies of the message have the same readable body.
  pub cross_account_plan-IsSafe :
      (rows : List Copy)
      → IsSafe is_trash order fingerprint rows (cross_account_plan is_trash order fingerprint rows)
  unfolding cross_account_plan
  cross_account_plan-IsSafe rows =
      plan_sets-IsSafe rows (group_onto (λ (r : Copy). r.message_id) [] rows) _
        (Distinct-Entries _ (group_onto (λ (r : Copy). r.message_id) [] rows)
          (Distinct-group_onto (λ (r : Copy). r.message_id) [] rows tt)
          (λ mid copies there. group-copies rows mid copies there))
        tt
