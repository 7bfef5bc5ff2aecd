-- ===== src/Mail/Outcomes/Left.antt =====
-- What the record of an outcome says of the copies that left the source.
use macos_apps_mcp.Base.{
  ◌≡◌, refl, ap, ◌∙◌, Str, codes, Bool, true, false, not, ◌&&◌, List, [], ◌∷◌, arith, Bool-cases,
  inl, inr, ◌==◌, nat_eq, list_eq, list_beq, list_beq_iff, ltb, every, select, some_of, length,
}
use macos_apps_mcp.Mail.Recover.{Answer, plain_left_source}
use macos_apps_mcp.Mail.Recover.Run.{settle}
use macos_apps_mcp.Mail.Recover.Undo.{may_have_left}
use macos_apps_mcp.Mail.Outcomes.{
  move_answer, trash_answer, mixed_answer, is_moved, is_deleted, is_gone, not_in_source,
}

-- Undo would move the message back.
abbrev pub is_undone : Answer → Bool
is_undone a = may_have_left (settle a).left_source

some_of-select :
    (p : Str → Bool) (os : List Str) → some_of p os ≡ true → ltb 0 (length (select p os)) ≡ true
unfolding select
some_of-select p [] h = ground arith
some_of-select p (o ∷ os) h = ground (arith, some_of-select p os)

mixed_answer-done :
    (p : Str → Bool) (verb : Str) (os : List Str)
    → some_of p os ≡ true
    → is_undone (mixed_answer p verb os) ≡ true
unfolding mixed_answer plain_left_source list_beq
mixed_answer-done p verb os h = ground (arith, some_of-select p os h)

-- Not every outcome is the one where a copy is not there, if one of them is another.
not_all_missing :
    (p : Str → Bool) (os : List Str)
    → p not_in_source ≡ false
    → some_of p os ≡ true
    → every (λ x. x == not_in_source) os ≡ false
not_all_missing p [] k h = ground arith
not_all_missing p (o ∷ os) k h = elim (Bool-cases (o == not_in_source)) [
  | inl same ↦
      let is_it : o ≡ not_in_source = ground (arith, list_beq_iff o not_in_source) in
      let not_this : p o ≡ false = ap p is_it ∙ k in
      let later : some_of p os ≡ true = ground (arith, h, not_this) in
      rw (same, not_all_missing p os k later) refl
  | inr other ↦ rw other refl
]

-- If the script says of some copy of a message that it moved, then mail_undo takes the message for
-- one that may have left, whatever it says of the other copies and whatever the counts are.
pub move_answer-moved :
    (rose : Bool) (os : List Str)
    → some_of is_moved os ≡ true
    → is_undone (move_answer rose os) ≡ true
unfolding move_answer plain_left_source list_beq
move_answer-moved rose [] h = ground arith
move_answer-moved rose (o ∷ os) h =
    let there = not_all_missing is_moved (o ∷ os) refl h in
    let mixed = mixed_answer-done is_moved (codes "moved") (o ∷ os) h in
    elim (Bool-cases (every is_moved (o ∷ os))) [
      | inl all ↦
          rw (all, move_answer)
            (elim (Bool-cases rose) [ inl risen ↦ rw risen refl | inr flat ↦ rw flat refl ])
      | inr some_not ↦ rw (some_not, move_answer) (rw there mixed)
    ]

-- trash_mail keeps that rule with one exception, which is exact. If the script says of some copy that
-- it was deleted or is gone, then mail_undo leaves the message alone only where every copy was
-- deleted, some copy is not gone and the count of the Trash did not rise; a copy that is gone is not
-- undone either in that case.
pub trash_answer-deleted :
    (rose : Bool) (os : List Str)
    → some_of is_deleted os ≡ true
    → is_undone (trash_answer rose os)
      ≡ not (every is_deleted os && (not rose && not (every is_gone os)))
unfolding trash_answer plain_left_source list_beq
trash_answer-deleted rose [] h = ground arith
trash_answer-deleted rose (o ∷ os) h =
    let there = not_all_missing is_deleted (o ∷ os) refl h in
    let mixed = mixed_answer-done is_deleted (codes "deleted") (o ∷ os) h in
    elim (Bool-cases (every is_deleted (o ∷ os))) [
      | inl all ↦
          rw (all, trash_answer)
            (elim (Bool-cases rose) [
              | inl risen ↦ rw risen refl
              | inr flat ↦ rw flat (elim (Bool-cases (every is_gone (o ∷ os))) [
                | inl all_gone ↦ rw all_gone refl
                | inr not_all ↦ rw not_all refl
              ])
            ])
      | inr some_not ↦ rw (some_not, trash_answer) (rw there mixed)
    ]
