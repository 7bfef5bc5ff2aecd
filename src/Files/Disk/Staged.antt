-- ===== src/Files/Disk/Staged.antt =====
-- Lemmas on `staging` and `confirm_written` of macos_apps_mcp/files.py.
use macos_apps_mcp.Base.{
  ◌≡◌, ◌∙◌, true, not, ◌||◌, none, arith, inl, inr, ◌⊎◌, ◌==◌, nat_eq, list_eq, Bool-cases,
  Option-cases,
}
use macos_apps_mcp.Base.Dict.{lookup, insert}
use macos_apps_mcp.Base.Effect.{Effect}
use macos_apps_mcp.Files.Disk.{
  Place, directory, Disk, FileError, Os, is_under, exists, sweep_dead_staging, private_in, within,
  stage, staging, confirm_written, parent_of, size_of,
}
use macos_apps_mcp.Files.Disk.Kept.{
  Kept, Kept-trans, same_place, insert-AllKept, remove_tree-Kept, Swept, sweep_dead_staging-Kept,
  lookup-select,
}
use macos_apps_mcp.Files.Disk.Made.{absent_of}

-- What is under a directory.
abbrev pub Under : Place → Place → Type 0
Under path q = is_under path q ≡ true

-- A call that may take away only what is under a directory.
abbrev pub Confined : {E : Type 0} {A : Type 0} → Place → Effect Disk E A → Type 0
Confined private act = (disk : Disk) → Kept (Under private) disk (act disk).1

module _ (os : Os) where
  within-Kept :
      {A : Type 0} (private : Place) (body : Place → Effect Disk FileError A) (disk : Disk)
      → Confined private (body private)
      → lookup private disk ≡ none
      → Kept (Under private) disk (within os private body disk).1
  within-Kept private body disk confined free q e h =
      let made = insert private (directory os.uid 0o700) disk in
      elim (confined made q e (insert-AllKept private (directory os.uid 0o700) disk free q e h)) [
        | inl under ↦ inl under
        | inr there ↦ remove_tree-Kept os private (body private made).1 q e there
      ]

  -- What a staging may take: what a dead process left in a staging directory, and what is under the
  -- new directory, where nothing was after the sweep.
  abbrev pub Staged : Place → Disk → Place → Type 0
  Staged parent disk q =
      let swept = sweep_dead_staging os parent disk in
      Swept os parent disk q
      ⊎ (Under (private_in os parent swept) q × (lookup (private_in os parent swept) swept ≡ none))

  stage-Kept :
      {A : Type 0} (parent : Place) (body : Place → Effect Disk FileError A) (disk : Disk)
      → Confined (private_in os parent disk) (body (private_in os parent disk))
      → Kept
          (λ q.
            Under (private_in os parent disk) q × (lookup (private_in os parent disk) disk ≡ none))
          disk
          (stage os parent body disk).1
  unfolding stage
  stage-Kept parent body disk confined q e h =
      let private = private_in os parent disk in
      elim (Bool-cases (exists private disk || not (os.can_make private))) [
        | inl refused ↦ rw (refused, stage) (inr h)
        | inr free ↦
            let free' : lookup private disk ≡ none =
              absent_of private disk (ground (arith, free)) in
            rw (free, stage)
              (elim (within-Kept private body disk confined free' q e h) [
                | inl under ↦ inl (under, free')
                | inr there ↦ inr there
              ])
      ]

  pub staging-Kept :
      {A : Type 0} (dest : Place) (body : Place → Effect Disk FileError A) (disk : Disk)
      → ((private : Place) → Confined private (body private))
      → Kept (Staged (parent_of dest) disk) disk (staging os dest body disk).1
  unfolding staging
  staging-Kept dest body disk confined =
      let parent = parent_of dest in
      let swept = sweep_dead_staging os parent disk in
      Kept-trans (Swept os parent disk)
        (λ q.
          Under (private_in os parent swept) q × (lookup (private_in os parent swept) swept ≡ none))
        disk swept (stage os parent body swept).1 (sweep_dead_staging-Kept os parent disk)
        (stage-Kept parent body swept (confined (private_in os parent swept)))

  pub confirm_written-Kept :
      (path : Place) (disk : Disk) → Kept (λ q. q ≡ path) disk (confirm_written os path disk).1
  unfolding confirm_written
  confirm_written-Kept path disk q e h =
      elim (Option-cases (size_of os (lookup (os.resolve disk path) disk))) [
        | inl gone ↦ rw (gone, confirm_written) (inr h)
        | inr (size, there) ↦ elim (Bool-cases (size == 0)) [
          | inr some_bytes ↦ rw (there, some_bytes, confirm_written) (inr h)
          | inl empty ↦
              rw (there, empty, confirm_written)
                (elim (Bool-cases (q == path)) [
                  | inl same ↦ inl (same_place q path same)
                  | inr other ↦
                      let found = lookup-select (λ r. not (r == path)) q disk in
                      let found = rw other at (found) in inr (found ∙ h)
                ])
        ]
      ]
