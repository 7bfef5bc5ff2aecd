-- ===== src/Files/Disk/Kept.antt =====
-- Lemmas on the entries that the calls of macos_apps_mcp/files.py keep on the disk.
use macos_apps_mcp.Base.{
  ◌≡◌, refl, ◌∙◌, Bool, true, false, not, ◌||◌, none, some, List, [], ◌∷◌, arith, if◌then◌else◌,
  inl, inr, ◌⊎◌, ◌==◌, nat_eq, list_eq, Bool-cases, Option-cases, select,
}
use macos_apps_mcp.Base.Dict.{lookup, insert, lookup-insert}
use macos_apps_mcp.Base.Equality.{beq_refl}
use macos_apps_mcp.Base.Effect.{Effect, resume}
use macos_apps_mcp.Base.Result.{Result, ok, err}
use macos_apps_mcp.Files.Disk.{
  FileError, Place, Entry, Disk, Os, is_under, remove_tree, is_stale, sweep_onto,
  sweep_dead_staging,
}

-- Whatever a disk has, but for some paths, another has too.
abbrev pub Kept : (Place → Type 0) → Disk → Disk → Type 0
Kept Lost disk after =
    (q : Place) (e : Entry) → lookup q disk ≡ some e → Lost q ⊎ (lookup q after ≡ some e)

abbrev pub Nothing : Place → Type 0
Nothing q = true ≡ false

pub lookup-select :
    (p : Place → Bool) (q : Place) (disk : Disk)
    → lookup q (select (λ ((r, e) : Place × Entry). p r) disk)
      ≡ (if p q then lookup q disk else none)
unfolding lookup select
lookup-select p q [] = ground arith
lookup-select p q ((r, e) ∷ disk) = elim (Bool-cases (r == q)) [
  | inl same ↦
      let path : r ≡ q = (list_eq.beq_iff r q).0 same in
      rw path (ground (arith, beq_refl q, lookup-select p q disk))
  | inr other ↦ ground (arith, other, lookup-select p q disk)
]

pub same_place : (p q : Place) → (p == q) ≡ true → p ≡ q
same_place p q h = (list_eq.beq_iff p q).0 h

insert-Kept :
    (path : Place) (e : Entry) (disk : Disk)
    → lookup path disk ≡ none
    → Kept Nothing disk (insert path e disk)
insert-Kept path e disk free q kept h = elim (Bool-cases (path == q)) [
  | inl same ↦
      let absent : lookup q disk ≡ none = rw (← same_place path q same) free in cc (absent, h)
  | inr other ↦
      let found = lookup-insert path q e disk in
      let found' : lookup q (insert path e disk) ≡ lookup q disk = rw other at (found) in
      inr (found' ∙ h)
]

pub Kept-trans :
    (Lost Lost' : Place → Type 0) (a b c : Disk)
    → Kept Lost a b
    → Kept Lost' b c
    → Kept (λ q. Lost q ⊎ Lost' q) a c
Kept-trans Lost Lost' a b c f g q e h = elim (f q e h) [
  | inl lost ↦ inl (inl lost)
  | inr there ↦ elim (g q e there) [ inl lost ↦ inl (inr lost) | inr kept ↦ inr kept ]
]

pub Kept-weaken :
    (Lost Lost' : Place → Type 0) (a b : Disk)
    → ((q : Place) (e : Entry) → lookup q a ≡ some e → Lost q → Lost' q)
    → Kept Lost a b
    → Kept Lost' a b
Kept-weaken Lost Lost' a b f g q e h = elim (g q e h) [
  | inl lost ↦ inl (f q e h lost)
  | inr kept ↦ inr kept
]

-- Nothing on the first disk is missing from the second.
abbrev pub AllKept : Disk → Disk → Type 0
AllKept a b = (q : Place) (e : Entry) → lookup q a ≡ some e → lookup q b ≡ some e

pub insert-AllKept :
    (path : Place) (e : Entry) (disk : Disk)
    → lookup path disk ≡ none
    → AllKept disk (insert path e disk)
insert-AllKept path e disk free q kept h = elim (insert-Kept path e disk free q kept h) [
  | inl never ↦ cc never
  | inr there ↦ there
]

pub Kept-AllKept : (a b : Disk) → Kept Nothing a b → AllKept a b
Kept-AllKept a b kept q e h = elim (kept q e h) [ inl never ↦ cc never | inr there ↦ there ]

-- A call that is followed by another loses what one of them may lose.
pub resume-Kept :
    {A B : Type 0} (Lost : Place → Type 0) (next : A → Effect Disk FileError B)
    (r : Result FileError A × Disk) (disk : Disk)
    → Kept Lost disk r.1
    → ((a : A) (d : Disk) → r ≡ (ok a, d) → Kept Lost d (next a d).1)
    → Kept Lost disk (resume next r).1
resume-Kept Lost next (ok a, d) disk first then_kept q e h = elim (first q e h) [
  | inl lost ↦ inl lost
  | inr there ↦ then_kept a d refl q e there
]
resume-Kept Lost next (err x, d) disk first then_kept q e h = first q e h

module _ (os : Os) where
  lookup-remove_tree :
      (path q : Place) (disk : Disk)
      → lookup q (remove_tree os path disk)
        ≡ (if not (is_under path q) || os.is_stuck q then lookup q disk else none)
  unfolding remove_tree
  lookup-remove_tree path q disk =
      lookup-select (λ r. not (is_under path r) || os.is_stuck r) q disk

  -- A tree that is removed takes only what is under it.
  pub remove_tree-Kept :
      (path : Place) (disk : Disk)
      → Kept (λ q. is_under path q ≡ true) disk (remove_tree os path disk)
  remove_tree-Kept path disk q e h = elim (Bool-cases (is_under path q)) [
    | inl under ↦ inl under
    | inr outside ↦
        let found = lookup-remove_tree path q disk in
        let found' : lookup q (remove_tree os path disk) ≡ lookup q disk = rw outside at (found) in
        inr (found' ∙ h)
  ]

  pub remove_tree_back :
      (path q : Place) (disk : Disk) (e : Entry)
      → lookup q (remove_tree os path disk) ≡ some e
      → lookup q disk ≡ some e
  remove_tree_back path q disk e h = ground (arith, h, lookup-remove_tree path q disk)

  -- What the sweep may take: what is under a stale staging directory of the disk.
  abbrev pub Swept : Place → Disk → Place → Type 0
  Swept parent disk q =
      (s : Place) × (is_stale os parent s (lookup s disk) ≡ true) × (is_under s q ≡ true)

  is_stale_back :
      (parent s : Place) (a b : Disk)
      → ((e : Entry) → lookup s b ≡ some e → lookup s a ≡ some e)
      → is_stale os parent s (lookup s b) ≡ true
      → is_stale os parent s (lookup s a) ≡ true
  is_stale_back parent s a b back h = elim (Option-cases (lookup s b)) [
    | inl absent ↦ ground (arith, h, absent)
    | inr (e, there) ↦ let stale = rw there at (h) in rw (back e there) stale
  ]

  sweep_onto-Kept :
      (parent : Place) (entries : List (Place × Entry)) (first disk : Disk)
      → ((q : Place) (e : Entry) → lookup q disk ≡ some e → lookup q first ≡ some e)
      → Kept (Swept parent first) disk (sweep_onto os parent entries disk)
  unfolding sweep_onto
  sweep_onto-Kept parent [] first disk back q e h = inr h
  sweep_onto-Kept parent ((s, _) ∷ entries) first disk back q e h =
      elim (Bool-cases (is_stale os parent s (lookup s disk))) [
        | inr not_ours ↦ rw not_ours (sweep_onto-Kept parent entries first disk back q e h)
        | inl stale ↦ rw stale (elim (remove_tree-Kept s disk q e h) [
          | inl under ↦ inl (s, is_stale_back parent s first disk (back s) stale, under)
          | inr there ↦
              sweep_onto-Kept parent entries first (remove_tree os s disk)
                (λ r d found. back r d (remove_tree_back s r disk d found)) q e there
        ])
      ]

  pub sweep_dead_staging-Kept :
      (parent : Place) (disk : Disk)
      → Kept (Swept parent disk) disk (sweep_dead_staging os parent disk)
  unfolding sweep_dead_staging
  sweep_dead_staging-Kept parent disk q e h = elim (Bool-cases (os.can_list parent)) [
    | inl listed ↦ rw listed (sweep_onto-Kept parent disk disk disk (λ r d found. found) q e h)
    | inr closed ↦ rw closed (inr h)
  ]
