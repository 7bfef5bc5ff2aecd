-- ===== src/Files/Disk/Made.antt =====
-- Lemmas on making directories, choosing a path and publishing a file, of macos_apps_mcp/files.py.
use macos_apps_mcp.Base.{
  ◌≡◌, refl, ◌∙◌, ap, Str, false, Option, none, some, [], ◌∷◌, arith, inl, inr, ◌==◌, nat_eq,
  list_eq, length, ◌<◌, Bool-cases, Option-cases,
}
use macos_apps_mcp.Base.Dict.{lookup, lookup-insert}
use macos_apps_mcp.Base.Effect.{Effect, resume}
use macos_apps_mcp.Base.Result.{Result, ok, err}
use macos_apps_mcp.Base.Text.{strip}
use macos_apps_mcp.Files.Disk.{
  Place, Entry, file, symlink, directory, Disk, FileError, Os, is_under, exists, make_here,
  make_dirs, resolve_dest, free_path, target_path, publish, candidate,
}
use macos_apps_mcp.Files.Disk.Kept.{AllKept, same_place, insert-AllKept}

pub absent_of : (q : Place) (disk : Disk) → exists q disk ≡ false → lookup q disk ≡ none
absent_of q disk h = elim (Option-cases (lookup q disk)) [
  | inl gone ↦ gone
  | inr (e, there) ↦ let found = rw there at (h) in ground (arith, found)
]

module _ (os : Os) where
  lookup-make_here :
      (path q : Place) (there : Option Entry) (made : Result FileError (Unit {0}) × Disk)
      (disk : Disk)
      → (path == q) ≡ false
      → lookup q made.1 ≡ lookup q disk
      → lookup q (make_here os path there made disk).1 ≡ lookup q disk
  lookup-make_here path q (some (directory uid mode)) made disk other same = refl
  lookup-make_here path q (some (file bytes)) made disk other same = refl
  lookup-make_here path q (some symlink) made disk other same = refl
  lookup-make_here path q none (err e, after) disk other same = same
  lookup-make_here path q none (ok u, after) disk other same =
      let found = lookup-insert path q (directory os.uid os.mode) after in
      let found = rw other at (found) in
      elim (Bool-cases (os.can_make path)) [
        | inl made ↦ rw made (found ∙ same)
        | inr refused ↦ rw refused same
      ]

  longer_other : (p q : Place) → length p < length q → (p == q) ≡ false
  longer_other p q h = elim (Bool-cases (p == q)) [
    | inr other ↦ other
    | inl same ↦
        let lengths : length p ≡ length q = ap length (same_place p q same) in
        ground (arith, lengths, h)
  ]

  make_dirs_longer :
      (path q : Place) (disk : Disk)
      → length path < length q
      → lookup q (make_dirs os path disk).1 ≡ lookup q disk
  unfolding make_dirs
  make_dirs_longer [] q disk h = refl
  make_dirs_longer (name ∷ parent) q disk h =
      lookup-make_here (name ∷ parent) q (lookup (name ∷ parent) disk) (make_dirs os parent disk)
        disk (longer_other (name ∷ parent) q h) (make_dirs_longer parent q disk (omega (arith, h)))

  make_here-AllKept :
      (path : Place) (there : Option Entry) (made : Result FileError (Unit {0}) × Disk)
      (disk : Disk)
      → lookup path disk ≡ there
      → lookup path made.1 ≡ lookup path disk
      → AllKept disk made.1
      → AllKept disk (make_here os path there made disk).1
  make_here-AllKept path (some (directory uid mode)) made disk at_path same kept q e h = h
  make_here-AllKept path (some (file bytes)) made disk at_path same kept q e h = h
  make_here-AllKept path (some symlink) made disk at_path same kept q e h = h
  make_here-AllKept path none (err x, after) disk at_path same kept q e h = kept q e h
  make_here-AllKept path none (ok u, after) disk at_path same kept q e h =
      elim (Bool-cases (os.can_make path)) [
        | inl made ↦
            rw made (
              insert-AllKept path (directory os.uid os.mode) after (same ∙ at_path) q e
                (kept q e h))
        | inr refused ↦ rw refused (kept q e h)
      ]

  pub make_dirs-AllKept : (path : Place) (disk : Disk) → AllKept disk (make_dirs os path disk).1
  unfolding make_dirs
  make_dirs-AllKept [] disk = λ q e h. h
  make_dirs-AllKept (name ∷ parent) disk =
      make_here-AllKept (name ∷ parent) (lookup (name ∷ parent) disk) (make_dirs os parent disk)
        disk refl (make_dirs_longer parent (name ∷ parent) disk (omega arith))
        (make_dirs-AllKept parent disk)

  -- A call that is followed by another keeps what both keep.
  pub resume-AllKept :
      {A B : Type 0} (next : A → Effect Disk FileError B) (r : Result FileError A × Disk)
      (disk : Disk)
      → AllKept disk r.1
      → ((a : A) (d : Disk) → AllKept d (next a d).1)
      → AllKept disk (resume next r).1
  resume-AllKept next (ok a, d) disk first then_kept q e h = then_kept a d q e (first q e h)
  resume-AllKept next (err x, d) disk first then_kept q e h = first q e h

  resolve_dest-AllKept :
      (dest_dir : Str) (disk : Disk) → AllKept disk (resolve_dest os dest_dir disk).1
  unfolding resolve_dest
  resolve_dest-AllKept dest_dir disk =
      let resolved = os.resolve disk (candidate os (strip dest_dir)) in
      elim (Bool-cases (is_under os.base resolved)) [
        | inl inside ↦ rw inside (
            resume-AllKept _ (make_dirs os resolved disk) disk (make_dirs-AllKept resolved disk)
              (λ (u : Unit {0}) (d : Disk). λ q e h. h))
        | inr outside ↦ rw outside (λ q e h. h)
      ]

  free_path-AllKept :
      (name fallback : Str) (parent : Place) (disk : Disk)
      → AllKept disk (free_path os name fallback parent disk).1
  unfolding free_path
  free_path-AllKept name fallback parent disk q e h = ground (arith, h)

  pub target_path-AllKept :
      (dest_dir name fallback : Str) (disk : Disk)
      → AllKept disk (target_path os dest_dir name fallback disk).1
  unfolding target_path
  target_path-AllKept dest_dir name fallback disk =
      resume-AllKept (free_path os name fallback) (resolve_dest os dest_dir disk) disk
        (resolve_dest-AllKept dest_dir disk) (free_path-AllKept name fallback)

  pub publish-AllKept :
      (staged dest : Place) (disk : Disk) → AllKept disk (publish os staged dest disk).1
  unfolding publish
  publish-AllKept staged dest disk q e h = elim (Bool-cases (exists dest disk)) [
    | inl taken ↦ rw (taken, publish) h
    | inr free ↦ elim (Option-cases (lookup staged disk)) [
      | inl gone ↦ rw (free, gone, publish) h
      | inr (x, there) ↦ elim (Bool-cases (os.can_link staged dest)) [
        | inl linked ↦
            rw (free, there, linked, publish)
              (insert-AllKept dest x disk (absent_of dest disk free) q e h)
        | inr refused ↦ rw (free, there, refused, publish) h
      ]
    ]
  ]
