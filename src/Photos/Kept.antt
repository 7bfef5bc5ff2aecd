-- ===== src/Photos/Kept.antt =====
-- What an export keeps on the disk.
use macos_apps_mcp.Base.{
  ℕ, ◌≡◌, refl, ap, Str, codes, Bool, true, Option, none, some, List, [], ◌∷◌, arith, inl, inr,
  nat_eq, list_eq, Bool-cases,
}
use macos_apps_mcp.Base.Effect.{give, ◌>>>◌}
use macos_apps_mcp.Base.Equality.{beq_refl}
use macos_apps_mcp.Base.Result.{Result, ok, err}
use macos_apps_mcp.Files.Disk.{
  Place, Disk, Os, is_under, parent_of, name_of, target_path, staging, confirm_written, publish,
  check_size,
}
use macos_apps_mcp.Files.Disk.Kept.{resume-Kept, Kept, Kept-weaken}
use macos_apps_mcp.Files.Disk.Made.{target_path-AllKept, publish-AllKept}
use macos_apps_mcp.Files.Disk.Staged.{Confined, Staged, staging-Kept, Under, confirm_written-Kept}
use macos_apps_mcp.Photos.{
  Photo, Names, written, export_name, source_of, is_staged, accept, heard, export_into,
  export_source, export_sized, export_from, export, is_file, photo_max_bytes,
}

-- osxphotos writes only in the directory that it is given.
abbrev pub WritesInside : Photo → Type 0
WritesInside p =
    (private : Place) (name : Str) (edited : Bool) → Confined private (p.write private name edited)

self_under : (p : Place) → is_under p p ≡ true
unfolding is_under
self_under [] = beq_refl {A = Place} []
self_under (n ∷ p) = ground (arith, beq_refl {A = Place} (n ∷ p))

pub own_under : (name : Str) (private : Place) → is_under private (name ∷ private) ≡ true
unfolding is_under
own_under name private = ground (arith, self_under private)

module _ (os : Os) (names : Names) where
  accept-Confined :
      (name : Str) (private dest : Place) (reported : List Place)
      → Confined private (accept os names (name ∷ private) dest reported)
  unfolding accept
  accept-Confined name private dest reported disk =
      let staged = name ∷ private in
      elim (Bool-cases (is_staged os names disk reported staged)) [
        | inr elsewhere ↦ rw elsewhere (λ q e h. inr h)
        | inl here ↦ rw here (
            resume-Kept (Under private) _ (confirm_written os staged disk) disk
              (Kept-weaken (λ q. q ≡ staged) (Under private) disk (confirm_written os staged disk).1
                (λ q e h same. rw same (own_under name private))
                (confirm_written-Kept os staged disk))
              (λ (size : ℕ) (d : Disk) made.
                resume-Kept (Under private) _ (publish os staged dest d) d
                  (λ q e h. inr (publish-AllKept os staged dest d q e h))
                  (λ (u : Unit {0}) (d : Disk) made. λ q e h. inr h)))
      ]

  heard-Confined :
      (name : Str) (private dest : Place) (r : Result (Unit {0}) (List Place) × Disk) (disk : Disk)
      → Kept (Under private) disk r.1
      → Kept (Under private) disk (heard os names (name ∷ private) dest r).1
  heard-Confined name private dest (err u, d) disk kept = kept
  heard-Confined name private dest (ok reported, d) disk kept = λ q e h. elim (kept q e h) [
    | inl under ↦ inl under
    | inr there ↦ accept-Confined name private dest reported d q e there
  ]

  export_into-Confined :
      (p : Photo) (dest private : Place)
      → WritesInside p
      → Confined private (export_into os names p dest private)
  unfolding export_into
  export_into-Confined p dest private inside disk =
      heard-Confined (name_of dest) private dest
        (p.write private (name_of dest) p.has_adjustments disk) disk
        (inside private (name_of dest) p.has_adjustments disk)

  -- What an export may take: what staging takes in the directory of the target that was chosen.
  abbrev pub Taken : Str → Photo → Str → Disk → Place → Type 0
  Taken uuid p dest_dir disk q =
      (src : Place) × (dest : Place) × (d : Disk) × (source_of os names p ≡ some src)
      × (target_path os dest_dir (export_name os names uuid p src) (codes "photo") disk
          ≡ (ok dest, d))
      × Staged os (parent_of dest) d q

  chosen-Kept :
      (uuid : Str) (p : Photo) (dest_dir : Str) (src : Place) (disk : Disk)
      → WritesInside p
      → source_of os names p ≡ some src
      → Kept
          (Taken uuid p dest_dir disk)
          disk
          ((target_path os dest_dir (export_name os names uuid p src) (codes "photo") >>> λ dest.
              staging os dest (export_into os names p dest) >>> λ n.
              give (written dest n p.has_adjustments p.is_live))
            disk).1
  chosen-Kept uuid p dest_dir src disk inside known =
      let name = export_name os names uuid p src in
      let Lost = Taken uuid p dest_dir disk in
      resume-Kept Lost _ (target_path os dest_dir name (codes "photo") disk) disk
        (λ q e h. inr (target_path-AllKept os dest_dir name (codes "photo") disk q e h))
        (λ (dest : Place) (d : Disk) made.
          let body = export_into os names p dest in
          resume-Kept Lost _ (staging os dest body d) d
            (Kept-weaken (Staged os (parent_of dest) d) Lost d (staging os dest body d).1
              (λ q e h lost. (src, dest, d, known, made, lost))
              (staging-Kept os dest body d (λ private. export_into-Confined p dest private inside)))
            (λ (n : ℕ) (after : Disk) staged. λ q e h. inr h))

  export_source-Kept :
      (uuid : Str) (p : Photo) (dest_dir : Str) (src : Place) (size : ℕ) (disk : Disk)
      → WritesInside p
      → source_of os names p ≡ some src
      → Kept
          (Taken uuid p dest_dir disk)
          disk
          (export_source os names uuid p dest_dir src size disk).1
  unfolding export_source
  export_source-Kept uuid p dest_dir src size disk inside known =
      resume-Kept (Taken uuid p dest_dir disk) _ (check_size (some size) photo_max_bytes, disk) disk
        (λ q e h. inr h)
        (λ (u : Unit {0}) (d : Disk) made.
          let same : disk ≡ d = ap (λ r. r.1) made in
          rw (← same) (chosen-Kept uuid p dest_dir src disk inside known))

  export_sized-Kept :
      (uuid : Str) (p : Photo) (dest_dir : Str) (src : Place) (size : Option ℕ) (disk : Disk)
      → WritesInside p
      → source_of os names p ≡ some src
      → Kept
          (Taken uuid p dest_dir disk)
          disk
          (export_sized os names uuid p dest_dir src size disk).1
  export_sized-Kept uuid p dest_dir src none disk inside known = λ q e h. inr h
  export_sized-Kept uuid p dest_dir src (some size) disk inside known =
      export_source-Kept uuid p dest_dir src size disk inside known

  export_from-Kept :
      (uuid : Str) (p : Photo) (dest_dir : Str) (source : Option Place) (disk : Disk)
      → WritesInside p
      → source_of os names p ≡ source
      → Kept (Taken uuid p dest_dir disk) disk (export_from os names uuid p dest_dir source disk).1
  export_from-Kept uuid p dest_dir none disk inside known = λ q e h. inr h
  export_from-Kept uuid p dest_dir (some src) disk inside known =
      export_sized-Kept uuid p dest_dir src (p.stat_size src disk) disk inside known

  -- Whatever an export of a photo answers or raises, each file, link and directory that was on the disk
  -- is there unchanged, but for those that its staging takes: a staging directory of a dead process,
  -- which is the user's own and private, and what is under the new directory, where nothing was. It
  -- holds if osxphotos writes only in the directory that it is given.
  pub export-Kept :
      (uuid : Str) (p : Photo) (dest_dir : Str) (disk : Disk)
      → WritesInside p
      → Kept (Taken uuid p dest_dir disk) disk (export os names uuid p dest_dir disk).1
  unfolding export export_source export_into
  export-Kept uuid p dest_dir disk inside q e h = elim (Bool-cases p.is_movie) [
    | inl movie ↦ rw (movie, export) (inr h)
    | inr still ↦ elim (Bool-cases (is_file os names (source_of os names p) disk)) [
      | inr gone ↦ rw (still, gone, export) (inr h)
      | inl there ↦
          rw (still, there, export)
            (export_from-Kept uuid p dest_dir (source_of os names p) disk inside refl q e h)
    ]
  ]
