-- ===== src/Photos/Landed.antt =====
-- Lemmas on what `export` of macos_apps_mcp/adapters/photos.py leaves at the destination.
use macos_apps_mcp.Base.{
  ℕ, ◌<◌, ◌≡◌, refl, ap, ◌∙◌, Str, codes, true, false, not, ◌||◌, Option, none, some, List, [], ◌∷◌,
  arith, inl, inr, ◌==◌, nat_eq, list_eq, length, Bool-cases, Option-cases, if◌then◌else◌,
}
use macos_apps_mcp.Base.Dict.{lookup, insert, lookup-insert}
use macos_apps_mcp.Base.Equality.{beq_refl}
use macos_apps_mcp.Base.Effect.{Effect}
use macos_apps_mcp.Base.Result.{Result, ok, err}
use macos_apps_mcp.Files.Disk.{
  Place, Entry, Disk, FileError, Os, is_under, exists, name_of, publish, remove_tree, private_in,
  stage, staging, sweep_dead_staging, directory, confirm_written, check_size, target_path,
}
use macos_apps_mcp.Files.Disk.Kept.{same_place, remove_tree-Kept}
use macos_apps_mcp.Files.Disk.Contained.{resume_ok, answer_inj, target_path-Contained}
use macos_apps_mcp.Files.Name.{hides}
use macos_apps_mcp.Files.Name.Safe.{IsName}
use macos_apps_mcp.Photos.{
  Photo, Names, is_staged, accept, heard, export_into, Exported, written, absent, Absent,
  not_on_disk, export_name, photo_max_bytes, export_source, export_sized, export_from, export,
  absent_of, is_file, source_of,
}

-- Nothing is below a longer path.
not_under_longer : (p q : Place) → length q < length p → is_under p q ≡ false
unfolding is_under
not_under_longer p [] h = elim (Bool-cases (p == [])) [
  | inr other ↦ other
  | inl same ↦
      let lengths : length p ≡ 0 = ap length (same_place p [] same) in ground (arith, lengths, h)
]
not_under_longer p (n ∷ q) h = elim (Bool-cases (p == (n ∷ q))) [
  | inr other ↦ ground (arith, other, not_under_longer p q (omega (arith, h)))
  | inl same ↦
      let lengths : length p ≡ length (n ∷ q) = ap length (same_place p (n ∷ q) same) in
      ground (arith, lengths, h)
]

-- A file with a name that does not begin with a dot is not in the staging directory beside it.
visible_outside :
    (os : Os) (name : Str) (parent : Place) (disk : Disk)
    → hides name ≡ false
    → is_under (private_in os parent disk) (name ∷ parent) ≡ false
unfolding is_under
visible_outside os name parent disk visible =
    let private = private_in os parent disk in
    elim (Bool-cases (private == (name ∷ parent))) [
      | inr other ↦ ground (arith, other, not_under_longer private parent (omega arith))
      | inl same ↦
          let names : name_of private ≡ name =
            ap name_of (same_place private (name ∷ parent) same) in
          let hidden : true ≡ hides name = ap hides names in ground (arith, hidden, visible)
    ]

module _ (os : Os) where
  -- What is published is at its destination.
  publish_there :
      (staged dest : Place) (disk : Disk) (u : Unit {0}) (after : Disk)
      → publish os staged dest disk ≡ (ok u, after)
      → (e : Entry) × (lookup dest after ≡ some e)
  unfolding publish
  publish_there staged dest disk u after h = elim (Bool-cases (exists dest disk)) [
    | inl taken ↦ let h = rw taken at (h) in ground (arith, h)
    | inr free ↦ elim (Option-cases (lookup staged disk)) [
      | inl gone ↦ let h = rw (free, gone) at (h) in ground (arith, h)
      | inr (e, there) ↦ elim (Bool-cases (os.can_link staged dest)) [
        | inr refused ↦ let h = rw (free, there, refused) at (h) in ground (arith, h)
        | inl linked ↦
            let h = rw (free, there, linked) at (h) in
            let (same, on) = answer_inj tt u (insert dest e disk) after _ h refl in
            (
              e,
              rw (← on) (
                  lookup-insert dest dest e disk
                  ∙ ap (λ b. if b then some e else lookup dest disk) (beq_refl dest)),
            )
      ]
    ]
  ]

  staging_there :
      {A : Type 0} (name : Str) (parent : Place) (body : Place → Effect Disk FileError A)
      (disk : Disk) (a : A) (after : Disk)
      → hides name ≡ false
      → ((private : Place) (before d : Disk)
          → body private before ≡ (ok a, d)
          → (e : Entry) × (lookup (name ∷ parent) d ≡ some e))
      → staging os (name ∷ parent) body disk ≡ (ok a, after)
      → (e : Entry) × (lookup (name ∷ parent) after ≡ some e)
  unfolding staging stage
  staging_there name parent body disk a after visible wrote h =
      let swept = sweep_dead_staging os parent disk in
      let private = private_in os parent swept in
      elim (Bool-cases (exists private swept || not (os.can_make private))) [
        | inl refused ↦ let h = rw refused at (h) in ground (arith, h)
        | inr free ↦
            let h = rw free at (h) in
            let made = insert private (directory os.uid 0o700) swept in
            let done : (body private made).0 ≡ ok a = ap (λ r. r.0) h in
            let left : remove_tree os private (body private made).1 ≡ after = ap (λ r. r.1) h in
            let (e, there) =
              wrote private made (body private made).1 (λ i. (done i, (body private made).1)) in
            (
              e,
              rw (← left)
                  (elim (remove_tree-Kept os private (body private made).1 (name ∷ parent) e
                    there) [
                      | inr kept ↦ kept
                      | inl under ↦
                          let outside = visible_outside os name parent swept visible in
                          ground (arith, under, outside)
                    ]),
            )
      ]

  module _ (names : Names) where
    accept_there :
        (staged dest : Place) (reported : List Place) (disk : Disk) (n : ℕ) (after : Disk)
        → accept os names staged dest reported disk ≡ (ok n, after)
        → (e : Entry) × (lookup dest after ≡ some e)
    unfolding accept
    accept_there staged dest reported disk n after h =
        elim (Bool-cases (is_staged os names disk reported staged)) [
          | inr elsewhere ↦ let h = rw elsewhere at (h) in ground (arith, h)
          | inl here ↦
              let h = rw here at (h) in
              let (size, d, confirmed, h) =
                resume_ok _ (confirm_written os staged disk) n after h in
              let (u, d', published, h) = resume_ok _ (publish os staged dest d) n after h in
              let (same, on) = answer_inj size n d' after _ h refl in
              rw (← on) (publish_there staged dest d u d' published)
        ]

    heard_there :
        (staged dest : Place) (r : Result (Unit {0}) (List Place) × Disk) (n : ℕ) (after : Disk)
        → heard os names staged dest r ≡ (ok n, after)
        → (e : Entry) × (lookup dest after ≡ some e)
    heard_there staged dest (err u, d) n after h = ground (arith, h)
    heard_there staged dest (ok reported, d) n after h =
        accept_there staged dest reported d n after h

    export_into_there :
        (p : Photo) (dest private : Place) (disk : Disk) (n : ℕ) (after : Disk)
        → export_into os names p dest private disk ≡ (ok n, after)
        → (e : Entry) × (lookup dest after ≡ some e)
    unfolding export_into
    export_into_there p dest private disk n after h =
        heard_there (name_of dest ∷ private) dest _ n after h

    staged_there :
        (p : Photo) (dest : Place) (disk : Disk) (n : ℕ) (after : Disk)
        → IsName os.is_dropped (name_of dest)
        → staging os dest (export_into os names p dest) disk ≡ (ok n, after)
        → (e : Entry) × (lookup dest after ≡ some e)
    staged_there p [] disk n after named h = ground (arith, named.some_text, beq_refl {A = Str} [])
    staged_there p (name ∷ parent) disk n after named h =
        staging_there name parent (export_into os names p (name ∷ parent)) disk n after
          named.visible (λ private before d. export_into_there p (name ∷ parent) private before n d)
          h

    -- What a written photo promises of the disk.
    abbrev pub Landed : Exported → Disk → Type 0
    Landed (absent why) after = Unit
    Landed (written dest n edited live) after =
        IsName os.is_dropped (name_of dest)
        × (is_under os.base dest ≡ true)
        × (e : Entry) × (lookup dest after ≡ some e)

    moved : (x y : Exported) (a b : Disk) → x ≡ y → a ≡ b → Landed x a → Landed y b
    moved x y a b same on landed = rw (← same, ← on) landed

    export_source-Landed :
        (uuid : Str) (p : Photo) (dest_dir : Str) (src : Place) (size : ℕ) (disk : Disk)
        (x : Exported) (after : Disk)
        → IsName os.is_dropped (codes "photo")
        → export_source os names uuid p dest_dir src size disk ≡ (ok x, after)
        → Landed x after
    unfolding export_source
    export_source-Landed uuid p dest_dir src size disk x after safe h =
        let name = export_name os names uuid p src in
        let (u, d, small, h) =
          resume_ok _ (check_size (some size) photo_max_bytes, disk) x after h in
        let (dest, d', chosen, h) =
          resume_ok _ (target_path os dest_dir name (codes "photo") d) x after h in
        let (n, d'', exported, h) =
          resume_ok _ (staging os dest (export_into os names p dest) d') x after h in
        let (same, on) =
          answer_inj (written dest n p.has_adjustments p.is_live) x d'' after _ h refl in
        let fits = target_path-Contained os dest_dir name (codes "photo") d dest d' safe chosen in
        let (e, there) = staged_there p dest d' n d'' fits.named exported in
        moved (written dest n p.has_adjustments p.is_live) x d'' after same on
          (fits.named, fits.inside, e, there)

    absent-Landed :
        (why : Absent) (disk : Disk) (x : Exported) (after : Disk)
        → ◌≡◌ {A = Result FileError Exported × Disk} (ok (absent why), disk) (ok x, after)
        → Landed x after
    absent-Landed why disk x after h =
        let (same, on) = answer_inj (absent why) x disk after _ h refl in rw (← same) tt

    export_sized-Landed :
        (uuid : Str) (p : Photo) (dest_dir : Str) (src : Place) (size : Option ℕ) (disk : Disk)
        (x : Exported) (after : Disk)
        → IsName os.is_dropped (codes "photo")
        → export_sized os names uuid p dest_dir src size disk ≡ (ok x, after)
        → Landed x after
    export_sized-Landed uuid p dest_dir src none disk x after safe h =
        absent-Landed not_on_disk disk x after h
    export_sized-Landed uuid p dest_dir src (some size) disk x after safe h =
        export_source-Landed uuid p dest_dir src size disk x after safe h

    export_from-Landed :
        (uuid : Str) (p : Photo) (dest_dir : Str) (source : Option Place) (disk : Disk)
        (x : Exported) (after : Disk)
        → IsName os.is_dropped (codes "photo")
        → export_from os names uuid p dest_dir source disk ≡ (ok x, after)
        → Landed x after
    export_from-Landed uuid p dest_dir none disk x after safe h =
        absent-Landed (absent_of os names p disk) disk x after h
    export_from-Landed uuid p dest_dir (some src) disk x after safe h =
        export_sized-Landed uuid p dest_dir src (p.stat_size src disk) disk x after safe h

    -- If an export answers that the photo is written, then after it, with its staging directory removed,
    -- something is at the reported path, the path is inside the resolved root, and its name is one safe
    -- component. It holds if `photo`, the name that is taken where the photo's own is empty, is safe.
    pub export-Landed :
        (uuid : Str) (p : Photo) (dest_dir : Str) (disk : Disk) (x : Exported) (after : Disk)
        → IsName os.is_dropped (codes "photo")
        → export os names uuid p dest_dir disk ≡ (ok x, after)
        → Landed x after
    unfolding export
    export-Landed uuid p dest_dir disk x after safe h = elim (Bool-cases p.is_movie) [
      | inl movie ↦ let h = simp (movie) at (h) in ground (arith, h)
      | inr still ↦ elim (Bool-cases (is_file os names (source_of os names p) disk)) [
        | inr gone ↦
            let h = simp (still, gone) at (h) in
            absent-Landed (absent_of os names p disk) disk x after h
        | inl there ↦
            let h = simp (still, there) at (h) in
            export_from-Landed uuid p dest_dir (source_of os names p) disk x after safe h
      ]
    ]
