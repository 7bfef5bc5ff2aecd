-- ===== src/Photos/Tests.antt =====
-- Examples: a photo that is exported into a root with a dead staging directory.
use macos_apps_mcp.Base.{
  codes, ◌≡◌, refl, true, false, none, some, [], ◌∷◌, list_eq, nat_eq, list_beq, arith, select,
}
use macos_apps_mcp.Base.Dict.{lookup, insert}
use macos_apps_mcp.Base.Result.{ok}
use macos_apps_mcp.Base.Text.{starts_with, partition, strip, lstrip, is_space, split}
use macos_apps_mcp.Files.Disk.{
  check_size, staging, stage, sweep_dead_staging, sweep_onto, staging_pid, decimal_onto, pid_alive,
  remove_tree, publish, confirm_written, Place, file, directory, Disk, is_under, make_dirs,
  resolve_dest, free_path, target_path,
}
use macos_apps_mcp.Files.Disk.Contained.{Contained, target_path-Contained}
use macos_apps_mcp.Files.Disk.Sample.{root, os, insert_only}
use macos_apps_mcp.Files.Disk.Kept.{Kept-weaken, Kept}
use macos_apps_mcp.Files.Name.{
  take_bytes, bytes, truncate, after_last, guarded, component, safe_basename,
}
use macos_apps_mcp.Files.Name.Safe.{IsName}
use macos_apps_mcp.Base.Decimal.{padded, digits_within}
use macos_apps_mcp.Photos.Landed.{Landed, export-Landed}
use macos_apps_mcp.Photos.{
  Exported, written, export_source, export_into, accept, is_staged, Photo, Names, export,
}
use macos_apps_mcp.Photos.Kept.{WritesInside, own_under, Taken, export-Kept}

abbrev source : Place
source = codes "one.jpg" ∷ codes "Library" ∷ []

abbrev disk : Disk
disk =
    (source, file (1 ∷ 2 ∷ []))
    ∷ (root, directory 501 0o755)
    ∷ (codes ".macos-apps-mcp-export-9-abcdefgh" ∷ root, directory 501 0o700)
    ∷ []

abbrev photo : Photo
photo = record {
  is_movie = false;
  has_adjustments = false;
  path = some source;
  path_edited = none;
  original_filename = some (codes "one.jpg");
  is_live = true;
  stat_size = λ _ _. some 2;
  write = λ private name edited disk.
      (ok ((name ∷ private) ∷ []), insert (name ∷ private) (file (1 ∷ 2 ∷ [])) disk);
}

abbrev names : Names
names = record { stem = λ _. codes "one"; suffix = λ _. codes ".jpg" }

photo-WritesInside : WritesInside photo
photo-WritesInside private name edited disk =
    Kept-weaken (λ q. q ≡ name ∷ private) (λ q. is_under private q ≡ true) disk _
      (λ q e h same. rw same (own_under name private))
      (insert_only (name ∷ private) (file (1 ∷ 2 ∷ [])) disk)

export-Kept_example :
    Kept
      (Taken os names (codes "0123456789") photo (codes "") disk)
      disk
      (export os names (codes "0123456789") photo (codes "") disk).1
export-Kept_example =
    export-Kept os names (codes "0123456789") photo (codes "") disk photo-WritesInside

fallback-IsName : IsName os.is_dropped (codes "photo")
unfolding list_beq bytes
fallback-IsName = record {
  some_text = refl;
  visible = refl;
  allowed = (refl, (refl, (refl, (refl, (refl, tt)))));
  short = omega arith;
}

chosen :
    target_path os (codes "") (codes "../one.jpg") (codes "photo") disk
    ≡ (ok (codes "one.jpg" ∷ root), disk)
unfolding target_path resolve_dest free_path make_dirs is_under lookup safe_basename component
    after_last split select guarded truncate bytes strip lstrip is_space list_beq
chosen = refl

target_path-Contained_example : Contained os (codes "one.jpg" ∷ root) disk
target_path-Contained_example =
    target_path-Contained os (codes "") (codes "../one.jpg") (codes "photo") disk
      (codes "one.jpg" ∷ root) disk fallback-IsName chosen

abbrev exported : Disk
exported =
    (source, file (1 ∷ 2 ∷ []))
    ∷ (root, directory 501 0o755)
    ∷ (codes "one_01234567.jpg" ∷ root, file (1 ∷ 2 ∷ []))
    ∷ []

abbrev answer : Exported
answer = written (codes "one_01234567.jpg" ∷ root) 2 false true

-- The stale directory is swept, the photo is where it was asked for, and the rest is as it was.
sample_run : export os names (codes "0123456789") photo (codes "") disk ≡ (ok answer, exported)
unfolding export export_source export_into accept is_staged target_path resolve_dest free_path
    make_dirs is_under lookup insert safe_basename component after_last split select guarded
    truncate bytes take_bytes strip lstrip is_space list_beq check_size staging stage
    sweep_dead_staging sweep_onto staging_pid decimal_onto starts_with partition pid_alive
    remove_tree publish confirm_written padded digits_within
sample_run = refl

export-Landed_example : Landed os names answer exported
export-Landed_example =
    export-Landed os names (codes "0123456789") photo (codes "") disk answer exported
      fallback-IsName sample_run
