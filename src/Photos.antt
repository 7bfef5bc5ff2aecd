-- ===== src/Photos.antt =====
-- `PhotosAdapter.export` of macos_apps_mcp/adapters/photos.py, from the photo that is found on. What
-- osxphotos says of the photo, and its export, are an interface.
pub mod Kept
pub mod Landed
mod Tests
use macos_apps_mcp.Base.{
  ℕ, ◌+◌, ◌*◌, Str, codes, Bool, true, false, not, ◌&&◌, Option, none, some, List, [], ◌∷◌, ◌++◌,
  if◌then◌else◌, ◌==◌, nat_eq, list_eq, take, length,
}
use macos_apps_mcp.Base.Dict.{lookup}
use macos_apps_mcp.Base.Effect.{Effect, give, lift, resume, ◌>>>◌}
use macos_apps_mcp.Base.Result.{Result, ok, err}
use macos_apps_mcp.Files.Disk.{
  Place, Entry, file, symlink, directory, Disk, FileError, value_error, write_refused, native_error,
  verification_failed, Os, target_path, staging, publish, confirm_written, check_size, name_of,
  parent_of, size_of,
}
use macos_apps_mcp.Files.Name.{take_bytes}

-- `PHOTO_MAX_BYTES`
abbrev pub photo_max_bytes : ℕ
photo_max_bytes = 250 * 1024 * 1024

-- A photo of osxphotos.
pub record Photo : Type 0 where
  pub is_movie : Bool
  pub has_adjustments : Bool
  pub path : Option Place
  pub path_edited : Option Place
  pub original_filename : Option Str
  pub is_live : Bool
  -- The size that `os.stat` reports of the source; none if the file is gone.
  pub stat_size : Place → Disk → Option ℕ
  -- `export`: none if it raises, and else the paths that it reports.
  pub write : Place → Str → Bool → Effect Disk (Unit {0}) (List Place)

-- `Path(name).stem` and `Path(name).suffix`.
pub record Names : Type 0 where
  pub stem : Str → Str
  pub suffix : Str → Str

pub data Absent : Type 0 where
  not_on_disk render_pending : Absent

pub data Exported : Type 0 where
  absent : Absent → Exported
  -- The path, the number of bytes, whether it is the edited render, and whether motion was left out.
  written : Place → ℕ → Bool → Bool → Exported

module _ (os : Os) (names : Names) where
  abbrev pub is_regular : Option Entry → Bool
  is_regular none = false
  is_regular (some (file bytes)) = true
  is_regular (some symlink) = false
  is_regular (some (directory uid mode)) = false

  -- `path and os.path.isfile(path)`
  abbrev pub is_file : Option Place → Disk → Bool
  is_file none disk = false
  is_file (some path) disk = is_regular (lookup (os.resolve disk path) disk)

  abbrev pub source_of : Photo → Option Place
  source_of p = if p.has_adjustments then p.path_edited else p.path

  -- `p.original_filename or "photo"`
  abbrev pub original_of : Option Str → Str
  original_of none = codes "photo"
  original_of (some []) = codes "photo"
  original_of (some (c ∷ s)) = c ∷ s

  -- The name under which a photo is written.
  abbrev pub export_name : Str → Photo → Place → Str
  export_name uuid p src =
      take_bytes 150 (names.stem (original_of p.original_filename))
      ++ (b'_' ∷ (take 8 uuid ++ names.suffix (name_of src)))

  -- Whether osxphotos reported the staged path.
  unfoldable pub is_staged : Disk → List Place → Place → Bool
  is_staged disk [] staged = false
  is_staged disk (path ∷ paths) staged = os.resolve disk path == staged

  -- What follows the export, in the staging directory.
  unfoldable pub accept : Place → Place → List Place → Effect Disk FileError ℕ
  accept staged dest reported disk =
      if is_staged disk reported staged
      then (confirm_written os staged >>> λ size. publish os staged dest >>> λ _. give size) disk
      else (err verification_failed, disk)

  abbrev pub heard :
      Place → Place → Result (Unit {0}) (List Place) × Disk → Result FileError ℕ × Disk
  heard staged dest (err u, disk) = (err native_error, disk)
  heard staged dest (ok reported, disk) = accept staged dest reported disk

  -- The body of the `with` block.
  unfoldable pub export_into : Photo → Place → Place → Effect Disk FileError ℕ
  export_into p dest private disk =
      heard (name_of dest ∷ private) dest (p.write private (name_of dest) p.has_adjustments disk)

  -- From the source's size on.
  unfoldable pub export_source : Str → Photo → Str → Place → ℕ → Effect Disk FileError Exported
  export_source uuid p dest_dir src size = lift (check_size (some size) photo_max_bytes) >>> λ _.
      target_path os dest_dir (export_name uuid p src) (codes "photo") >>> λ dest.
      staging os dest (export_into p dest) >>> λ n.
      give (written dest n p.has_adjustments p.is_live)

  abbrev pub absent_of : Photo → Disk → Absent
  absent_of p disk =
      if p.has_adjustments && is_file p.path disk then render_pending else not_on_disk

  abbrev pub export_sized : Str → Photo → Str → Place → Option ℕ → Effect Disk FileError Exported
  export_sized uuid p dest_dir src none disk = (ok (absent not_on_disk), disk)
  export_sized uuid p dest_dir src (some size) disk = export_source uuid p dest_dir src size disk

  abbrev pub export_from : Str → Photo → Str → Option Place → Effect Disk FileError Exported
  export_from uuid p dest_dir none disk = (ok (absent (absent_of p disk)), disk)
  export_from uuid p dest_dir (some src) disk =
      export_sized uuid p dest_dir src (p.stat_size src disk) disk

  -- `export`
  unfoldable pub export : Str → Photo → Str → Effect Disk FileError Exported
  export uuid p dest_dir disk =
      if p.is_movie
      then (err write_refused, disk)
      else if not (is_file (source_of p) disk)
      then (ok (absent (absent_of p disk)), disk)
      else export_from uuid p dest_dir (source_of p) disk
