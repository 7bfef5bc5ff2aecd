-- ===== src/Files/Disk.antt =====
-- The writes of macos_apps_mcp/files.py: the destination, the staging directory and the publishing.
-- The calls of the operating system are on a disk of entries; which of them it refuses is a parameter.
pub mod Kept
pub mod Made
pub mod Contained
pub mod Staged
pub mod Sample
use macos_apps_mcp.Base.{
  ℕ, ◌+◌, ◌-◌, ◌*◌, Str, codes, Bool, true, false, not, ◌&&◌, ◌||◌, Option, none, some, List, [],
  ◌∷◌, ◌++◌, if◌then◌else◌, ◌==◌, nat_eq, list_eq, leb, ltb, length, drop, every, is_some, select,
}
use macos_apps_mcp.Base.Decimal.{padded}
use macos_apps_mcp.Base.Dict.{Dict, lookup, insert}
use macos_apps_mcp.Base.Effect.{Effect, give, lift, resume, ◌>>>◌}
use macos_apps_mcp.Base.Result.{Result, ok, err}
use macos_apps_mcp.Base.Text.{strip, starts_with, partition}
use macos_apps_mcp.Files.Name.{safe_basename}

-- An absolute path, its last component first.
abbrev pub Place : Type 0
Place = List Str

pub data Entry : Type 0 where
  file : List ℕ → Entry
  symlink : Entry
  -- The owner and the mode.
  directory : ℕ → ℕ → Entry

abbrev pub Disk : Type 0
Disk = Dict Place Entry

-- `ValueError`, `WriteRefused`, `NativeError`, `VerificationFailed`, and an `OSError` that is not caught.
pub data FileError : Type 0 where
  value_error write_refused native_error verification_failed os_error : FileError

-- What `os.kill(pid, 0)` does.
pub data Kill : Type 0 where
  delivered no_process not_permitted overflow : Kill

-- Of the system: `nfc` and `dropped` are those of Files/Name.
pub record Os : Type 0 where
  -- The root, expanded and resolved.
  pub base : Place
  -- A path that is given as text, with `~` expanded: if it is absolute, and its components.
  pub expand : Str → Bool × Place
  pub resolve : Disk → Place → Place
  pub can_make : Place → Bool
  pub can_list : Place → Bool
  pub can_link : Place → Place → Bool
  -- What rmtree does not get removed.
  pub is_stuck : Place → Bool
  pub kill : ℕ → Kill
  pub pid : ℕ
  pub uid : ℕ
  pub mode : ℕ
  -- The characters of the last name that mkdtemp tries.
  pub random : Disk → Str
  pub nfc : Str → Str
  pub is_dropped : ℕ → Bool

-- The path itself, or one below it.
unfoldable pub is_under : Place → Place → Bool
is_under base [] = base == []
is_under base (name ∷ parent) = base == (name ∷ parent) || is_under base parent

abbrev pub parent_of : Place → Place
parent_of [] = []
parent_of (name ∷ parent) = parent

abbrev pub name_of : Place → Str
name_of [] = []
name_of (name ∷ parent) = name

-- `os.path.lexists`
abbrev pub exists : Place → Disk → Bool
exists path disk = is_some (lookup path disk)

-- `_STAGING_PREFIX`
abbrev pub staging_prefix : Str
staging_prefix = codes ".macos-apps-mcp-export-"

abbrev pub is_ascii_digit : ℕ → Bool
is_ascii_digit c = leb b'0' c && leb c b'9'

abbrev pub is_suffix_letter : ℕ → Bool
is_suffix_letter c = (leb b'a' c && leb c b'z') || (is_ascii_digit c || c == b'_')

-- `int` of ASCII digits.
unfoldable pub decimal_onto : ℕ → Str → ℕ
decimal_onto n [] = n
decimal_onto n (c ∷ s) = decimal_onto (n * 10 + (c - b'0')) s

-- `_STAGING_NAME`: the pid in the name of a staging directory.
unfoldable pub staging_pid : Str → Option ℕ
staging_pid name =
    let (digits, found, suffix) = partition b'-' (drop (length staging_prefix) name) in
    if starts_with staging_prefix name
      && (found
          && (not (digits == [])
              && (every is_ascii_digit digits
                  && (length suffix == 8 && every is_suffix_letter suffix))))
    then some (decimal_onto 0 digits)
    else none

module _ (os : Os) where
  -- `mkdir` where an entry is, or none, after the parents have been made.
  abbrev pub make_here :
      Place
      → Option Entry
      → Result FileError (Unit {0}) × Disk
      → Disk
      → Result FileError (Unit {0}) × Disk
  make_here path (some (directory uid mode)) made disk = (ok tt, disk)
  make_here path (some (file bytes)) made disk = (err write_refused, disk)
  make_here path (some symlink) made disk = (err write_refused, disk)
  make_here path none (err e, after) disk = (err e, after)
  make_here path none (ok u, after) disk =
      if os.can_make path
      then (ok tt, insert path (directory os.uid os.mode) after)
      else (err write_refused, after)

  -- `mkdir(parents=True, exist_ok=True)`
  unfoldable pub make_dirs : Place → Effect Disk FileError (Unit {0})
  make_dirs [] disk = (ok tt, disk)
  make_dirs (name ∷ parent) disk =
      make_here (name ∷ parent) (lookup (name ∷ parent) disk) (make_dirs parent disk) disk

  -- The path that `dest_dir` names, before it is resolved.
  abbrev pub candidate : Str → Place
  candidate given =
      let (absolute, path) = os.expand given in
      if given == [] then os.base else if absolute then path else path ++ os.base

  -- `resolve_dest`
  unfoldable pub resolve_dest : Str → Effect Disk FileError Place
  resolve_dest dest_dir disk =
      let resolved = os.resolve disk (candidate (strip dest_dir)) in
      if is_under os.base resolved
      then resume (λ _. give resolved) (make_dirs resolved disk)
      else (err value_error, disk)

  -- The end of `target_path`, in a directory.
  unfoldable pub free_path : Str → Str → Place → Effect Disk FileError Place
  free_path name fallback parent disk =
      let path = safe_basename os.nfc os.is_dropped name fallback ∷ parent in
      if not (is_under parent path)
      then (err value_error, disk)
      else if exists path disk
      then (err write_refused, disk)
      else (ok path, disk)

  -- `target_path`
  unfoldable pub target_path : Str → Str → Str → Effect Disk FileError Place
  target_path dest_dir name fallback = resolve_dest dest_dir >>> free_path name fallback

  -- `_pid_alive`
  unfoldable pub pid_alive : ℕ → Bool
  pid_alive pid = leb pid 1 || elim (os.kill pid) [
    | delivered ↦ true
    | no_process ↦ false
    | not_permitted ↦ true
    | overflow ↦ true
  ]

  -- `shutil.rmtree`
  unfoldable pub remove_tree : Place → Disk → Disk
  remove_tree path disk =
      select (λ ((q, e) : Place × Entry). not (is_under path q) || os.is_stuck q) disk

  abbrev pub is_dead : Option ℕ → Bool
  is_dead none = false
  is_dead (some pid) = not (pid == os.pid) && not (pid_alive pid)

  abbrev pub is_private : Option Entry → Bool
  is_private none = false
  is_private (some (file bytes)) = false
  is_private (some symlink) = false
  is_private (some (directory uid mode)) = uid == os.uid && mode == 0o700

  -- A staging directory that a killed process left.
  abbrev pub is_stale : Place → Place → Option Entry → Bool
  is_stale parent path entry =
      (parent_of path == parent && not (path == []))
      && (is_dead (staging_pid (name_of path)) && is_private entry)

  unfoldable pub sweep_onto : Place → List (Place × Entry) → Disk → Disk
  sweep_onto parent [] disk = disk
  sweep_onto parent ((path, e) ∷ entries) disk =
      let swept = if is_stale parent path (lookup path disk) then remove_tree path disk else disk in
      sweep_onto parent entries swept

  -- `_sweep_dead_staging`
  unfoldable pub sweep_dead_staging : Place → Disk → Disk
  sweep_dead_staging parent disk = if os.can_list parent then sweep_onto parent disk disk else disk

  -- The directory that mkdtemp makes.
  abbrev pub private_in : Place → Disk → Place
  private_in parent disk = (staging_prefix ++ (padded 1 os.pid ++ (b'-' ∷ os.random disk))) ∷ parent

  module _ {A : Type 0} where
    -- The body of a `with staging(dest)`, and what follows it.
    abbrev pub within : Place → (Place → Effect Disk FileError A) → Effect Disk FileError A
    within private body disk =
        let (result, after) = body private (insert private (directory os.uid 0o700) disk) in
        (result, remove_tree private after)

    -- `staging`, on a disk that has been swept.
    unfoldable pub stage : Place → (Place → Effect Disk FileError A) → Effect Disk FileError A
    stage parent body disk =
        let private = private_in parent disk in
        if exists private disk || not (os.can_make private)
        then (err native_error, disk)
        else within private body disk

    -- `staging`
    unfoldable pub staging : Place → (Place → Effect Disk FileError A) → Effect Disk FileError A
    staging dest body disk = stage (parent_of dest) body (sweep_dead_staging (parent_of dest) disk)

  -- `publish`
  unfoldable pub publish : Place → Place → Effect Disk FileError (Unit {0})
  publish staged dest disk =
      if exists dest disk then (err write_refused, disk) else elim (lookup staged disk) [
        | none ↦ (err native_error, disk)
        | some e ↦
            if os.can_link staged dest
            then (ok tt, insert dest e disk)
            else (err native_error, disk)
      ]

  -- `path.stat().st_size`, of a file.
  abbrev pub size_of : Option Entry → Option ℕ
  size_of none = none
  size_of (some (file bytes)) = some (length bytes)
  size_of (some symlink) = none
  size_of (some (directory uid mode)) = some 64

  abbrev pub without : Place → Disk → Disk
  without path disk = select (λ ((q, e) : Place × Entry). not (q == path)) disk

  -- `confirm_written`
  unfoldable pub confirm_written : Place → Effect Disk FileError ℕ
  confirm_written path disk = elim (size_of (lookup (os.resolve disk path) disk)) [
    | none ↦ (err os_error, disk)
    | some size ↦ if size == 0 then (err value_error, without path disk) else (ok size, disk)
  ]

-- `check_size`
unfoldable pub check_size : Option ℕ → ℕ → Result FileError (Unit {0})
check_size none max_bytes = ok tt
check_size (some size) max_bytes = if ltb max_bytes size then err value_error else ok tt
