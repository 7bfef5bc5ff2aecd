-- ===== src/Files/Disk/Contained.antt =====
-- Lemmas on the path that `target_path` of macos_apps_mcp/files.py chooses.
use macos_apps_mcp.Base.{
  ◌≡◌, refl, sym, ap, ◌∙◌, Str, true, false, none, ◌∷◌, arith, inl, inr, nat_eq, list_eq,
  Bool-cases,
}
use macos_apps_mcp.Base.Dict.{lookup}
use macos_apps_mcp.Base.Effect.{Effect, resume}
use macos_apps_mcp.Base.Result.{Result, ok, err}
use macos_apps_mcp.Base.Text.{strip}
use macos_apps_mcp.Files.Disk.{
  Place, Disk, FileError, Os, is_under, exists, make_dirs, resolve_dest, free_path, target_path,
  name_of, candidate,
}
use macos_apps_mcp.Files.Disk.Made.{absent_of}
use macos_apps_mcp.Files.Name.{safe_basename}
use macos_apps_mcp.Files.Name.Safe.{IsName, safe_basename-IsName}

-- Inversion of a call that is followed by another.
pub resume_ok :
    {A B : Type 0} (next : A → Effect Disk FileError B) (r : Result FileError A × Disk) (b : B)
    (after : Disk)
    → resume next r ≡ (ok b, after)
    → (a : A) × (d : Disk) × (r ≡ (ok a, d)) × (next a d ≡ (ok b, after))
resume_ok next (ok a, d) b after h = (a, d, refl, h)
resume_ok next (err e, d) b after h = ground (arith, h)

pub answer_inj :
    {A : Type 0} (a b : A) (d after : Disk) (r : Result FileError A × Disk)
    → r ≡ (ok b, after)
    → r ≡ (ok a, d)
    → (a ≡ b) × (d ≡ after)
answer_inj a b d after r h made =
    let both = sym made ∙ h in
    let answers : ◌≡◌ {A = Result FileError _} (ok a) (ok b) = ap (λ r. r.0) both in
    (cc answers, ap (λ r. r.1) both)

-- A path that a file may be written to: inside the root, with a safe name, and free.
pub record Contained (os : Os) (path : Place) (disk : Disk) : Type 0 where
  pub inside : is_under os.base path ≡ true
  pub named : IsName os.is_dropped (name_of path)
  pub free : lookup path disk ≡ none

module _ (os : Os) where
  resolve_dest_inside :
      (dest_dir : Str) (disk : Disk) (parent : Place) (after : Disk)
      → resolve_dest os dest_dir disk ≡ (ok parent, after)
      → is_under os.base parent ≡ true
  unfolding resolve_dest
  resolve_dest_inside dest_dir disk parent after h =
      let resolved = os.resolve disk (candidate os (strip dest_dir)) in
      elim (Bool-cases (is_under os.base resolved)) [
        | inl inside ↦
            let h' = rw inside at (h) in
            let (u, d, made, given) = resume_ok _ (make_dirs os resolved disk) parent after h' in
            let (same, u') = answer_inj resolved parent d after _ given refl in rw (← same) inside
        | inr outside ↦ let h' = rw outside at (h) in ground (arith, h')
      ]

  free_path_free :
      (name fallback : Str) (parent path : Place) (disk after : Disk)
      → free_path os name fallback parent disk ≡ (ok path, after)
      → (path ≡ safe_basename os.nfc os.is_dropped name fallback ∷ parent)
        × (exists path after ≡ false)
  unfolding free_path
  free_path_free name fallback parent path disk after h =
      let chosen = safe_basename os.nfc os.is_dropped name fallback ∷ parent in
      elim (Bool-cases (is_under parent chosen)) [
        | inr outside ↦ let h' = rw outside at (h) in ground (arith, h')
        | inl inside ↦ elim (Bool-cases (exists chosen disk)) [
          | inl taken ↦ let h' = rw (inside, taken) at (h) in ground (arith, h')
          | inr free ↦
              let h' = rw (inside, free) at (h) in
              let (same, on) = answer_inj chosen path disk after _ h' refl in
              (sym same, rw (← same, ← on) free)
        ]
      ]

  under_parent :
      (base parent : Place) (name : Str)
      → is_under base parent ≡ true
      → is_under base (name ∷ parent) ≡ true
  unfolding is_under
  under_parent base parent name h = ground (arith, h)

  pub target_path_free :
      (dest_dir name fallback : Str) (disk : Disk) (path : Place) (after : Disk)
      → target_path os dest_dir name fallback disk ≡ (ok path, after)
      → lookup path after ≡ none
  unfolding target_path
  target_path_free dest_dir name fallback disk path after h =
      let (parent, d, found, chosen) =
        resume_ok (free_path os name fallback) (resolve_dest os dest_dir disk) path after h in
      absent_of path after (free_path_free name fallback parent path d after chosen).1

  -- If target_path answers with a path, and the fallback is a safe name, the path is inside the resolved
  -- root, its last component is a safe name, and nothing is there, not even a link.
  pub target_path-Contained :
      (dest_dir name fallback : Str) (disk : Disk) (path : Place) (after : Disk)
      → IsName os.is_dropped fallback
      → target_path os dest_dir name fallback disk ≡ (ok path, after)
      → Contained os path after
  unfolding target_path
  target_path-Contained dest_dir name fallback disk path after safe h =
      let (parent, d, found, chosen) =
        resume_ok (free_path os name fallback) (resolve_dest os dest_dir disk) path after h in
      let (same, free) = free_path_free name fallback parent path d after chosen in
      let named = safe_basename-IsName os.is_dropped os.nfc name fallback safe in
      record {
        inside =
            rw same
              (under_parent os.base parent _ (resolve_dest_inside dest_dir disk parent d found));
        named = rw same named;
        free = absent_of path after free;
      }
