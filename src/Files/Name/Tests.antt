-- ===== src/Files/Name/Tests.antt =====
-- Hostile names.
use macos_apps_mcp.Base.{ℕ, Str, codes, ◌≡◌, refl, Bool, ltb, nat_eq, list_eq, list_beq, select}
use macos_apps_mcp.Base.Text.{strip, lstrip, is_space, split}
use macos_apps_mcp.Files.Name.{bytes, truncate, after_last, guarded, component, safe_basename}
use native.Mathlib.Omega.{arith}
use macos_apps_mcp.Files.Name.Safe.{IsName, safe_basename-IsName}

abbrev same : Str → Str
same s = s

abbrev is_control : ℕ → Bool
is_control c = ltb c 32

abbrev hostile : Str
hostile = codes "../../.ssh/.keys"

fallback-IsName : IsName is_control (codes "file")
unfolding list_beq bytes
fallback-IsName = record {
  some_text = refl;
  visible = refl;
  allowed = (refl, (refl, (refl, (refl, tt))));
  short = omega arith;
}

safe_basename-IsName_example :
    IsName is_control (safe_basename same is_control hostile (codes "file"))
safe_basename-IsName_example =
    safe_basename-IsName is_control same hostile (codes "file") fallback-IsName

hidden_shown : safe_basename same is_control hostile (codes "file") ≡ codes "_.keys"
unfolding safe_basename component after_last split select guarded truncate bytes strip lstrip
    is_space list_beq
hidden_shown = refl
