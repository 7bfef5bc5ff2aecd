-- ===== src/Registry/Gates.antt =====
-- What the views of an imported table say.
use macos_apps_mcp.Base.{Str, ◌≡◌, refl, true, List, [], ◌∷◌, arith, nat_eq, list_eq}
use macos_apps_mcp.Base.Dict.{keys}
use macos_apps_mcp.Base.Dict.Entries.{Entries}
use macos_apps_mcp.Base.Result.{ok}
use macos_apps_mcp.Tiers.{Launch, read_only}
use macos_apps_mcp.Registry.{Declaration, Tools, register_all}
use macos_apps_mcp.Registry.Views.{write_tools, audit_verbs}
use macos_apps_mcp.Registry.Add.{IsSound, register_all-IsTable}

module _ {S : Type 0} (lower : Str → Str) (l : Launch) where
  keys-audit_verbs :
      (tools : Tools S)
      → Entries (IsSound lower l) tools
      → keys (audit_verbs tools) ≡ write_tools tools
  unfolding audit_verbs write_tools
  keys-audit_verbs [] h = refl
  keys-audit_verbs ((n, r) ∷ tools) h = ground (arith, keys-audit_verbs tools h.1, h.0.verb)

  write_tools-nil :
      (tools : Tools S)
      → read_only lower l ≡ true
      → Entries (IsSound lower l) tools
      → write_tools tools ≡ []
  unfolding write_tools
  write_tools-nil [] ro h = refl
  write_tools-nil ((n, r) ∷ tools) ro h = ground (arith, write_tools-nil tools ro h.1, h.0.writable)

  -- After a successful import, the audit middleware's map of verbs has an entry for each
  -- registered write, in order, and for nothing else.
  pub import_audited :
      (ds : List (Declaration S)) (tools : Tools S)
      → register_all lower l ds [] ≡ ok tools
      → keys (audit_verbs tools) ≡ write_tools tools
  import_audited ds tools h =
      let t = register_all-IsTable lower l ds [] tools h (record { entries = tt; distinct = tt }) in
      keys-audit_verbs tools t.entries

  -- In read-only mode a successful import registers no write, whatever the declarations are.
  pub import_read_only :
      (ds : List (Declaration S)) (tools : Tools S)
      → register_all lower l ds [] ≡ ok tools
      → read_only lower l ≡ true
      → write_tools tools ≡ []
  import_read_only ds tools h ro =
      let t = register_all-IsTable lower l ds [] tools h (record { entries = tt; distinct = tt }) in
      write_tools-nil tools ro t.entries
