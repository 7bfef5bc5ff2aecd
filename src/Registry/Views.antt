-- ===== src/Registry/Views.antt =====
-- The views that registry.py derives from `TOOLS`.
use macos_apps_mcp.Base.{
  Str, codes, Bool, true, not, ◌&&◌, ◌||◌, Option, none, some, List, [], ◌∷◌, if◌then◌else◌,
  is_some, ◌==◌, nat_eq, list_eq, option_eq, contains, select,
}
use macos_apps_mcp.Base.Text.{starts_with}
use macos_apps_mcp.Base.Dict.{Dict}
use macos_apps_mcp.Base.Sort.{sort_by, text_le}
use macos_apps_mcp.Tiers.{Launch, allow_send, adapters_off, adapter_enabled}
use macos_apps_mcp.Registry.{
  is_write, is_send, ToolRecord, Tools, no_parameter, no_default, default_is,
}

abbrev pub add_adapter : Option Str → List Str → List Str
add_adapter none rest = rest
add_adapter (some a) rest = if contains rest a then rest else a ∷ rest

module _ {S : Type 0} where
  -- The records, in the order in which they were added.
  abbrev pub values : Tools S → List (ToolRecord S)
  values [] = []
  values ((_, r) ∷ tools) = r ∷ values tools

  -- `{n for n, r in TOOLS.items() if p(r)}`
  unfoldable pub names_where : (ToolRecord S → Bool) → Tools S → List Str
  names_where p [] = []
  names_where p ((n, r) ∷ tools) = let rest = names_where p tools in if p r then n ∷ rest else rest

  -- `write_tools`
  unfoldable pub write_tools : Tools S → List Str
  unfolding names_where
  write_tools = names_where (λ r. is_write r.tier && r.registered)

  -- `audit_verbs`
  unfoldable pub audit_verbs : Tools S → Dict Str Str
  audit_verbs [] = []
  audit_verbs ((n, r) ∷ tools) =
      let rest = audit_verbs tools in
      elim r.audit_verb [
        | none ↦ rest
        | some verb ↦ if r.registered then (n, verb) ∷ rest else rest
      ]

  -- `snapshot_sources`
  unfoldable pub snapshot_sources : Tools S → Dict Str S
  snapshot_sources [] = []
  snapshot_sources ((n, r) ∷ tools) =
      let rest = snapshot_sources tools in
      elim r.snapshot [ none ↦ rest | some s ↦ if r.registered then (n, s) ∷ rest else rest ]

  -- `dry_run_defaults`: of every tool with a verb, registered or not.
  unfoldable pub dry_run_defaults : Tools S → Dict Str Bool
  dry_run_defaults [] = []
  dry_run_defaults ((n, r) ∷ tools) =
      let rest = dry_run_defaults tools in
      elim r.dry_run [
        | no_parameter ↦ rest
        | no_default ↦ rest
        | default_is b ↦ if is_some r.audit_verb then (n, b) ∷ rest else rest
      ]

  -- `no_notice`, `backup_notice_tools`, `removes_content_tools` and `by_adapter`
  unfoldable pub no_notice : Tools S → List Str
  unfolding names_where
  no_notice = names_where (λ r. not r.notice)

  unfoldable pub backup_notice_tools : Tools S → List Str
  unfolding names_where
  backup_notice_tools = names_where (λ r. r.backup_notice)

  unfoldable pub removes_content_tools : Tools S → List Str
  removes_content_tools [] = []
  removes_content_tools ((n, r) ∷ tools) =
      let rest = removes_content_tools tools in
      if r.removes_content || starts_with (codes "delete_") n then n ∷ rest else rest

  unfoldable pub by_adapter : Str → Tools S → List Str
  unfolding names_where
  by_adapter a = names_where (λ r. r.adapter == some a)

  -- `{r.adapter for r in TOOLS.values() if r.tier == "send" and keep(r)}`
  unfoldable pub send_adapters : (ToolRecord S → Bool) → Tools S → List Str
  send_adapters keep [] = []
  send_adapters keep ((n, r) ∷ tools) =
      let rest = send_adapters keep tools in
      if is_send r.tier && keep r then add_adapter r.adapter rest else rest

  -- `outbound_status`: the registered adapters, and the configured ones.
  unfoldable pub outbound_status : (Str → Str) → Launch → Tools S → List Str × List Str
  outbound_status lower l tools = (
    sort_by text_le (send_adapters (λ r. r.registered) tools),
    sort_by text_le (
        select (λ a. allow_send lower l a && adapter_enabled (adapters_off lower l) a)
          (send_adapters (λ _. true) tools)),
  )

  -- `{r.adapter for r in TOOLS.values() if r.adapter and keep(r)}`
  unfoldable pub adapters_where : (ToolRecord S → Bool) → Tools S → List Str
  adapters_where keep [] = []
  adapters_where keep ((n, r) ∷ tools) =
      let rest = adapters_where keep tools in if keep r then add_adapter r.adapter rest else rest

  -- `adapter_names`
  unfoldable pub adapter_names : Tools S → List Str
  adapter_names tools = sort_by text_le (adapters_where (λ _. true) tools)

  -- `adapter_status`: the registered adapters, and the configured ones.
  unfoldable pub adapter_status : (Str → Str) → Launch → Tools S → List Str × List Str
  adapter_status lower l tools = (
    sort_by text_le (adapters_where (λ r. r.registered) tools),
    sort_by text_le (select (λ n. adapter_enabled (adapters_off lower l) n) (adapter_names tools)),
  )
