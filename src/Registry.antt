-- ===== src/Registry.antt =====
-- macos_apps_mcp/registry.py, and the registration decorator `_tool` of macos_apps_mcp/server.py.
-- A snapshotter and a tool's function are what the adapters bring: of the function the registry
-- reads only how its signature gives `dry_run`.
pub mod Add
pub mod Views
pub mod Gates
pub mod Tests
use macos_apps_mcp.Base.{
  Str, codes, Bool, true, false, not, ◌&&◌, ◌||◌, Option, none, some, List, [], ◌∷◌, if◌then◌else◌,
  is_some, ◌==◌, Eq, ◌≡◌, ◌↔◌, refl, nat_eq, list_eq, option_eq, contains, select,
}
use macos_apps_mcp.Base.Text.{starts_with}
use macos_apps_mcp.Base.Dict.{Dict, lookup, insert}
use macos_apps_mcp.Base.Result.{Result, ok, err, ◌>>=◌}
use macos_apps_mcp.Tiers.{Launch, read_only, allow_send, adapters_off, adapter_enabled}

pub data Tier : Type 0 where
  read additive destructive send : Tier

-- How a signature gives `dry_run`: not at all, with no default, or with this one.
pub data DryRun : Type 0 where
  no_parameter no_default : DryRun
  default_is : Bool → DryRun

pub record ToolRecord (S : Type 0) : Type 0 where
  pub name : Str
  pub tier : Tier
  pub adapter : Option Str
  pub permission : List Str
  pub audit_verb : Option Str
  pub notice : Bool
  pub backup_notice : Bool
  pub removes_content : Bool
  pub snapshot : Option S
  pub open_world : Bool
  pub registered : Bool
  pub dry_run : DryRun

pub data RegistryError : Type 0 where
  read_with_verb no_verb registered_twice send_without_adapter : RegistryError

-- `ToolRecord.is_write`
abbrev pub is_write : Tier → Bool
is_write read = false
is_write _ = true

abbrev pub is_send : Tier → Bool
is_send send = true
is_send _ = false

pub record Annotations : Type 0 where
  pub read_only_hint : Bool
  pub destructive_hint : Bool
  pub open_world_hint : Option Bool

abbrev pub tier_annotations : Tier → Annotations
tier_annotations read = record {
  read_only_hint = true;
  destructive_hint = false;
  open_world_hint = none;
}
tier_annotations additive = record {
  read_only_hint = false;
  destructive_hint = false;
  open_world_hint = none;
}
tier_annotations destructive = record {
  read_only_hint = false;
  destructive_hint = true;
  open_world_hint = none;
}
tier_annotations send = record {
  read_only_hint = false;
  destructive_hint = true;
  open_world_hint = some true;
}

-- `ToolRecord.annotations`
unfoldable pub annotations : {S : Type 0} → ToolRecord S → Annotations
annotations r =
    if r.open_world
    then record (tier_annotations r.tier) { open_world_hint = some true }
    else tier_annotations r.tier

-- The first of the prefixes that the name starts with.
unfoldable pub prefix_verb : Str → List Str → Option Str
prefix_verb name [] = none
prefix_verb name (p ∷ ps) = if starts_with p name then some p else prefix_verb name ps

abbrev pub verb_prefixes : List Str
verb_prefixes = codes "create" ∷ codes "update" ∷ codes "delete" ∷ codes "complete" ∷ []

-- `derive_audit_verb`
unfoldable pub derive_audit_verb : Str → Tier → Option Str → Result RegistryError (Option Str)
derive_audit_verb name read none = ok none
derive_audit_verb name read (some verb) = err read_with_verb
derive_audit_verb name _ (some verb) = ok (some verb)
derive_audit_verb name send none = ok (some (codes "send"))
derive_audit_verb name _ none = elim (prefix_verb name verb_prefixes) [
  | none ↦ err no_verb
  | some p ↦ ok (some p)
]

-- What a call site of the decorator states, with the name of the function under it.
pub record Declaration (S : Type 0) : Type 0 where
  pub name : Str
  pub tier : Tier
  pub adapter : Option Str
  pub permission : List Str
  pub audit : Option Str
  pub notice : Bool
  pub backup_notice : Bool
  pub removes_content : Bool
  pub snapshot : Option S
  pub open_world : Bool
  pub dry_run : DryRun

-- `TOOLS`
abbrev pub Tools : Type 0 → Type 0
Tools S = Dict Str (ToolRecord S)

-- The deny-list gates every adapter's tools, and no meta tool.
abbrev pub adapter_on : List Str → Option Str → Bool
adapter_on off none = true
adapter_on off (some a) = adapter_enabled off a

module _ {S : Type 0} where
  -- `add`
  unfoldable pub add : ToolRecord S → Tools S → Result RegistryError (Tools S)
  add r tools =
      if is_some (lookup r.name tools) then err registered_twice else ok (insert r.name r tools)

  -- A send tool must name its adapter.
  abbrev pub names_adapter : Declaration S → Bool
  names_adapter d = elim d.tier [ send ↦ is_some d.adapter | _ ↦ true ]

  module _ (lower : Str → Str) where
    -- The gate of `_tool`.
    unfoldable pub gate : Launch → Declaration S → Bool
    gate l d =
        let on = adapter_on (adapters_off lower l) d.adapter in
        elim d.tier [
          | send ↦ elim d.adapter [ none ↦ false | some a ↦ on && allow_send lower l a ]
          | read ↦ on
          | additive ↦ on && not (read_only lower l)
          | destructive ↦ on && not (read_only lower l)
        ]

    -- The record that `_tool` adds.
    abbrev pub record_of : Launch → Declaration S → Option Str → ToolRecord S
    record_of l d verb = record {
      name = d.name;
      tier = d.tier;
      adapter = d.adapter;
      permission = d.permission;
      audit_verb = verb;
      notice = d.notice;
      backup_notice = d.backup_notice;
      removes_content = d.removes_content || starts_with (codes "delete_") d.name;
      snapshot = d.snapshot;
      open_world = d.open_world;
      registered = gate l d;
      dry_run = d.dry_run;
    }

    -- `_tool`, applied to one function.
    unfoldable pub tool : Launch → Declaration S → Tools S → Result RegistryError (Tools S)
    tool l d tools =
        if not (names_adapter d)
        then err send_without_adapter
        else derive_audit_verb d.name d.tier d.audit >>= λ verb. add (record_of l d verb) tools

    -- The import of the server: the declarations in order, up to the first that raises.
    unfoldable pub register_all :
        Launch → List (Declaration S) → Tools S → Result RegistryError (Tools S)
    register_all l [] tools = ok tools
    register_all l (d ∷ ds) tools = tool l d tools >>= register_all l ds
