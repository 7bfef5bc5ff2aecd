-- ===== src/Registry/Tests.antt =====
-- The theorems at a small server.
use macos_apps_mcp.Base.{
  Str, codes, ◌≡◌, refl, true, false, none, some, List, [], ◌∷◌, All, list_beq, map,
}
use macos_apps_mcp.Base.Text.{starts_with, split, strip, lstrip, is_space}
use macos_apps_mcp.Base.Dict.{lookup, insert}
use macos_apps_mcp.Base.Result.{ok, err}
use macos_apps_mcp.Tiers.{
  Launch, text, absent, unreadable, read_only, allow_send, allow_send_value, or_file,
  is_daemon_role, adapters_off, adapters_off_file, allow_send_file, names, adapter_enabled,
}
use macos_apps_mcp.Registry.{
  read, destructive, send, no_parameter, default_is, Declaration, Tools, derive_audit_verb,
  prefix_verb, add, gate, tool, register_all,
}
use macos_apps_mcp.Registry.Views.{values}
use macos_apps_mcp.Registry.Add.{IsTable, Recorded, register_all-IsTable, register_all-Recorded}

-- ASCII only.
abbrev lower : Str → Str
lower s = s

abbrev safe : Launch
safe = record {
  read_only_var = codes " 1 ";
  allow_send_var = codes "all";
  adapters_off_var = codes "notes, photos";
  role_var = [];
  argv = codes "macos-apps-mcp" ∷ [];
  allow_send_toggle = absent;
  adapters_off_toggle = unreadable;
}

abbrev plain : Declaration (Unit {0})
plain = record {
  name = codes "reminders";
  tier = read;
  adapter = some (codes "reminders");
  permission = codes "Reminders" ∷ [];
  audit = none;
  notice = true;
  backup_notice = false;
  removes_content = false;
  snapshot = none;
  open_world = false;
  dry_run = no_parameter;
}

abbrev server : List (Declaration (Unit {0}))
server =
    plain
    ∷ record plain {
      name = codes "delete_note";
      tier = destructive;
      adapter = some (codes "notes");
      dry_run = default_is true;
    }
    ∷ record plain { name = codes "send_mail"; tier = send; adapter = some (codes "mail") }
    ∷ []

table : Tools (Unit {0})
unfolding register_all tool add derive_audit_verb prefix_verb gate insert lookup list_beq
    starts_with read_only allow_send allow_send_value adapters_off or_file is_daemon_role names
    split strip lstrip is_space adapter_enabled adapters_off_file allow_send_file
table = elim (register_all lower safe server []) [ ok tools ↦ tools | err _ ↦ [] ]

imported : register_all lower safe server [] ≡ ok table
unfolding table
imported = refl

-- The read is there, the delete and the send are held back.
held_back : map (λ r. r.registered) (values table) ≡ true ∷ false ∷ false ∷ []
unfolding table
held_back = refl

register_all-IsTable_example : IsTable lower safe table
register_all-IsTable_example =
    register_all-IsTable lower safe server [] table imported
      (record { entries = tt; distinct = tt })

register_all-Recorded_example : All (Recorded lower safe table) server
register_all-Recorded_example = register_all-Recorded lower safe server [] table imported

is_safe : read_only lower safe ≡ true
unfolding read_only strip lstrip is_space list_beq
is_safe = refl

abbrev daemon : Launch
daemon = record safe { argv = codes "app" ∷ codes "daemon" ∷ []; adapters_off_var = [] }

daemon_role : is_daemon_role daemon ≡ true
unfolding is_daemon_role list_beq
daemon_role = refl

empty_var : strip daemon.adapters_off_var ≡ []
unfolding strip lstrip
empty_var = refl

client_role : is_daemon_role safe ≡ false
unfolding is_daemon_role list_beq
client_role = refl

client_role_toggled :
    is_daemon_role (record safe { allow_send_toggle = text (codes "mail") }) ≡ false
unfolding is_daemon_role list_beq
client_role_toggled = refl
