-- ===== src/Notices/Tests.antt =====
-- The theorem at an empty table.
use macos_apps_mcp.Base.{codes, false, [], ◌∷◌, nat_eq, list_eq}
use macos_apps_mcp.Notices.{Result}

abbrev answer : Result
answer = record { is_error = false; content = codes "Milk" ∷ [] }
