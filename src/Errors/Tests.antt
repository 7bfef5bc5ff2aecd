-- ===== src/Errors/Tests.antt =====
-- A write to one of two calendars of the same name, and one that lost a field.
use macos_apps_mcp.Base.{
  ℕ, Str, codes, ◌≡◌, refl, true, false, Option, none, some, List, [], ◌∷◌, nat_eq, list_eq,
  option_eq, list_beq, every, ◌⊎◌,
}
use macos_apps_mcp.Base.Dict.{Dict, lookup}
use macos_apps_mcp.Base.Result.{ok, err}
use macos_apps_mcp.Errors.{
  Container, ambiguous_target, with_id, named, the_only, resolve_container, dropped,
  verify_persisted,
}
use macos_apps_mcp.Errors.Resolve.{ById, ByName, other_id, resolve_container_unique}
use macos_apps_mcp.Errors.Persisted.{is_ok}

abbrev calendars : List (Container ℕ)
calendars =
    record { id = codes "a"; name = codes "Home"; value = 1 }
    ∷ record { id = codes "b"; name = codes "Work"; value = 2 }
    ∷ record { id = codes "c"; name = codes "Home"; value = 3 }
    ∷ []

two_homes :
    resolve_container calendars (codes "Home") ≡ err (ambiguous_target (codes "a" ∷ codes "c" ∷ []))
unfolding resolve_container with_id named the_only list_beq
two_homes = refl

one_work : resolve_container calendars (codes "Work") ≡ ok 2
unfolding resolve_container with_id named the_only list_beq
one_work = refl

resolve_container_unique_example :
    ById calendars (codes "Work") 2
    ⊎ (ByName calendars (codes "Work") 2 × (every (other_id (codes "Work")) calendars ≡ true))
resolve_container_unique_example = resolve_container_unique calendars (codes "Work") 2 one_work

abbrev asked : Dict Str (Option ℕ)
asked = (codes "due", some 7) ∷ (codes "list", some 1) ∷ []

abbrev stored : Dict Str (Option ℕ)
stored = (codes "due", none) ∷ (codes "list", some 1) ∷ []

due_lost : is_ok (verify_persisted asked stored) ≡ false
unfolding verify_persisted dropped lookup list_beq
due_lost = refl
