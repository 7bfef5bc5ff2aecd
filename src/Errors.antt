-- ===== src/Errors.antt =====
-- The write policies of macos_apps_mcp/errors.py: `resolve_container`, `verify_persisted` and
-- `require_batch_within`. An error carries what its text names.
pub mod Resolve
pub mod Persisted
mod Tests
use macos_apps_mcp.Base.{
  ℕ, Str, Bool, true, false, Option, none, some, List, [], ◌∷◌, ltb, if◌then◌else◌, ◌==◌, nat_eq,
  list_eq, option_eq, Eq, length,
}
use macos_apps_mcp.Base.Dict.{Dict, lookup}
use macos_apps_mcp.Base.Result.{Result, ok, err, raise_if}

-- A container: its id, its name and the native object.
pub record Container (T : Type 0) : Type 0 where
  pub id : Str
  pub name : Str
  pub value : T

pub data ResolveError : Type 0 where
  no_such_name : ResolveError
  -- The ids to choose from.
  ambiguous_target : List Str → ResolveError

module _ {T : Type 0} where
  -- The first loop: the container with this id.
  unfoldable pub with_id : List (Container T) → Str → Option T
  with_id [] target = none
  with_id (c ∷ cs) target =
      let rest = with_id cs target in if c.id == target then some c.value else rest

  -- `matches`
  unfoldable pub named : List (Container T) → Str → List (Str × T)
  named [] target = []
  named (c ∷ cs) target =
      let rest = named cs target in if c.name == target then (c.id, c.value) ∷ rest else rest

  abbrev pub ids : List (Str × T) → List Str
  ids [] = []
  ids ((i, _) ∷ ms) = i ∷ ids ms

  -- The tests on the matches.
  unfoldable pub the_only : List (Str × T) → Result ResolveError T
  the_only [] = err no_such_name
  the_only ((_, value) ∷ []) = ok value
  the_only (m ∷ n ∷ ms) = err (ambiguous_target (ids (m ∷ n ∷ ms)))

  -- `resolve_container`
  unfoldable pub resolve_container : List (Container T) → Str → Result ResolveError T
  resolve_container items target = elim (with_id items target) [
    | some value ↦ ok value
    | none ↦ the_only (named items target)
  ]

-- One field that did not persist: what was asked, and what is there.
pub record Dropped (V : Type 0) : Type 0 where
  pub field : Str
  pub requested : Option V
  pub persisted : Option V

-- `d.get(k)`, where a value may be None itself.
abbrev pub get : {V : Type 0} → Str → Dict Str (Option V) → Option V
get k d = elim (lookup k d) [ none ↦ none | some v ↦ v ]

module _ {V : Type 0} ⦃e : Eq V⦄ where
  -- `dropped`
  unfoldable pub dropped : Dict Str (Option V) → Dict Str (Option V) → List (Dropped V)
  dropped [] actual = []
  dropped ((k, v) ∷ expected) actual =
      let rest = dropped expected actual in
      if get k actual == v
      then rest
      else record { field = k; requested = v; persisted = get k actual } ∷ rest

  -- `verify_persisted`: it raises with the fields that differ.
  unfoldable pub verify_persisted :
      Dict Str (Option V) → Dict Str (Option V) → Result (List (Dropped V)) (Unit {0})
  verify_persisted expected actual = elim (dropped expected actual) [
    | [] ↦ ok tt
    | d ∷ ds ↦ err (d ∷ ds)
  ]

-- `BatchTooLarge`
pub data BatchError : Type 0 where
  batch_too_large : BatchError

-- `require_batch_within`
unfoldable pub require_batch_within : ℕ → ℕ → Result BatchError (Unit {0})
require_batch_within count cap = raise_if (ltb cap count) batch_too_large
