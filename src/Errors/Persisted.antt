-- ===== src/Errors/Persisted.antt =====
-- What a verified write has left in the store.
use macos_apps_mcp.Base.{
  Str, ◌≡◌, refl, ap, sym, ◌∙◌, ◌⊎◌, Bool, true, false, Option, List, [], ◌∷◌, inl, inr, Bool-cases,
  ◌==◌, nat_eq, list_eq, option_eq, every, Eq,
}
use macos_apps_mcp.Base.Dict.{Dict}
use macos_apps_mcp.Base.Result.{Result, ok, err}
use macos_apps_mcp.Errors.{get, dropped, verify_persisted}

abbrev pub is_ok : {E A : Type 0} → Result E A → Bool
is_ok (ok _) = true
is_ok (err _) = false

abbrev pub is_none : {A : Type 0} → List A → Bool
is_none [] = true
is_none (_ ∷ _) = false

List-cases : {A : Type 0} (xs : List A) → (xs ≡ []) ⊎ ((x : A) × (ys : List A) × (xs ≡ x ∷ ys))
List-cases [] = inl refl
List-cases (x ∷ ys) = inr (x, ys, refl)

module _ {V : Type 0} ⦃e : Eq V⦄ where
  abbrev pub persists : Dict Str (Option V) → Str × Option V → Bool
  persists actual (k, v) = get k actual == v

  none_dropped :
      (expected actual : Dict Str (Option V))
      → is_none (dropped expected actual) ≡ every (persists actual) expected
  unfolding dropped
  none_dropped [] actual = refl
  none_dropped ((k, v) ∷ expected) actual = elim (Bool-cases (get k actual == v)) [
    | inl same ↦ rw same (none_dropped expected actual)
    | inr other ↦ rw other refl
  ]

  -- A write is taken as persisted exactly when the store has every requested field as it was
  -- requested; a field that is not there counts as unset.
  pub verify_persisted_exact :
      (expected actual : Dict Str (Option V))
      → is_ok (verify_persisted expected actual) ≡ every (persists actual) expected
  unfolding verify_persisted
  verify_persisted_exact expected actual = elim (List-cases (dropped expected actual)) [
    | inl kept ↦ rw (kept, verify_persisted) (ap is_none (sym kept) ∙ none_dropped expected actual)
    | inr (d, ds, lost) ↦
        rw (lost, verify_persisted) (ap is_none (sym lost) ∙ none_dropped expected actual)
  ]
