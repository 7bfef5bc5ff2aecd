-- ===== src/Base/Dict/Entries.antt =====
-- Properties of all entries of a `dict`.
use mathlib.Core.Path.{◌≡◌, refl}
use mathlib.Core.Option.{none, some}
use mathlib.Core.List.{[], ◌∷◌}
use native.Mathlib.Omega.{arith}
use macos_apps_mcp.Base.Logic.{Bool-cases}
use mathlib.Core.Logic.{inl, inr}
use macos_apps_mcp.Base.Equality.{Eq, ◌==◌}
use macos_apps_mcp.Base.Dict.{Dict, lookup, insert, lookup-insert}

module _ {ℓ κ} {K : Type ℓ} {V : Type κ} where
  abbrev pub Entries {μ} : (K → V → Type μ) → Dict K V → Type μ
  Entries P [] = Unit
  Entries P ((k, v) ∷ d) = P k v × Entries P d

module _ {ℓ κ} {K : Type ℓ} {V : Type κ} ⦃e : Eq K⦄ where
  -- No key twice.
  abbrev pub Distinct : Dict K V → Type κ
  Distinct [] = Unit
  Distinct ((k, _) ∷ d) = (lookup k d ≡ none) × Distinct d

  pub Entries-insert {μ} :
      (P : K → V → Type μ) (k : K) (v : V) (d : Dict K V)
      → P k v
      → Entries P d
      → Entries P (insert k v d)
  unfolding insert
  Entries-insert P k v [] h a = (h, tt)
  Entries-insert P k v ((j, w) ∷ d) h a = elim (Bool-cases (j == k)) [
    | inl same ↦ rw same (rw ((e.beq_iff j k).0 same) (h, a.1))
    | inr other ↦ rw other (a.0, Entries-insert P k v d h a.1)
  ]

  pub Entries-lookup {μ} :
      (P : K → V → Type μ) (k : K) (v : V) (d : Dict K V)
      → Entries P d
      → lookup k d ≡ some v
      → P k v
  unfolding lookup
  Entries-lookup P k v [] a h = cc
  Entries-lookup P k v ((j, w) ∷ d) a h = elim (Bool-cases (j == k)) [
    | inl same ↦
        let h' : some w ≡ some v = rw same at h in
        let p : w ≡ v = cc in rw (← (e.beq_iff j k).0 same) (rw (← p) a.0)
    | inr other ↦ let h' : lookup k d ≡ some v = rw other at h in Entries-lookup P k v d a.1 h'
  ]

  pub Distinct-insert : (k : K) (v : V) (d : Dict K V) → Distinct d → Distinct (insert k v d)
  unfolding insert lookup
  Distinct-insert k v [] a = (refl, tt)
  Distinct-insert k v ((j, w) ∷ d) a = elim (Bool-cases (j == k)) [
    | inl same ↦ rw same a
    | inr other ↦ rw other (
      ground (arith, lookup-insert k j v d, e.beq_iff j k, e.beq_iff k j, a.0),
      Distinct-insert k v d a.1,
    )
  ]

module _ {ℓ κ} {K : Type ℓ} {V : Type κ} where
  pub Entries-map {μ ν} :
      (P : K → V → Type μ) (Q : K → V → Type ν) (d : Dict K V)
      → ((k : K) (v : V) → P k v → Q k v)
      → Entries P d
      → Entries Q d
  Entries-map P Q [] f a = tt
  Entries-map P Q ((k, v) ∷ d) f a = (f k v a.0, Entries-map P Q d f a.1)
