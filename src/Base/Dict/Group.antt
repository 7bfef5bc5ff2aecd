-- ===== src/Base/Dict/Group.antt =====
-- `d.setdefault(k, []).append(x)`, and the loop that groups a list by a key with it.
use mathlib.Core.Path.{◌≡◌, refl, sym, ◌∙◌, ap}
use mathlib.Core.Logic.{inl, inr}
use mathlib.Core.Bool.{Bool, true, false}
use mathlib.Core.Option.{Option, none, some}
use mathlib.Core.List.{List, [], ◌∷◌, ◌++◌, append_assoc, append-nil}
use native.Mathlib.Omega.{arith}
use macos_apps_mcp.Base.Logic.{if◌then◌else◌, Bool-cases, Option-cases}
use macos_apps_mcp.Base.Equality.{Eq, ◌==◌, beq_refl}
use macos_apps_mcp.Base.Lists.{All, All-append, select}
use macos_apps_mcp.Base.Dict.{Dict, lookup, insert, lookup-insert}
use macos_apps_mcp.Base.Dict.Entries.{
  Entries, Entries-insert, Entries-lookup, Distinct, Distinct-insert,
}

abbrev pub or_empty {ℓ} : {A : Type ℓ} → Option (List A) → List A
or_empty none = []
or_empty (some xs) = xs

module _ {ℓ κ} {K : Type ℓ} {A : Type κ} ⦃e : Eq K⦄ where
  unfoldable pub push : K → A → Dict K (List A) → Dict K (List A)
  push k x d = insert k (or_empty (lookup k d) ++ (x ∷ [])) d

  unfoldable pub group_onto : (A → K) → Dict K (List A) → List A → Dict K (List A)
  group_onto f d [] = d
  group_onto f d (x ∷ xs) = group_onto f (push (f x) x d) xs

  pub lookup-push :
      (k j : K) (x : A) (d : Dict K (List A))
      → or_empty (lookup j (push k x d)) ≡ or_empty (lookup j d) ++ (if k == j then x ∷ [] else [])
  unfolding push
  lookup-push k j x d =
      rw (lookup-insert k j (or_empty (lookup k d) ++ (x ∷ [])) d) (elim (Bool-cases (k == j)) [
        | inl same ↦ rw same (ap (λ i. or_empty (lookup i d) ++ (x ∷ [])) ((e.beq_iff k j).0 same))
        | inr other ↦ rw other (sym (append-nil (or_empty (lookup j d))))
      ])

  -- Each key has exactly the elements that have it, in their order.
  pub lookup-group_onto :
      (f : A → K) (k : K) (d : Dict K (List A)) (xs : List A)
      → or_empty (lookup k (group_onto f d xs)) ≡ or_empty (lookup k d) ++ select (λ x. f x == k) xs
  unfolding group_onto select
  lookup-group_onto f k d [] = sym (append-nil (or_empty (lookup k d)))
  lookup-group_onto f k d (x ∷ xs) =
      lookup-group_onto f k (push (f x) x d) xs
      ∙ ap (λ (ys : List A). ys ++ select (λ x. f x == k) xs) (lookup-push (f x) k x d)
      ∙ append_assoc (or_empty (lookup k d)) (if f x == k then x ∷ [] else [])
          (select (λ x. f x == k) xs)
      ∙ ap (λ ys. or_empty (lookup k d) ++ ys) (step (f x == k))
    where
      step :
          (b : Bool)
          → (if b then x ∷ [] else []) ++ select (λ x. f x == k) xs
            ≡ (if b then x ∷ select (λ x. f x == k) xs else select (λ x. f x == k) xs)
      step true = refl
      step false = refl

  pub Distinct-group_onto :
      (f : A → K) (d : Dict K (List A)) (xs : List A) → Distinct d → Distinct (group_onto f d xs)
  unfolding group_onto push
  Distinct-group_onto f d [] h = h
  Distinct-group_onto f d (x ∷ xs) h =
      Distinct-group_onto f (push (f x) x d) xs
        (Distinct-insert (f x) (or_empty (lookup (f x) d) ++ (x ∷ [])) d h)

  pub Entries-push {μ} :
      (Q : K → A → Type μ) (k : K) (x : A) (d : Dict K (List A))
      → Q k x
      → Entries (λ j. All (Q j)) d
      → Entries (λ j. All (Q j)) (push k x d)
  unfolding push
  Entries-push Q k x d h a =
      Entries-insert (λ j. All (Q j)) k (or_empty (lookup k d) ++ (x ∷ [])) d
        (All-append (Q k) (or_empty (lookup k d)) (x ∷ [])
          (elim (Option-cases (lookup k d)) [
            | inl absent ↦ rw absent tt
            | inr (xs, there) ↦ rw there (Entries-lookup (λ j. All (Q j)) k xs d a there)
          ])
          (h, tt))
        a

module _ {ℓ κ} {K : Type ℓ} {V : Type κ} ⦃e : Eq K⦄ where
  -- What holds of each key that is looked up holds of each entry.
  pub Distinct-Entries {μ} :
      (P : K → V → Type μ) (d : Dict K V)
      → Distinct d
      → ((k : K) (v : V) → lookup k d ≡ some v → P k v)
      → Entries P d
  unfolding lookup
  Distinct-Entries P [] u h = tt
  Distinct-Entries P ((j, w) ∷ d) u h = (
    h j w (rw (beq_refl j) refl),
    Distinct-Entries P d u.1 (λ k v s. h k v (ground (arith, e.beq_iff j k, u.0, s))),
  )
