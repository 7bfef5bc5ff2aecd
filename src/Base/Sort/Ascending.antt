-- ===== src/Base/Sort/Ascending.antt =====
-- `sorted(set(xs))` has no element twice and is in order.
use mathlib.Core.Path.{◌≡◌, refl, ◌∙◌}
use mathlib.Core.Logic.{inl, inr}
use mathlib.Core.Bool.{Bool, true, false, not, ◌&&◌, ◌||◌}
use mathlib.Core.List.{List, [], ◌∷◌}
use native.Mathlib.Omega.{arith}
use macos_apps_mcp.Base.Logic.{Bool-cases}
use macos_apps_mcp.Base.Equality.{Eq, ◌==◌, contains, nat_eq, nat_beq_iff}
use macos_apps_mcp.Base.Text.{Str}
use macos_apps_mcp.Base.Sort.{insert_by, sort_by, unique, text_le}

module _ {ℓ} {A : Type ℓ} ⦃e : Eq A⦄ (le : A → A → Bool) where
  -- Strictly in order.
  abbrev pub Ascending : List A → Type 0
  Ascending [] = Unit
  Ascending (x ∷ []) = Unit
  Ascending (x ∷ y ∷ xs) = ((le x y && not (x == y)) ≡ true) × Ascending (y ∷ xs)

  pub contains-insert_by :
      (x a : A) (xs : List A) → contains (insert_by le x xs) a ≡ (a == x || contains xs a)
  unfolding insert_by
  contains-insert_by x a [] = refl
  contains-insert_by x a (y ∷ xs) = ground (arith, contains-insert_by x a xs)

  pub contains-sort_by : (a : A) (xs : List A) → contains (sort_by le xs) a ≡ contains xs a
  unfolding sort_by
  contains-sort_by a [] = refl
  contains-sort_by a (x ∷ xs) =
      ground (arith, contains-insert_by x a (sort_by le xs), contains-sort_by a xs)

  module _ (total : (a b : A) → le a b ≡ false → le b a ≡ true) where
    insert_by-Ascending :
        (x : A) (xs : List A) → contains xs x ≡ false → Ascending xs → Ascending (insert_by le x xs)
    unfolding insert_by
    insert_by-Ascending x [] h a = tt
    insert_by-Ascending x (y ∷ []) h a = elim (Bool-cases (le x y)) [
      | inl before ↦ rw before (ground (arith, before, h), tt)
      | inr after ↦ rw after (ground (arith, total x y after, h, e.beq_iff x y, e.beq_iff y x), tt)
    ]
    insert_by-Ascending x (y ∷ z ∷ xs) h a =
        let rest = insert_by-Ascending x (z ∷ xs) (ground (arith, h)) a.1 in
        elim (Bool-cases (le x y)) [
          | inl before ↦ rw before (ground (arith, before, h), a)
          | inr after ↦
              let next : (le y x && not (y == x)) ≡ true =
                ground (arith, total x y after, h, e.beq_iff x y, e.beq_iff y x) in
              elim (Bool-cases (le x z)) [
                | inl there ↦ rw (after, there) (next, rw (there, insert_by) at rest)
                | inr later ↦ rw (after, later) (a.0, rw (later, insert_by) at rest)
              ]
        ]

    pub sort_unique-Ascending : (xs : List A) → Ascending (sort_by le (unique xs))
    unfolding unique sort_by
    sort_unique-Ascending [] = tt
    sort_unique-Ascending (x ∷ xs) = elim (Bool-cases (contains (unique xs) x)) [
      | inl again ↦ rw again (sort_unique-Ascending xs)
      | inr new ↦ rw new (
          insert_by-Ascending x (sort_by le (unique xs)) (contains-sort_by x (unique xs) ∙ new)
            (sort_unique-Ascending xs))
    ]

pub text_le_total : (s t : Str) → text_le s t ≡ false → text_le t s ≡ true
unfolding text_le
text_le_total [] t h = ground arith
text_le_total (a ∷ s) [] h = refl
text_le_total (a ∷ s) (b ∷ t) h =
    ground (arith, h, text_le_total s t, nat_beq_iff a b, nat_beq_iff b a)
