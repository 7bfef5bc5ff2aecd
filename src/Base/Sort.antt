-- ===== src/Base/Sort.antt =====
-- `sorted` and `set`, over any order and any equality.
pub mod Ascending
use mathlib.Core.Path.{◌≡◌, refl, ◌∙◌}
use mathlib.Core.Logic.{inl, inr}
use mathlib.Core.Bool.{Bool, true, false, ◌&&◌, ◌||◌}
use mathlib.Core.List.{List, [], ◌∷◌}
use native.Mathlib.Omega.{arith}
use macos_apps_mcp.Base.Logic.{if◌then◌else◌, ltb, Bool-cases}
use macos_apps_mcp.Base.Equality.{Eq, ◌==◌, contains, nat_eq, beq_refl}
use macos_apps_mcp.Base.Lists.{All, every, length}
use macos_apps_mcp.Base.Text.{Str}

-- `a <= b` on `str`: by code points.
unfoldable pub text_le : Str → Str → Bool
text_le [] t = true
text_le (a ∷ s) [] = false
text_le (a ∷ s) (b ∷ t) = ltb a b || (a == b && text_le s t)

module _ {ℓ} {A : Type ℓ} (le : A → A → Bool) where
  unfoldable pub insert_by : A → List A → List A
  insert_by x [] = x ∷ []
  insert_by x (y ∷ ys) = let rest = insert_by x ys in if le x y then x ∷ y ∷ ys else y ∷ rest

  unfoldable pub sort_by : List A → List A
  sort_by [] = []
  sort_by (x ∷ xs) = insert_by x (sort_by xs)

module _ {ℓ κ} {A : Type ℓ} where
  pub All-insert_by :
      (P : A → Type κ) (le : A → A → Bool) (x : A) (xs : List A)
      → P x
      → All P xs
      → All P (insert_by le x xs)
  unfolding insert_by
  All-insert_by P le x [] h a = (h, tt)
  All-insert_by P le x (y ∷ ys) h a = elim (Bool-cases (le x y)) [
    | inl here ↦ rw here (h, a)
    | inr past ↦ rw past (a.0, All-insert_by P le x ys h a.1)
  ]

  pub All-sort_by :
      (P : A → Type κ) (le : A → A → Bool) (xs : List A) → All P xs → All P (sort_by le xs)
  unfolding sort_by
  All-sort_by P le [] a = tt
  All-sort_by P le (x ∷ xs) a = All-insert_by P le x (sort_by le xs) a.0 (All-sort_by P le xs a.1)

module _ {ℓ} {A : Type ℓ} ⦃e : Eq A⦄ where
  -- `set(xs)`, as the list of its members.
  unfoldable pub unique : List A → List A
  unique [] = []
  unique (x ∷ xs) = let rest = unique xs in if contains rest x then rest else x ∷ rest

  pub contains-unique : (a : A) (xs : List A) → contains (unique xs) a ≡ contains xs a
  unfolding unique
  contains-unique a [] = refl
  contains-unique a (x ∷ xs) =
      ground (arith, contains-unique a xs, contains-unique x xs, e.beq_iff a x)

  members_equal :
      (s : List A) (a b : A)
      → (length s == 1) ≡ true
      → contains s a ≡ true
      → contains s b ≡ true
      → b ≡ a
  members_equal [] a b h p q = cc
  members_equal (x ∷ []) a b h p q = ground (arith, e.beq_iff a x, e.beq_iff b x)
  members_equal (x ∷ y ∷ s) a b h p q = ground arith

  every_member :
      (p : A → Bool) (xs : List A)
      → ((y : A) → contains xs y ≡ true → p y ≡ true)
      → every p xs ≡ true
  every_member p [] h = refl
  every_member p (x ∷ xs) h =
      ground (arith, h x, beq_refl x, every_member p xs (λ y m. h y (ground (arith, m))))

  -- If the set of a list has one member then each element is the first.
  pub unique_single :
      (x : A) (xs : List A)
      → (length (unique (x ∷ xs)) == 1) ≡ true
      → every (λ y. y == x) (x ∷ xs) ≡ true
  unique_single x xs h =
      every_member (λ y. y == x) (x ∷ xs)
        (λ y m. (e.beq_iff y x).1 (
          members_equal (unique (x ∷ xs)) x y h
            (contains-unique x (x ∷ xs) ∙ ground (arith, beq_refl x))
            (contains-unique y (x ∷ xs) ∙ m)))

  -- What holds of each member holds of each element.
  pub All-contains {κ} :
      (P : A → Type κ) (xs : List A) → ((x : A) → contains xs x ≡ true → P x) → All P xs
  All-contains P [] h = tt
  All-contains P (x ∷ xs) h =
      (h x (ground (arith, beq_refl x)), All-contains P xs (λ y m. h y (ground (arith, m))))

module _ {ℓ κ} {A : Type ℓ} where
  insert_by-All :
      (P : A → Type κ) (le : A → A → Bool) (x : A) (xs : List A)
      → All P (insert_by le x xs)
      → P x × All P xs
  unfolding insert_by
  insert_by-All P le x [] a = a
  insert_by-All P le x (y ∷ ys) a = elim (Bool-cases (le x y)) [
    | inl here ↦ let b : All P (x ∷ y ∷ ys) = rw here at a in b
    | inr past ↦
        let b : P y × All P (insert_by le x ys) = rw past at a in
        let (p, ps) = insert_by-All P le x ys b.1 in (p, (b.0, ps))
  ]

  -- Sorting drops nothing.
  pub sort_by-All :
      (P : A → Type κ) (le : A → A → Bool) (xs : List A) → All P (sort_by le xs) → All P xs
  unfolding sort_by
  sort_by-All P le [] a = tt
  sort_by-All P le (x ∷ xs) a =
      let (p, ps) = insert_by-All P le x (sort_by le xs) a in (p, sort_by-All P le xs ps)

module _ {ℓ κ} {A : Type ℓ} ⦃e : Eq A⦄ where
  pub All-at : (P : A → Type κ) (xs : List A) (a : A) → All P xs → contains xs a ≡ true → P a
  All-at P [] a h m = cc
  All-at P (x ∷ xs) a h m = elim (Bool-cases (a == x)) [
    | inl same ↦ rw ((e.beq_iff a x).0 same) h.0
    | inr other ↦ All-at P xs a h.1 (ground (arith, m, other))
  ]
