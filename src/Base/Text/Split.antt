-- ===== src/Base/Text/Split.antt =====
-- `split`, `join` and `partition`.
use mathlib.Core.Path.{◌≡◌, refl}
use mathlib.Core.Bool.{true, false}
use mathlib.Core.List.{List, [], ◌∷◌, ◌++◌}
use Prim.Native.Nat.{ℕ}
use mathlib.Core.Logic.{inl, inr}
use native.Mathlib.Omega.{arith}
use macos_apps_mcp.Base.Logic.{Bool-cases}
use macos_apps_mcp.Base.Equality.{◌==◌, nat_eq, contains}
use macos_apps_mcp.Base.Text.{Str, cons_first, split, join, partition}

cons_first-append :
    (c : ℕ) (xs ys : List Str) (x : Str)
    → cons_first c ((x ∷ xs) ++ ys) ≡ cons_first c (x ∷ xs) ++ ys
cons_first-append c xs ys x = refl

-- A split text has a first piece.
pub split_first : (sep : ℕ) (s : Str) → (x : Str) × (xs : List Str) × (split sep s ≡ x ∷ xs)
unfolding split
split_first sep [] = ([], [], refl)
split_first sep (c ∷ s) =
    let (x, xs, e) = split_first sep s in
    elim (Bool-cases (c == sep)) [
      | inl at ↦ ([], x ∷ xs, rw (at, e))
      | inr other ↦ (c ∷ x, xs, rw (other, e))
    ]

-- The pieces of two texts with a separator between them.
pub split-append : (sep : ℕ) (a b : Str) → split sep (a ++ (sep ∷ b)) ≡ split sep a ++ split sep b
unfolding split
split-append sep [] b = ground arith
split-append sep (c ∷ a) b =
    let (x, xs, e) = split_first sep a in ground (arith, split-append sep a b, e)

-- A text that does not hold the separator is its own only piece.
pub split_none : (sep : ℕ) (s : Str) → contains s sep ≡ false → split sep s ≡ s ∷ []
unfolding split
split_none sep [] h = refl
split_none sep (c ∷ s) h = ground (arith, split_none sep s)

-- Joining the pieces gives the text back.
pub join-split : (sep : ℕ) (s : Str) → join sep (split sep s) ≡ s
unfolding split join
join-split sep [] = refl
join-split sep (c ∷ s) = let (x, xs, e) = split_first sep s in join_step xs x (join-split sep s) e
  where
    join_step :
        (xs : List Str) (x : Str)
        → join sep (split sep s) ≡ s
        → split sep s ≡ x ∷ xs
        → join sep (split sep (c ∷ s)) ≡ c ∷ s
    join_step [] x ih e = ground (arith, e, ih)
    join_step (y ∷ ys) x ih e = ground (arith, e, ih)

-- The text before the first separator, and the one after it.
pub partition-append :
    (sep : ℕ) (a b : Str) → contains a sep ≡ false → partition sep (a ++ (sep ∷ b)) ≡ (a, true, b)
unfolding partition
partition-append sep [] b h = ground arith
partition-append sep (c ∷ a) b h = ground (arith, partition-append sep a b)

-- Without a separator all of the text is the head.
pub partition_none : (sep : ℕ) (s : Str) → contains s sep ≡ false → partition sep s ≡ (s, false, [])
unfolding partition
partition_none sep [] h = refl
partition_none sep (c ∷ s) h = ground (arith, partition_none sep s)
