-- ===== src/Contracts/Wire/Bounded.antt =====
-- Lemmas on `read_result` of macos_apps_mcp/contracts.py, under a reader that asks for a number of rows.
use macos_apps_mcp.Base.{
  ℕ, ◌≡◌, refl, Str, true, false, Option, some, List, arith, leb, length, take, Bool-cases, inl,
  inr, ◌⊎◌, [], ◌∷◌, zero, suc,
}
use macos_apps_mcp.Contracts.Wire.{read_result}

take_all : {A : Type 0} (n : ℕ) (xs : List A) → leb n (length (take n xs)) ≡ false → take n xs ≡ xs
take_all zero xs h = ground arith
take_all (suc n) [] h = refl
take_all (suc n) (x ∷ xs) h = rw (take_all n xs (ground (arith, h))) refl

-- A reader that asks its store for `cap` rows and passes them to read_result answers with all rows of
-- the store, or says that the answer is truncated.
pub read_result_complete :
    {D : Type 0} (store : List D) (cap : ℕ) (plane coverage staleness : Option Str)
    → ((read_result (take cap store) (some cap) plane coverage staleness).results ≡ store)
      ⊎ ((read_result (take cap store) (some cap) plane coverage staleness).truncated ≡ true)
unfolding read_result
read_result_complete store cap plane coverage staleness =
    elim (Bool-cases (leb cap (length (take cap store)))) [
      | inl full ↦ inr full
      | inr short ↦ inl (take_all cap store short)
    ]
