-- ===== src/Dedupe/Plan/Chunks.antt =====
-- Chunks: nothing is lost or repeated, and each is small.
use macos_apps_mcp.Base.{
  ℕ, zero, suc, ◌≤◌, ◌<◌, ◌≡◌, refl, ap, ◌∙◌, List, [], ◌∷◌, ◌++◌, arith, length, take, drop, All,
}
use macos_apps_mcp.Base.Lists.{length-take-le, take-append-drop, length-drop, All-take, All-drop}
use macos_apps_mcp.Dedupe.Plan.{chunk_size, chunks_in, chunks}

abbrev pub concat : {A : Type 0} → List (List A) → List A
concat [] = []
concat (xs ∷ xss) = xs ++ concat xss

abbrev pub IsChunk : {A : Type 0} → List A → Type 0
IsChunk xs = (0 < length xs) × (length xs ≤ 8)

concat-chunks_in :
    {A : Type 0} (n : ℕ) (items : List A) → length items ≤ n → concat (chunks_in n items) ≡ items
unfolding chunks_in
concat-chunks_in zero [] h = refl
concat-chunks_in zero (x ∷ xs) h = ground arith
concat-chunks_in (suc n) [] h = refl
concat-chunks_in (suc n) (x ∷ xs) h =
    ap (λ ys. take chunk_size (x ∷ xs) ++ ys)
      (concat-chunks_in n (drop chunk_size (x ∷ xs)) (omega (arith, length-drop 7 xs)))
    ∙ take-append-drop chunk_size (x ∷ xs)

chunks_in-All : {A : Type 0} (n : ℕ) (items : List A) → All IsChunk (chunks_in n items)
unfolding chunks_in
chunks_in-All zero items = tt
chunks_in-All (suc n) [] = tt
chunks_in-All (suc n) (x ∷ xs) =
    ((omega arith, omega (arith, length-take-le 7 xs)), chunks_in-All n (drop chunk_size (x ∷ xs)))

-- The chunks in order are the items, and each chunk has from one to eight of them.
pub chunks_lem :
    {A : Type 0} (items : List A) → (concat (chunks items) ≡ items) × All IsChunk (chunks items)
unfolding chunks
chunks_lem items =
    (concat-chunks_in (length items) items (omega arith), chunks_in-All (length items) items)

All-chunks_in :
    {A : Type 0} (P : A → Type 0) (n : ℕ) (items : List A)
    → All P items
    → All (All P) (chunks_in n items)
unfolding chunks_in
All-chunks_in P zero items a = tt
All-chunks_in P (suc n) [] a = tt
All-chunks_in P (suc n) (x ∷ xs) a =
    (All-take P chunk_size (x ∷ xs) a, All-chunks_in P n (drop 7 xs) (All-drop P 7 xs a.1))

-- What holds of each item holds in each chunk.
pub All-chunks :
    {A : Type 0} (P : A → Type 0) (items : List A) → All P items → All (All P) (chunks items)
unfolding chunks
All-chunks P items a = All-chunks_in P (length items) items a
