-- ===== src/Calendar/FreeBusy/Cover.antt =====
-- Which instants the merged runs and the gaps cover.
use Prim.Native.Nat.{max}
use macos_apps_mcp.Base.{
  Bool-cases, leb→le, inl, inr, All, ℕ, suc, ◌*◌, ◌/◌, ◌≤◌, ◌<◌, ◌≡◌, refl, ◌∙◌, ap, Bool, false,
  not, ◌&&◌, ◌||◌, List, [], ◌∷◌, arith, ltb, leb,
}
use native.Mathlib.Nat.{div-lt_iff_lt-mul, le-div_iff_mul-le}
use macos_apps_mcp.Calendar.FreeBusy.{
  Interval, Event, is_free, busy_epochs, clip, insert_sorted, sort, merge_from, merge_runs, gaps,
  merge_busy,
}

-- Some interval of the list holds the instant.
abbrev pub covers : ℕ → List Interval → Bool
covers t [] = false
covers t ((s, e) ∷ xs) = (leb s t && ltb t e) || covers t xs

-- The time at which the second of an epoch ends.
abbrev pub end_of : ℕ → ℕ → ℕ
end_of ticks t = suc t * ticks

-- Some event that blocks is on at the end of the second: it starts before, and ends then or later.
abbrev pub blocks : ℕ → ℕ → List Event → Bool
blocks ticks t [] = false
blocks ticks t (e ∷ es) =
    (not (is_free e.availability) && ltb e.start (end_of ticks t) && leb (end_of ticks t) e.end)
    || blocks ticks t es

-- The starts ascend, from a bound on.
abbrev pub Ascends : ℕ → List Interval → Type 0
Ascends b [] = Unit
Ascends b ((s, e) ∷ xs) = (b ≤ s) × Ascends s xs

-- Runs from `c` up to `hi`, none empty and no two touching.
abbrev pub Runs : ℕ → ℕ → List Interval → Type 0
Runs c hi [] = c ≤ suc hi
Runs c hi ((s, e) ∷ xs) = (c ≤ s) × (s < e) × Runs (suc e) hi xs

-- Not empty, and in the window.
abbrev pub In : ℕ → ℕ → Interval → Type 0
In lo hi (s, e) = (lo ≤ s) × (s < e) × (e ≤ hi)

pub Runs-weaken : (b c hi : ℕ) (xs : List Interval) → b ≤ c → Runs c hi xs → Runs b hi xs
Runs-weaken b c hi [] h r = omega arith
Runs-weaken b c hi ((s, e) ∷ xs) h r = (omega arith, r.1, r.2)

-- A time before the end of a second, cut to whole seconds, is not past it.
cut_start : (ticks t s : ℕ) → 0 < ticks → leb (s / ticks) t ≡ ltb s (end_of ticks t)
cut_start ticks t s h = ground (arith, div-lt_iff_lt-mul {k = ticks} {x = s} {y = suc t} h)

cut_end : (ticks t e : ℕ) → 0 < ticks → ltb t (e / ticks) ≡ leb (end_of ticks t) e
cut_end ticks t e h = ground (arith, le-div_iff_mul-le {k = ticks} {x = suc t} {y = e} h)

pub covers-busy_epochs :
    (ticks t : ℕ) (es : List Event)
    → 0 < ticks
    → covers t (busy_epochs ticks es) ≡ blocks ticks t es
unfolding busy_epochs
covers-busy_epochs ticks t [] h = refl
covers-busy_epochs ticks t (e ∷ es) h =
    ground
      (arith, cut_start ticks t e.start h, cut_end ticks t e.end h, covers-busy_epochs ticks t es h)

covers-clip :
    (t lo hi : ℕ) (xs : List Interval) → lo ≤ t → t < hi → covers t (clip lo hi xs) ≡ covers t xs
unfolding clip
covers-clip t lo hi [] h k = refl
covers-clip t lo hi ((s, e) ∷ xs) h k = ground (arith, covers-clip t lo hi xs h k)

covers-insert_sorted :
    (t : ℕ) (x : Interval) (xs : List Interval) → covers t (insert_sorted x xs) ≡ covers t (x ∷ xs)
unfolding insert_sorted
covers-insert_sorted t x [] = refl
covers-insert_sorted t (a, b) ((c, d) ∷ xs) = ground (arith, covers-insert_sorted t (a, b) xs)

covers-sort : (t : ℕ) (xs : List Interval) → covers t (sort xs) ≡ covers t xs
unfolding sort
covers-sort t [] = refl
covers-sort t ((s, e) ∷ xs) =
    ground (arith, covers-insert_sorted t (s, e) (sort xs), covers-sort t xs)

pub Ascends-insert_sorted :
    (b : ℕ) (x : Interval) (xs : List Interval)
    → b ≤ x.0
    → Ascends b xs
    → Ascends b (insert_sorted x xs)
unfolding insert_sorted
Ascends-insert_sorted b (s, e) [] h a = (h, tt)
Ascends-insert_sorted b (s, e) ((c, d) ∷ xs) h a = ground (arith, Ascends-insert_sorted c (s, e) xs)

Ascends-sort : (xs : List Interval) → Ascends 0 (sort xs)
unfolding sort
Ascends-sort [] = tt
Ascends-sort (x ∷ xs) = Ascends-insert_sorted 0 x (sort xs) (omega arith) (Ascends-sort xs)

Ascends-weaken : (a b : ℕ) (xs : List Interval) → a ≤ b → Ascends b xs → Ascends a xs
Ascends-weaken a b [] h p = tt
Ascends-weaken a b ((s, e) ∷ xs) h p = (omega arith, p.1)

covers-merge_from :
    (t s e : ℕ) (xs : List Interval)
    → Ascends s xs
    → covers t (merge_from (s, e) xs) ≡ covers t ((s, e) ∷ xs)
unfolding merge_from
covers-merge_from t s e [] a = refl
covers-merge_from t s e ((c, d) ∷ xs) a = ground (
  arith,
  covers-merge_from t s (max e d) xs (Ascends-weaken s c xs a.0 a.1),
  covers-merge_from t c d xs a.1,
)

covers-merge_runs :
    (t : ℕ) (xs : List Interval) → Ascends 0 xs → covers t (merge_runs xs) ≡ covers t xs
unfolding merge_runs
covers-merge_runs t [] a = refl
covers-merge_runs t ((s, e) ∷ xs) a = covers-merge_from t s e xs a.1

-- The runs lie in the window.
AllIn-clip : (lo hi : ℕ) (xs : List Interval) → All (In lo hi) (clip lo hi xs)
unfolding clip
AllIn-clip lo hi [] = tt
AllIn-clip lo hi ((s, e) ∷ xs) = ground (arith, AllIn-clip lo hi xs)

AllIn-insert_sorted :
    (lo hi : ℕ) (x : Interval) (xs : List Interval)
    → In lo hi x
    → All (In lo hi) xs
    → All (In lo hi) (insert_sorted x xs)
unfolding insert_sorted
AllIn-insert_sorted lo hi x [] h a = (h, tt)
AllIn-insert_sorted lo hi (s, e) ((c, d) ∷ xs) h a =
    ground (arith, AllIn-insert_sorted lo hi (s, e) xs h a.1)

AllIn-sort : (lo hi : ℕ) (xs : List Interval) → All (In lo hi) xs → All (In lo hi) (sort xs)
unfolding sort
AllIn-sort lo hi [] a = tt
AllIn-sort lo hi (x ∷ xs) a = AllIn-insert_sorted lo hi x (sort xs) a.0 (AllIn-sort lo hi xs a.1)

Runs-merge_from :
    (lo hi c s e : ℕ) (xs : List Interval)
    → c ≤ s
    → s < e
    → e ≤ hi
    → Ascends s xs
    → All (In lo hi) xs
    → Runs c hi (merge_from (s, e) xs)
unfolding merge_from
Runs-merge_from lo hi c s e [] p q r a b = (p, q, omega arith)
Runs-merge_from lo hi c s e ((u, v) ∷ xs) p q r a b = elim (Bool-cases (leb u e)) [
  | inl joined ↦ rw joined (
      Runs-merge_from lo hi c s (max e v) xs p (omega arith) (omega arith)
        (Ascends-weaken s u xs a.0 a.1) b.1)
  | inr apart ↦
      rw apart (p, q, Runs-merge_from lo hi (suc e) u v xs (ground arith) b.0.1 b.0.2 a.1 b.1)
]

pub Runs-merge_runs :
    (lo hi : ℕ) (xs : List Interval)
    → lo ≤ suc hi
    → Ascends 0 xs
    → All (In lo hi) xs
    → Runs lo hi (merge_runs xs)
unfolding merge_runs
Runs-merge_runs lo hi [] h a b = h
Runs-merge_runs lo hi ((s, e) ∷ xs) h a b =
    Runs-merge_from lo hi lo s e xs b.0.0 b.0.1 b.0.2 a.1 b.1

-- Before its first run, a list of runs covers nothing.
covers_before : (t c hi : ℕ) (xs : List Interval) → t < c → Runs c hi xs → covers t xs ≡ false
covers_before t c hi [] h r = refl
covers_before t c hi ((s, e) ∷ xs) h r =
    ground (arith, covers_before t (suc e) hi xs (omega arith) r.2)

gaps_before :
    (t c hi : ℕ) (xs : List Interval) → t < c → Runs c hi xs → covers t (gaps c hi xs) ≡ false
unfolding gaps
gaps_before t c hi [] h r = ground arith
gaps_before t c hi ((s, e) ∷ xs) h r =
    ground
      (arith, gaps_before t e hi xs (omega arith) (Runs-weaken e (suc e) hi xs (omega arith) r.2))

-- Inside the window the gaps cover exactly what the runs leave.
covers-gaps :
    (t c hi : ℕ) (xs : List Interval)
    → c ≤ t
    → t < hi
    → Runs c hi xs
    → covers t (gaps c hi xs) ≡ not (covers t xs)
unfolding gaps
covers-gaps t c hi [] p q r = ground arith
covers-gaps t c hi ((s, e) ∷ xs) p q r = elim (Bool-cases (leb e t)) [
  | inl after ↦ ground (
    arith,
    covers-gaps t e hi xs (leb→le e t after) q (Runs-weaken e (suc e) hi xs (omega arith) r.2),
  )
  | inr before ↦
      let w = Runs-weaken e (suc e) hi xs (omega arith) r.2 in
      ground
        (arith, gaps_before t e hi xs (ground arith) w, covers_before t e hi xs (ground arith) w)
]

-- The runs of a window, as `merge_busy` builds them.
pub Runs-window :
    (xs : List Interval) (lo hi : ℕ) → lo ≤ suc hi → Runs lo hi (merge_runs (sort (clip lo hi xs)))
Runs-window xs lo hi h =
    Runs-merge_runs lo hi (sort (clip lo hi xs)) h (Ascends-sort (clip lo hi xs))
      (AllIn-sort lo hi (clip lo hi xs) (AllIn-clip lo hi xs))

-- For every instant t of the window, lo ≤ t < hi: t lies in one of the returned busy intervals
-- exactly if it lies in one of the given intervals, and t lies in one of the returned free
-- intervals exactly if it lies in none of the given ones.
pub merge_busy_exact :
    (xs : List Interval) (lo hi t : ℕ)
    → lo ≤ t
    → t < hi
    → (covers t (merge_busy xs lo hi).0 ≡ covers t xs)
      × (covers t (merge_busy xs lo hi).1 ≡ not (covers t xs))
unfolding merge_busy
merge_busy_exact xs lo hi t p q =
    let runs = merge_runs (sort (clip lo hi xs)) in
    let same : covers t runs ≡ covers t xs =
      covers-merge_runs t (sort (clip lo hi xs)) (Ascends-sort (clip lo hi xs))
      ∙ covers-sort t (clip lo hi xs)
      ∙ covers-clip t lo hi xs p q in
    (same, covers-gaps t lo hi runs p q (Runs-window xs lo hi (omega arith)) ∙ ap not same)
