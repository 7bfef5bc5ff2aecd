-- ===== src/Calendar/FreeBusy.antt =====
-- `_busy_epochs`, `_merge_busy` and `get_free_busy` of macos_apps_mcp/adapters/calendar.py.
-- A time is a number of ticks since 1970: their number in a second is a parameter, so that each float
-- in play is a whole number of them. `int` of a time drops the rest of its second. An epoch is a
-- number of whole seconds since 1970. Times before 1970 are left out.
pub mod Cover
pub mod Shape
pub mod Tests
use Prim.Native.Nat.{max, min}
use macos_apps_mcp.Base.{
  ℕ, Bool, true, false, ◌&&◌, ◌||◌, List, [], ◌∷◌, ltb, leb, if◌then◌else◌, ◌==◌, nat_eq, ◌/◌,
}
use macos_apps_mcp.Base.Result.{Result, ok, err}

-- A pair of epochs (start, end), its end excluded.
abbrev pub Interval : Type 0
Interval = ℕ × ℕ

-- EventKit's availability values.
pub data Availability : Type 0 where
  not_supported busy free tentative unavailable : Availability

pub record Event : Type 0 where
  pub availability : Availability
  pub start : ℕ
  pub end : ℕ

abbrev pub is_free : Availability → Bool
is_free Availability.free = true
is_free _ = false

-- `_busy_epochs`: every event that is not explicitly Free blocks, from and to whole seconds.
unfoldable pub busy_epochs : ℕ → List Event → List Interval
busy_epochs ticks [] = []
busy_epochs ticks (e ∷ es) =
    let rest = busy_epochs ticks es in
    if is_free e.availability then rest else (e.start / ticks, e.end / ticks) ∷ rest

-- The first loop of `_merge_busy`: clip to the window, and drop what is empty.
unfoldable pub clip : ℕ → ℕ → List Interval → List Interval
clip lo hi [] = []
clip lo hi ((start, end) ∷ xs) =
    let rest = clip lo hi xs in
    if ltb (max start lo) (min end hi) then (max start lo, min end hi) ∷ rest else rest

-- `list.sort()` on pairs: by start, then by end. The order is total, so any sort gives this list.
abbrev pub pair_le : Interval → Interval → Bool
pair_le (a, b) (c, d) = ltb a c || (a == c && leb b d)

unfoldable pub insert_sorted : Interval → List Interval → List Interval
insert_sorted x [] = x ∷ []
insert_sorted x (y ∷ ys) = if pair_le x y then x ∷ y ∷ ys else y ∷ insert_sorted x ys

unfoldable pub sort : List Interval → List Interval
sort [] = []
sort (x ∷ xs) = insert_sorted x (sort xs)

-- The second loop. `(s, e)` is `busy[-1]`, the run that still grows; a run that is passed does not
-- change again.
unfoldable pub merge_from : Interval → List Interval → List Interval
merge_from (s, e) [] = (s, e) ∷ []
merge_from (s, e) ((start, end) ∷ xs) =
    let grown = merge_from (s, max e end) xs in
    let next = merge_from (start, end) xs in if leb start e then grown else (s, e) ∷ next

unfoldable pub merge_runs : List Interval → List Interval
unfolding merge_from
merge_runs [] = []
merge_runs (x ∷ xs) = merge_from x xs

-- The third loop, with its last test.
unfoldable pub gaps : ℕ → ℕ → List Interval → List Interval
gaps cursor hi [] = if ltb cursor hi then (cursor, hi) ∷ [] else []
gaps cursor hi ((start, end) ∷ xs) =
    let rest = gaps end hi xs in if ltb cursor start then (cursor, start) ∷ rest else rest

-- `_merge_busy`: the pair (busy, free).
unfoldable pub merge_busy : List Interval → ℕ → ℕ → List Interval × List Interval
merge_busy intervals lo hi =
    let runs = merge_runs (sort (clip lo hi intervals)) in (runs, gaps lo hi runs)

-- A parsed bound: the naive wall time that is compared, and its `timestamp()`.
pub record Bound : Type 0 where
  pub wall : ℕ
  pub timestamp : ℕ

pub data FreeBusyError : Type 0 where
  reversed_window : FreeBusyError

-- `get_free_busy`, from the parsed bounds and the events that EventKit's predicate returned.
unfoldable pub get_free_busy :
    ℕ → List Event → Bound → Bound → Result FreeBusyError (List Interval × List Interval)
get_free_busy ticks events start end =
    if leb end.wall start.wall
    then err reversed_window
    else ok
        (merge_busy (busy_epochs ticks events) (start.timestamp / ticks) (end.timestamp / ticks))
