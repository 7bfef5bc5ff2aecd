-- ===== src/Calendar/FreeBusy/Shape.antt =====
-- The shape of the result of `get_free_busy`.
use native.Mathlib.Nat.{div-lt_iff_lt-mul, le-div_iff_mul-le}
use macos_apps_mcp.Base.{ℕ, suc, ◌/◌, ◌≤◌, ◌<◌, ◌≡◌, ◌↔◌, ◌∙◌, ap, not, List, arith}
use macos_apps_mcp.Base.Result.{ok, err}
use macos_apps_mcp.Calendar.FreeBusy.{
  Interval, Event, busy_epochs, merge_busy, Bound, reversed_window, get_free_busy,
}
use macos_apps_mcp.Calendar.FreeBusy.Cover.{
  end_of, covers, blocks, Runs, Runs-window, merge_busy_exact, covers-busy_epochs,
}

-- For any window lo ≤ hi, the busy intervals are in ascending order inside the window, none is
-- empty, and no two of them overlap or touch.
pub merge_busy-Runs :
    (xs : List Interval) (lo hi : ℕ) → lo ≤ hi → Runs lo hi (merge_busy xs lo hi).0
unfolding merge_busy
merge_busy-Runs xs lo hi h = Runs-window xs lo hi (omega arith)

get_free_busy_facts :
    (ticks : ℕ) (events : List Event) (start end : Bound) (busy free : List Interval)
    → get_free_busy ticks events start end ≡ ok (busy, free)
    → (start.wall < end.wall)
      × ((busy, free)
          ≡ merge_busy (busy_epochs ticks events) (start.timestamp / ticks) (end.timestamp / ticks))
unfolding get_free_busy
get_free_busy_facts ticks events start end busy free h = ground arith

-- `get_free_busy` raises exactly when the window is empty or reversed by the wall clock.
get_free_busy_raises :
    (ticks : ℕ) (events : List Event) (start end : Bound)
    → (get_free_busy ticks events start end ≡ err reversed_window) ↔ (end.wall ≤ start.wall)
unfolding get_free_busy
get_free_busy_raises ticks events start end = ground arith

-- When get_free_busy answers, then for each whole second whose end lies in the window, after its start
-- and not past its end, a returned busy interval holds the second exactly if an event that is not
-- Free is on at its end, that is, starts before that and ends then or later, and a returned free
-- interval holds it exactly if none is; and the window is not reversed by the wall clock. So a part of
-- a second at the end of an event is not busy.
pub get_free_busy_exact :
    (ticks : ℕ) (events : List Event) (start end : Bound) (busy free : List Interval) (t : ℕ)
    → 0 < ticks
    → get_free_busy ticks events start end ≡ ok (busy, free)
    → start.timestamp < end_of ticks t
    → end_of ticks t ≤ end.timestamp
    → (start.wall < end.wall)
      × (covers t busy ≡ blocks ticks t events)
      × (covers t free ≡ not (blocks ticks t events))
get_free_busy_exact ticks events start end busy free t k h p q =
    let (forward, both) = get_free_busy_facts ticks events start end busy free h in
    let from : start.timestamp / ticks < suc t =
      (div-lt_iff_lt-mul {k = ticks} {x = start.timestamp} {y = suc t} k).1 p in
    let to : suc t ≤ end.timestamp / ticks =
      (le-div_iff_mul-le {k = ticks} {x = suc t} {y = end.timestamp} k).1 q in
    let exact =
      merge_busy_exact (busy_epochs ticks events) (start.timestamp / ticks) (end.timestamp / ticks)
        t (omega (arith, from)) (omega (arith, to)) in
    let same = covers-busy_epochs ticks t events k in
    (
      forward,
      ap (λ r. covers t r.0) both ∙ exact.0 ∙ same,
      ap (λ r. covers t r.1) both ∙ exact.1 ∙ ap not same,
    )
