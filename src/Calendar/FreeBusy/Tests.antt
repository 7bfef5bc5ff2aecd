-- ===== src/Calendar/FreeBusy/Tests.antt =====
-- The theorems at concrete calendars.
use macos_apps_mcp.Base.{◌≡◌, ◌<◌, refl, not, List, [], ◌∷◌, arith}
use macos_apps_mcp.Base.Result.{ok}
use macos_apps_mcp.Calendar.FreeBusy.{
  Interval, Event, Availability, busy_epochs, clip, insert_sorted, sort, merge_runs, gaps,
  merge_busy, Bound, get_free_busy,
}
use macos_apps_mcp.Calendar.FreeBusy.Cover.{covers, blocks, merge_busy_exact}
use macos_apps_mcp.Calendar.FreeBusy.Shape.{get_free_busy_exact}

abbrev meetings : List Interval
meetings = (50, 60) ∷ (10, 20) ∷ (20, 30) ∷ (15, 18) ∷ (90, 200) ∷ []

merged :
    merge_busy meetings 12 100 ≡ ((12, 30) ∷ (50, 60) ∷ (90, 100) ∷ [], (30, 50) ∷ (60, 90) ∷ [])
unfolding merge_busy clip sort insert_sorted merge_runs gaps
merged = refl

merge_busy_exact_example :
    (covers 25 (merge_busy meetings 12 100).0 ≡ covers 25 meetings)
    × (covers 25 (merge_busy meetings 12 100).1 ≡ not (covers 25 meetings))
merge_busy_exact_example = merge_busy_exact meetings 12 100 25 (omega arith) (omega arith)

-- With ten ticks in a second: one second is cut off in the middle at both ends.
abbrev day : List Event
day =
    record { availability = Availability.busy; start = 95; end = 105 }
    ∷ record { availability = Availability.busy; start = 150; end = 200 }
    ∷ record { availability = Availability.free; start = 0; end = 900 }
    ∷ []

abbrev morning : Bound
morning = record { wall = 50; timestamp = 50 }

abbrev noon : Bound
noon = record { wall = 400; timestamp = 400 }

answered :
    get_free_busy 10 day morning noon
    ≡ ok ((9, 10) ∷ (15, 20) ∷ [], (5, 9) ∷ (10, 15) ∷ (20, 40) ∷ [])
unfolding get_free_busy busy_epochs merge_busy clip sort insert_sorted merge_runs gaps
answered = refl

get_free_busy_exact_example :
    (50 < 400)
    × (covers 10 ((9, 10) ∷ (15, 20) ∷ []) ≡ blocks 10 10 day)
    × (covers 10 ((5, 9) ∷ (10, 15) ∷ (20, 40) ∷ []) ≡ not (blocks 10 10 day))
get_free_busy_exact_example =
    get_free_busy_exact 10 day morning noon ((9, 10) ∷ (15, 20) ∷ [])
      ((5, 9) ∷ (10, 15) ∷ (20, 40) ∷ []) 10 (omega arith) answered (omega arith) (omega arith)
