-- ===== src/Audit/Usage.antt =====
-- `usage_log`, `usage_read` and `usage_report`.
pub mod Exact
use macos_apps_mcp.Base.{
  ℕ, zero, suc, ◌+◌, ◌≤◌, ◌<◌, Str, ◌≡◌, refl, ◌∙◌, ap, Bool, true, false, not, ◌&&◌, ◌||◌, Option,
  none, some, List, [], ◌∷◌, ◌++◌, arith, ltb, leb, if◌then◌else◌, is_some, ◌==◌, nat_eq, list_eq,
  option_eq, list_beq_iff, contains, length, Bool-cases, inl, inr, ◌⊎◌,
}
use macos_apps_mcp.Base.Dict.{Dict, keys, lookup, insert, lookup-insert, lookup_some_iff}
use macos_apps_mcp.Audit.Log.{Log, append, readable}

-- One line of usage.jsonl. A record with no tool counts for nothing.
pub record Use : Type 0 where
  pub tool : Option Str
  pub ts : Str

pub record Stats : Type 0 where
  pub count : ℕ
  pub first : Str
  pub last : Str

abbrev pub later : Str → Str → Str
later [] old = old
later (c ∷ s) old = c ∷ s

-- The entry of a tool after one more call of it.
unfoldable pub touch : Str → Option Stats → Stats
touch ts none = record { count = 1; first = ts; last = ts }
touch ts (some e) = record { count = e.count + 1; first = e.first; last = later ts e.last }

-- The loop of `usage_read`.
unfoldable pub count_use : Dict Str Stats → Use → Dict Str Stats
unfolding touch
count_use out u = elim u.tool [
  | none ↦ out
  | some tool ↦ insert tool (touch u.ts (lookup tool out)) out
]

unfoldable pub tally : Dict Str Stats → List Use → Dict Str Stats
tally out [] = out
tally out (u ∷ us) = tally (count_use out u) us

-- `usage_read`: a file that cannot be read counts nothing.
unfoldable pub usage_read : Log Use → Dict Str Stats
unfolding tally
usage_read l = tally [] (readable l)

-- `sorted(..., key=count, reverse=True)`: equal counts keep their order.
unfoldable pub insert_by_count : Str × Stats → Dict Str Stats → Dict Str Stats
insert_by_count e [] = e ∷ []
insert_by_count (t, s) ((u, r) ∷ es) =
    if leb r.count s.count then (t, s) ∷ (u, r) ∷ es else (u, r) ∷ insert_by_count (t, s) es

unfoldable pub busiest_first : Dict Str Stats → Dict Str Stats
busiest_first [] = []
busiest_first (e ∷ es) = insert_by_count e (busiest_first es)

unfoldable pub minus : List Str → List Str → List Str
minus [] seen = []
minus (t ∷ ts) seen = let rest = minus ts seen in if contains seen t then rest else t ∷ rest

abbrev pub total : Dict Str Stats → ℕ
total [] = 0
total ((_, s) ∷ d) = s.count + total d

pub record Report : Type 0 where
  pub tools : Dict Str Stats
  pub never_used : List Str
  pub total_calls : ℕ

-- `usage_report`; the alphabetical order of `never_used` is not modelled.
unfoldable pub usage_report : List Str → Log Use → Report
usage_report registered l =
    let d = usage_read l in
    record {
      tools = busiest_first d;
      never_used = minus registered (keys d);
      total_calls = total d;
    }

-- How often a tool stands in the records.
abbrev pub calls : Str → List Use → ℕ
calls t [] = 0
calls t (u ∷ us) = (if u.tool == some t then 1 else 0) + calls t us

-- How many records name a tool.
abbrev pub named : List Use → ℕ
named [] = 0
named (u ∷ us) = (if is_some u.tool then 1 else 0) + named us

abbrev pub count_of : Str → Dict Str Stats → ℕ
count_of t d = elim (lookup t d) [ none ↦ 0 | some s ↦ s.count ]
