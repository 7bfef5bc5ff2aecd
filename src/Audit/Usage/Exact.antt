-- ===== src/Audit/Usage/Exact.antt =====
-- The usage report counts every call.
use macos_apps_mcp.Base.{
  ℕ, ◌+◌, ◌≤◌, ◌<◌, Str, ◌≡◌, refl, sym, ◌∙◌, ap, Bool, not, ◌&&◌, Option, none, some, List, [],
  ◌∷◌, arith, leb, if◌then◌else◌, is_some, ◌==◌, nat_eq, list_eq, option_eq, list_beq_iff, contains,
  Bool-cases, inl, inr,
}
use mathlib.Core.List.{Perm}
use mathlib.Core.List.Perm
use macos_apps_mcp.Base.Dict.{Dict, keys, lookup, insert, lookup-insert, lookup_some_iff}
use macos_apps_mcp.Base.Dict.Entries.{Entries, Entries-insert, Entries-lookup}
use macos_apps_mcp.Audit.Log.{Log, readable}
use macos_apps_mcp.Audit.Usage.{
  Use, Stats, touch, count_use, tally, usage_read, insert_by_count, busiest_first, minus, total,
  Report, usage_report, calls, named, count_of,
}

abbrev counted : Option Stats → ℕ
counted o = elim o [ none ↦ 0 | some s ↦ s.count ]

count-touch : (ts : Str) (o : Option Stats) → (touch ts o).count ≡ counted o + 1
unfolding touch
count-touch ts none = refl
count-touch ts (some e) = refl

abbrev seen : Option Str → Str → Bool
seen o t = o == some t

count_of-insert :
    (t tool : Str) (s : Stats) (out : Dict Str Stats)
    → s.count ≡ count_of tool out + 1
    → count_of t (insert tool s out) ≡ count_of t out + (if tool == t then 1 else 0)
count_of-insert t tool s out h =
    rw (lookup-insert tool t s out, count_of)
      (elim (Bool-cases (tool == t)) [
        | inl same ↦
            let p : tool ≡ t = (list_beq_iff tool t).0 same in
            rw same (h ∙ ap (λ (k : Str). count_of k out + 1) p)
        | inr other ↦ rw other (omega arith)
      ])

count_of-count_use :
    (t : Str) (out : Dict Str Stats) (u : Use)
    → count_of t (count_use out u) ≡ count_of t out + (if u.tool == some t then 1 else 0)
count_of-count_use t out u = step u.tool u.ts
  where
    step :
        (tool : Option Str) (ts : Str)
        → count_of t (count_use out (record { tool = tool; ts = ts }))
          ≡ count_of t out + (if tool == some t then 1 else 0)
    step none ts = unfold count_use in omega arith
    step (some tool) ts =
        unfold count_use in
        count_of-insert t tool (touch ts (lookup tool out)) out (count-touch ts (lookup tool out))

count_of-tally :
    (t : Str) (out : Dict Str Stats) (us : List Use)
    → count_of t (tally out us) ≡ count_of t out + calls t us
unfolding tally
count_of-tally t out [] = omega arith
count_of-tally t out (u ∷ us) =
    omega (arith, count_of-tally t (count_use out u) us, count_of-count_use t out u)

total-insert :
    (k : Str) (s : Stats) (d : Dict Str Stats)
    → total (insert k s d) + count_of k d ≡ total d + s.count
unfolding insert lookup
total-insert k s [] = omega arith
total-insert k s ((j, r) ∷ d) = ground (arith, total-insert k s d)

total-count_use :
    (out : Dict Str Stats) (u : Use)
    → total (count_use out u) ≡ total out + (if is_some u.tool then 1 else 0)
total-count_use out u = step u.tool u.ts
  where
    step :
        (tool : Option Str) (ts : Str)
        → total (count_use out (record { tool = tool; ts = ts }))
          ≡ total out + (if is_some tool then 1 else 0)
    step none ts = unfold count_use in omega arith
    step (some tool) ts =
        unfold count_use in
        omega (
          arith,
          total-insert tool (touch ts (lookup tool out)) out,
          count-touch ts (lookup tool out),
        )

total-tally : (out : Dict Str Stats) (us : List Use) → total (tally out us) ≡ total out + named us
unfolding tally
total-tally out [] = omega arith
total-tally out (u ∷ us) = omega (arith, total-tally (count_use out u) us, total-count_use out u)

-- Every entry counts at least one call.
abbrev Positive : Str → Stats → Type 0
Positive _ s = 0 < s.count

Positive-count_use :
    (out : Dict Str Stats) (u : Use) → Entries Positive out → Entries Positive (count_use out u)
Positive-count_use out u h = step u.tool u.ts
  where
    step :
        (tool : Option Str) (ts : Str)
        → Entries Positive (count_use out (record { tool = tool; ts = ts }))
    step none ts = unfold count_use in h
    step (some tool) ts =
        unfold count_use in
        Entries-insert Positive tool (touch ts (lookup tool out)) out
          (omega (arith, count-touch ts (lookup tool out))) h

Positive-tally :
    (out : Dict Str Stats) (us : List Use) → Entries Positive out → Entries Positive (tally out us)
unfolding tally
Positive-tally out [] h = h
Positive-tally out (u ∷ us) h = Positive-tally (count_use out u) us (Positive-count_use out u h)

seen_iff_called :
    (t : Str) (d : Dict Str Stats)
    → Entries Positive d
    → contains (keys d) t ≡ not (count_of t d == 0)
seen_iff_called t d p =
    sym (lookup_some_iff t d) ∙ step (lookup t d) (λ s. Entries-lookup Positive t s d p)
  where
    step :
        (o : Option Stats)
        → ((s : Stats) → o ≡ some s → 0 < s.count)
        → is_some o ≡ not (counted o == 0)
    step none h = refl
    step (some s) h = ground (arith, h s refl)

contains-minus :
    (t : Str) (ts seen : List Str)
    → contains (minus ts seen) t ≡ (contains ts t && not (contains seen t))
unfolding minus
contains-minus t [] seen = refl
contains-minus t (x ∷ ts) seen = ground (arith, contains-minus t ts seen, list_beq_iff t x)

-- Busiest first.
abbrev pub Descends : Dict Str Stats → Type 0
Descends [] = Unit
Descends (e ∷ []) = Unit
Descends ((t, s) ∷ (u, r) ∷ es) = (r.count ≤ s.count) × Descends ((u, r) ∷ es)

Descends-insert_by_count :
    (e : Str × Stats) (es : Dict Str Stats) → Descends es → Descends (insert_by_count e es)
unfolding insert_by_count
Descends-insert_by_count e [] h = tt
Descends-insert_by_count (t, s) ((u, r) ∷ []) h = ground arith
Descends-insert_by_count (t, s) ((u, r) ∷ (v, q) ∷ es) h =
    ground (arith, Descends-insert_by_count (t, s) ((v, q) ∷ es) h.1)

Descends-busiest_first : (es : Dict Str Stats) → Descends (busiest_first es)
unfolding busiest_first
Descends-busiest_first [] = tt
Descends-busiest_first (e ∷ es) =
    Descends-insert_by_count e (busiest_first es) (Descends-busiest_first es)

perm-insert_by_count :
    (e : Str × Stats) (es : Dict Str Stats) → Perm (insert_by_count e es) (e ∷ es)
unfolding insert_by_count
perm-insert_by_count e [] = Perm.refl (e ∷ [])
perm-insert_by_count (t, s) ((u, r) ∷ es) = elim (Bool-cases (leb r.count s.count)) [
  | inl here ↦ rw here (Perm.refl ((t, s) ∷ (u, r) ∷ es))
  | inr further ↦
      rw further (
        Perm.trans (Perm.cons (u, r) (perm-insert_by_count (t, s) es)) (Perm.swap (t, s) (u, r) es))
]

perm-busiest_first : (es : Dict Str Stats) → Perm (busiest_first es) es
unfolding busiest_first
perm-busiest_first [] = Perm.refl []
perm-busiest_first (e ∷ es) =
    Perm.trans (perm-insert_by_count e (busiest_first es)) (Perm.cons e (perm-busiest_first es))

total_nil : (us : List Use) → total (tally [] us) ≡ named us
total_nil us = omega (arith, total-tally [] us)

tally_counts : (t : Str) (us : List Use) → count_of t (tally [] us) ≡ calls t us
unfolding lookup
tally_counts t us = omega (arith, count_of-tally t [] us)

unused_tally :
    (t : Str) (registered : List Str) (us : List Use)
    → contains (minus registered (keys (tally [] us))) t
      ≡ (contains registered t && calls t us == 0)
unused_tally t registered us = ground (
  arith,
  contains-minus t registered (keys (tally [] us)),
  seen_iff_called t (tally [] us) (Positive-tally [] us tt),
  tally_counts t us,
)

-- What the report says of these records of a log.
pub record IsExact (registered : List Str) (l : Log Use) (us : List Use) (r : Report) : Type 0 where
  pub all_calls : r.total_calls ≡ named us
  pub each_tool : (t : Str) → count_of t (usage_read l) ≡ calls t us
  pub same_tools : Perm r.tools (usage_read l)
  pub busiest : Descends r.tools
  pub unused : (t : Str) → contains r.never_used t ≡ (contains registered t && calls t us == 0)

-- Over the records of the files that can be read, the report's total is the number of records that name a tool, each tool's
-- count is the number of records that name it, the tools are listed by descending count, each
-- once as the tally has it, and never_used holds exactly the registered tools with no record.
pub usage_report-IsExact :
    (registered : List Str) (l : Log Use)
    → IsExact registered l (readable l) (usage_report registered l)
unfolding usage_report
usage_report-IsExact registered l =
    let us = readable l in
    let e : usage_read l ≡ tally [] us = unfold usage_read in refl in
    record {
      all_calls = ap total e ∙ total_nil us;
      each_tool = λ t. ap (count_of t) e ∙ tally_counts t us;
      same_tools = perm-busiest_first (usage_read l);
      busiest = Descends-busiest_first (usage_read l);
      unused = λ t.
          ap (λ (d : Dict Str Stats). contains (minus registered (keys d)) t) e
          ∙ unused_tally t registered us;
    }
