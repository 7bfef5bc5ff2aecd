-- ===== src/Dedupe/Plan/Sets.antt =====
-- The sets that the same-mailbox pass may collapse.
use macos_apps_mcp.Base.{
  Str, ◌≡◌, refl, ap, ◌∙◌, Bool, false, ◌&&◌, none, List, [], ◌∷◌, arith, leb, ◌==◌, nat_eq,
  list_eq, list_beq_iff, contains, length, every, select,
}
use macos_apps_mcp.Base.Dict.{Dict, lookup}
use macos_apps_mcp.Base.Dict.Entries.{Distinct}
use macos_apps_mcp.Base.Dict.Group.{or_empty, group_onto, lookup-group_onto, Distinct-group_onto}
use macos_apps_mcp.Dedupe.Plan.{Row, same_bytes, sort_sets, sets}

-- At least two rows, each of the same size and date as the first.
abbrev pub is_collapsible : List Row → Bool
is_collapsible [] = false
is_collapsible (first ∷ others) = leb 1 (length others) && every (same_bytes first) (first ∷ others)

-- A key that is not in the groups is not among the safe ones.
sort_sets_absent :
    (mid : Str) (d : Dict Str (List Row))
    → lookup mid d ≡ none
    → contains (sort_sets d).0 mid ≡ false
unfolding sort_sets lookup
sort_sets_absent mid [] h = refl
sort_sets_absent mid ((k, []) ∷ d) h = ground (arith, sort_sets_absent mid d)
sort_sets_absent mid ((k, first ∷ others) ∷ d) h =
    ground (arith, sort_sets_absent mid d, list_beq_iff k mid, list_beq_iff mid k)

contains-sort_sets :
    (mid : Str) (d : Dict Str (List Row))
    → Distinct d
    → contains (sort_sets d).0 mid ≡ is_collapsible (or_empty (lookup mid d))
unfolding sort_sets lookup
contains-sort_sets mid [] u = refl
contains-sort_sets mid ((k, []) ∷ d) u =
    ground (arith, contains-sort_sets mid d u.1, sort_sets_absent mid d, u.0, list_beq_iff k mid)
contains-sort_sets mid ((k, first ∷ others) ∷ d) u = ground (
  arith,
  contains-sort_sets mid d u.1,
  sort_sets_absent mid d,
  u.0,
  list_beq_iff k mid,
  list_beq_iff mid k,
)

-- An id is among those to collapse exactly when the rows that have it are two or more and all
-- agree with the first of them in size and in date; no other row matters.
pub sets_exact :
    (rows : List Row) (mid : Str)
    → contains (sets rows).0 mid ≡ is_collapsible (select (λ r. r.message_id == mid) rows)
unfolding select lookup
sets_exact rows mid =
    unfold sets in
    contains-sort_sets mid (group_onto (λ (r : Row). r.message_id) [] rows)
      (Distinct-group_onto (λ (r : Row). r.message_id) [] rows tt)
    ∙ ap is_collapsible (lookup-group_onto (λ (r : Row). r.message_id) mid [] rows)
