-- ===== src/Mail/Outcomes.antt =====
-- What macos_apps_mcp/adapters/mail.py makes of the answers of its scripts: the ids that a caller
-- gives, the statuses of a batch, the copies and counts of a bulk read, and the one answer per id.
pub mod Left
use macos_apps_mcp.Base.{
  ℕ, suc, ◌+◌, Str, codes, Bool, true, false, not, ◌&&◌, ◌||◌, Option, none, some, List, [], ◌∷◌,
  ◌++◌, map, if◌then◌else◌, ◌==◌, nat_eq, list_eq, contains, ltb, every, select, length, is_some,
}
use macos_apps_mcp.Base.Decimal.{decimal}
use macos_apps_mcp.Base.Dict.{Dict, lookup, insert}
use macos_apps_mcp.Base.Dict.Group.{or_empty}
use macos_apps_mcp.Base.Text.{strip, starts_with}
use macos_apps_mcp.Text.Framing.{split_framed}
use macos_apps_mcp.Text.Hygiene.{sanitize_line}
use macos_apps_mcp.Mail.Ids.{bare_id}
use macos_apps_mcp.Mail.Recover.{Answer, plain, outcome, LeftSource, left, stayed, unsure}

-- The loop of `_parse_statuses`.
unfoldable pub statuses_onto : Dict Str Str → List (List Str) → Dict Str Str
statuses_onto out [] = out
statuses_onto out ([] ∷ records) = statuses_onto out records
statuses_onto out ((_ ∷ []) ∷ records) = statuses_onto out records
statuses_onto out ((mid ∷ status ∷ _) ∷ records) =
    statuses_onto (insert (bare_id mid) (strip status) out) records

-- `_parse_statuses`
unfoldable pub parse_statuses : Str → Dict Str Str
parse_statuses raw = statuses_onto [] (split_framed raw)

-- The loop of `_split_ids`.
unfoldable pub ids_onto : List Str → List Str → List Str
ids_onto out [] = out
ids_onto out (a ∷ items) =
    let mid = bare_id (sanitize_line a) in
    ids_onto (if mid == [] || contains out mid then out else out ++ mid ∷ []) items

-- `_split_ids` of a list
unfoldable pub split_ids : List Str → List Str
split_ids = ids_onto []

abbrev pub missing_value : Str
missing_value = codes "missing value"

-- The loop of `_copies`: the internal ids of each id that was asked for.
unfoldable pub copies_onto : Dict Str (List Str) → List (Str × Str) → Dict Str (List Str)
copies_onto out [] = out
copies_onto out ((raw, nid) ∷ rows) =
    let mid = bare_id (strip raw) in
    elim (lookup mid out) [
      | none ↦ copies_onto out rows
      | some nids ↦
          if mid == [] || mid == missing_value
          then copies_onto out rows
          else copies_onto (insert mid (nids ++ nid ∷ []) out) rows
    ]

abbrev pub no_copies : List Str → Dict Str (List Str)
no_copies [] = []
no_copies (mid ∷ mids) = insert mid [] (no_copies mids)

abbrev pub zero_if_none : Option ℕ → ℕ
zero_if_none none = 0
zero_if_none (some n) = n

-- `_counts`: a `Counter`.
unfoldable pub counts_onto : Dict Str ℕ → List Str → Dict Str ℕ
counts_onto out [] = out
counts_onto out (m ∷ mids) =
    let mid = bare_id (strip m) in
    let counted = insert mid (suc (zero_if_none (lookup mid out))) out in
    if strip m == [] || strip m == missing_value
    then counts_onto out mids
    else counts_onto counted mids

abbrev pub is_error : Str → Bool
is_error = starts_with (codes "ERROR")

-- `"{error} ({done} of {all} copies {verb})"`
unfoldable pub partly : Str → ℕ → ℕ → Str → Str
partly error done all verb =
    error
    ++ (codes " ("
        ++ (decimal done
            ++ (codes " of " ++ (decimal all ++ (codes " copies " ++ (verb ++ codes ")"))))))

-- Some copies acted, others did not: the first error, with what was done; else nobody knows.
unfoldable pub mixed_answer : (Str → Bool) → Str → List Str → Answer
mixed_answer is_done verb outcomes = elim (select is_error outcomes) [
  | [] ↦ plain (codes "unknown")
  | e ∷ errors ↦
      let done = length (select is_done outcomes) in
      if ltb 0 done then outcome (partly e done (length outcomes) verb) left else plain e
]

abbrev pub is_moved : Str → Bool
is_moved o = o == codes "moved"

abbrev pub not_in_source : Str
not_in_source = codes "not-in-source"

-- One id of the fold of `move_mail`, from the outcomes of its copies.
unfoldable pub move_answer : Bool → List Str → Answer
move_answer rose [] = plain not_in_source
move_answer rose (o ∷ os) =
    if every is_moved (o ∷ os)
    then (if rose
        then plain (codes "ok")
        else outcome (codes "ERROR move returned cleanly but the message is not in the destination")
            left)
    else if every (λ x. x == not_in_source) (o ∷ os)
    then plain not_in_source
    else mixed_answer is_moved (codes "moved") (o ∷ os)

abbrev pub is_deleted : Str → Bool
is_deleted o = contains (codes "deleted" ∷ codes "gone" ∷ []) o

abbrev pub is_gone : Str → Bool
is_gone o = o == codes "gone"

-- One id of the fold of `trash_mail`.
unfoldable pub trash_answer : Bool → List Str → Answer
trash_answer rose [] = plain not_in_source
trash_answer rose (o ∷ os) =
    if every is_deleted (o ∷ os)
    then (if rose || every is_gone (o ∷ os)
        then plain (codes "ok")
        else plain (
            codes
              "ERROR delete returned cleanly but the message is still in the source and never reached Trash"))
    else if every (λ x. x == not_in_source) (o ∷ os)
    then plain not_in_source
    else mixed_answer is_deleted (codes "deleted") (o ∷ os)

-- One status of `dedupe_batch`.
unfoldable pub dedupe_answer : Str → Answer
dedupe_answer status =
    if starts_with (codes "ok") status
    then plain (codes "ok")
    else if starts_with (codes "ERROR expected 1 copy to survive") status
    then outcome status unsure
    else plain status

abbrev pub status_or_unknown : Dict Str Str → Str → Str
status_or_unknown statuses nid = elim (lookup nid statuses) [ none ↦ codes "unknown" | some s ↦ s ]

-- `{mid: ... for mid in ids}`: the copies, the statuses by internal id, and the counts.
unfoldable pub answers_from :
    (Bool → List Str → Answer)
    → Dict Str (List Str)
    → Dict Str Str
    → Dict Str ℕ
    → Dict Str ℕ
    → Dict Str Answer
    → List Str
    → Dict Str Answer
answers_from answer copies statuses before after out [] = out
answers_from answer copies statuses before after out (mid ∷ mids) =
    let rose = ltb (zero_if_none (lookup mid before)) (zero_if_none (lookup mid after)) in
    let outcomes = map (status_or_unknown statuses) (or_empty (lookup mid copies)) in
    answers_from answer copies statuses before after (insert mid (answer rose outcomes) out) mids
