-- ===== src/Dedupe/Plan.antt =====
-- What is a duplicate: `_sets`, `cross_account_plan` and `_chunks` of macos_apps_mcp/dedupe.py.
-- A body fingerprint is a text, none where the body could not be read.
pub mod Sets
pub mod Losers
pub mod Safe
pub mod Chunks
use macos_apps_mcp.Base.{
  ℕ, zero, suc, Str, Bool, true, false, not, ◌&&◌, Option, none, some, List, [], ◌∷◌, ◌++◌, map,
  ltb, leb, if◌then◌else◌, is_some, ◌==◌, nat_eq, list_eq, option_eq, contains, length, take, drop,
  every, some_of, select,
}
use macos_apps_mcp.Base.Dict.{Dict, insert}
use macos_apps_mcp.Base.Dict.Group.{push, group_onto}
use macos_apps_mcp.Base.Sort.{unique, sort_by, text_le}

-- One row of the duplicates of a mailbox.
pub record Row : Type 0 where
  pub message_id : Str
  pub size : ℕ
  pub date_sent : ℕ

-- A set that was left alone.
pub record Mismatch : Type 0 where
  pub id : Str
  pub copies : ℕ
  pub sizes : List ℕ

abbrev pub same_bytes : Row → Row → Bool
same_bytes a b = b.size == a.size && b.date_sent == a.date_sent

abbrev pub sizes_of : List Row → List ℕ
sizes_of copies = sort_by leb (unique (map (λ (c : Row). c.size) copies))

-- The second loop of `_sets`.
unfoldable pub sort_sets : Dict Str (List Row) → List Str × List Mismatch
sort_sets [] = ([], [])
sort_sets ((mid, []) ∷ d) = sort_sets d
sort_sets ((mid, first ∷ others) ∷ d) =
    let (safe, skipped) = sort_sets d in
    if ltb (suc (length others)) 2
    then (safe, skipped)
    else if every (same_bytes first) (first ∷ others)
    then (mid ∷ safe, skipped)
    else (
      safe,
      record { id = mid; copies = suc (length others); sizes = sizes_of (first ∷ others) }
          ∷ skipped,
    )

-- `_sets`
unfoldable pub sets : List Row → List Str × List Mismatch
sets rows = sort_sets (group_onto (λ (r : Row). r.message_id) [] rows)

-- One copy of a message that several accounts hold.
pub record Copy : Type 0 where
  pub message_id : Str
  pub account : Str
  pub mailbox_url : Str
  pub rowid : ℕ

pub data Why : Type 0 where
  no_keeper unreadable bodies_differ : Why

pub record Skipped : Type 0 where
  pub id : Str
  pub why : Why
  pub accounts : List Str

pub record Plan : Type 0 where
  pub losers : Dict Str (List Str)
  pub keepers : Dict Str Str
  pub skipped : List Skipped

abbrev pub accounts_of : List Copy → List Str
accounts_of copies = map (λ (c : Copy). c.account) copies

-- `next((a for a in order if a in accounts), None)`
unfoldable pub first_in : List Str → List Str → Option Str
first_in [] accounts = none
first_in (a ∷ order) accounts =
    let rest = first_in order accounts in if contains accounts a then some a else rest

abbrev pub skip : Str → Why → List Copy → Plan → Plan
skip mid why copies p = record p {
  skipped =
      p.skipped
      ++ (record { id = mid; why = why; accounts = sort_by text_le (unique (accounts_of copies)) }
          ∷ []);
}

-- `for c in targets: losers.setdefault(...).append(mid)`
unfoldable pub add_losers : Str → List Copy → Dict Str (List Str) → Dict Str (List Str)
add_losers mid [] losers = losers
add_losers mid (c ∷ cs) losers = add_losers mid cs (push c.mailbox_url mid losers)

module _ (is_trash : Str → Bool) (order : List Str) (fingerprint : ℕ → Option Str) where
  abbrev pub prints_of : List Copy → List (Option Str)
  prints_of copies = map (λ (c : Copy). fingerprint c.rowid) copies

  abbrev pub is_target : Str → Copy → Bool
  is_target winner c = not (c.account == winner) && not (is_trash c.mailbox_url)

  unfoldable pub targets : Str → List Copy → List Copy
  targets winner copies = select (is_target winner) copies

  -- The targets of a set that passed every test.
  unfoldable pub collapse : Str → Str → List Copy → Plan → Plan
  collapse mid winner [] p = p
  collapse mid winner (c ∷ cs) p = record p {
    keepers = insert mid winner p.keepers;
    losers = add_losers mid (c ∷ cs) p.losers;
  }

  -- The body of the second loop of `cross_account_plan`.
  unfoldable pub plan_set : Str → List Copy → Plan → Plan
  plan_set mid copies p =
      if ltb (length (unique (accounts_of copies))) 2
      then p
      else elim (first_in order (accounts_of copies)) [
        | none ↦ skip mid no_keeper copies p
        | some winner ↦
            if not (every is_some (prints_of copies))
            then skip mid unreadable copies p
            else if not (length (unique (prints_of copies)) == 1)
            then skip mid bodies_differ copies p
            else collapse mid winner (targets winner copies) p
      ]

  unfoldable pub plan_sets : Dict Str (List Copy) → Plan → Plan
  plan_sets [] p = p
  plan_sets ((mid, copies) ∷ d) p = plan_sets d (plan_set mid copies p)

  -- `cross_account_plan`
  unfoldable pub cross_account_plan : List Copy → Plan
  cross_account_plan rows =
      plan_sets (group_onto (λ (r : Copy). r.message_id) [] rows)
        (record { losers = []; keepers = []; skipped = [] })

-- The step of `_chunks`: `_CHUNK` is below `MAX_TARGETS`.
abbrev pub chunk : ℕ
chunk = 8

abbrev pub max_targets : ℕ
max_targets = 25

abbrev pub chunk_size : ℕ
chunk_size = if leb chunk max_targets then chunk else max_targets

-- `_chunks`, on a number of rounds.
unfoldable pub chunks_in : {A : Type 0} → ℕ → List A → List (List A)
chunks_in zero items = []
chunks_in (suc n) [] = []
chunks_in (suc n) (x ∷ xs) = take chunk_size (x ∷ xs) ∷ chunks_in n (drop chunk_size (x ∷ xs))

-- `_chunks`: there are no more chunks than items.
unfoldable pub chunks : {A : Type 0} → List A → List (List A)
chunks items = chunks_in (length items) items
