-- ===== src/Mail/Recover/Locate.antt =====
-- `locate` and `read_payloads` of macos_apps_mcp/adapters/mail_recover.py, with `emlx_payload` of
-- macos_apps_mcp/adapters/mail_index.py. The query of the index, the files of the store and Python's
-- `int` are parameters.
use macos_apps_mcp.Base.{
  ℕ, Str, codes, Bool, true, Option, none, some, List, [], ◌∷◌, map, if◌then◌else◌, ◌==◌, nat_eq,
  list_eq, option_eq, take,
}
use macos_apps_mcp.Base.Integer.{ℤ, pos, negsuc}
use macos_apps_mcp.Base.Dict.{Dict, lookup, insert}
use macos_apps_mcp.Base.Dict.Group.{or_empty, group_onto}
use macos_apps_mcp.Base.Sort.{unique}
use macos_apps_mcp.Base.Text.{partition, starts_with}
use macos_apps_mcp.Mail.Ids.{bare_id, stored_id}
use macos_apps_mcp.Mail.Recover.{Target, full, partial, absent}
use mathlib.Core.List.{reverse}

-- A row of `query_message_locations`.
pub record Location : Type 0 where
  pub message_id : Str
  pub mailbox_url : Str
  pub rowid : ℕ

-- A file that `root.rglob("*.emlx")` gives.
pub record StoreFile : Type 0 where
  pub name : Str
  pub path : Str

-- `next((c for c in candidates if p(c)), None)`
unfoldable pub first {ℓ} : {A : Type ℓ} → (A → Bool) → List A → Option A
first p [] = none
first p (x ∷ xs) = let rest = first p xs in if p x then some x else rest

abbrev pub or_else {ℓ} : {A : Type ℓ} → Option A → Option A → Option A
or_else (some x) other = some x
or_else none other = other

module _ (number : Str → Option ℕ) where
  -- `_rowid_paths`: `number` is `int` of a stem that passes `isdigit`.
  unfoldable pub rowid_paths_onto : Dict ℕ StoreFile → List StoreFile → Dict ℕ StoreFile
  rowid_paths_onto out [] = out
  rowid_paths_onto out (f ∷ fs) = elim (number (partition b'.' f.name).0) [
    | none ↦ rowid_paths_onto out fs
    | some n ↦ rowid_paths_onto (insert n f out) fs
  ]

  abbrev pub rowid_paths : List StoreFile → Dict ℕ StoreFile
  rowid_paths = rowid_paths_onto []

-- `by_id`
abbrev pub by_id : List Location → Dict Str (List Location)
by_id = group_onto (λ r. bare_id r.message_id) []

-- The three choices of a row, the best one first.
unfoldable pub choose : (Str → Option Str) → Target → List Location → Option Location
choose account_of t candidates = or_else (first (λ c. c.mailbox_url == t.folder) candidates) (
    or_else
      (elim t.account [
        | none ↦ none
        | some a ↦ first (λ c. account_of c.mailbox_url == some a) candidates
      ])
      (first (λ _. true) candidates))

-- `path.name.endswith(".partial.emlx")`
abbrev pub is_partial : StoreFile → Bool
is_partial f = starts_with (reverse (codes ".partial.emlx")) (reverse f.name)

-- The body of the loop of `locate`.
unfoldable pub locate_one :
    (Str → Option Str) → Dict Str (List Location) → Dict ℕ StoreFile → Target → Target
locate_one account_of groups paths t =
    elim (choose account_of t (or_empty (lookup (bare_id t.id) groups))) [
      | none ↦ record t { fidelity = absent }
      | some row ↦ elim (lookup row.rowid paths) [
        | none ↦ record t { rowid = some row.rowid; path = none; fidelity = absent }
        | some f ↦ record t {
          rowid = some row.rowid;
          path = some f.path;
          fidelity = if is_partial f then partial else full;
        }
      ]
    ]

-- `query_message_locations`, and the files below `mail_root()`; none without a root.
pub record Index : Type 0 where
  pub locations : List Str → List Location
  pub store : Option (List StoreFile)
  pub account_of : Str → Option Str
  pub number : Str → Option ℕ

abbrev pub store_paths : Index → List Location → Dict ℕ StoreFile
store_paths index [] = []
store_paths index (r ∷ rows) = elim index.store [
  | none ↦ []
  | some files ↦ rowid_paths index.number files
]

-- `locate`
unfoldable pub locate : Index → List Target → List Target
locate index [] = []
locate index (t ∷ ts) =
    let rows = index.locations (unique (map (λ x. stored_id x.id) (t ∷ ts))) in
    map (locate_one index.account_of (by_id rows) (store_paths index rows)) (t ∷ ts)

-- `emlx_payload`: `int` is Python's, of the bytes before the first line feed, stripped.
unfoldable pub emlx_payload : (List ℕ → Option ℤ) → List ℕ → List ℕ
emlx_payload int raw =
    let (head, found, tail) = partition 10 raw in
    if found
    then (elim (int head) [ none ↦ [] | some (negsuc n) ↦ [] | some (pos n) ↦ take n tail ])
    else []

-- The bytes to keep of the file at a target's path; none if there is no path, no readable file or no
-- message in it.
unfoldable pub payload_at : (Str → Option (List ℕ)) → Option Str → Option (List ℕ)
payload_at payload none = none
payload_at payload (some []) = none
payload_at payload (some (c ∷ path)) = elim (payload (c ∷ path)) [
  | none ↦ none
  | some [] ↦ none
  | some (b ∷ bytes) ↦ some (b ∷ bytes)
]

-- `read_payloads`
unfoldable pub read_payloads_onto :
    (Str → Option (List ℕ)) → Dict Str (List ℕ) → List Target → Dict Str (List ℕ)
read_payloads_onto payload out [] = out
read_payloads_onto payload out (t ∷ ts) = elim (payload_at payload t.path) [
  | none ↦ read_payloads_onto payload out ts
  | some bytes ↦ read_payloads_onto payload (insert t.id bytes out) ts
]
