-- ===== src/Audit/Log.antt =====
-- `audit_write`, `_records` and `audit_read`: a JSONL file and its one rotated backup. A record is
-- kept as a value; a line that is not a record never enters the list. What the file system
-- allows is part of the state.
pub mod Appended
use macos_apps_mcp.Base.{
  ℕ, suc, ◌+◌, ◌≤◌, Str, ◌≡◌, refl, ◌∙◌, ap, Bool, true, false, not, ◌&&◌, Option, none, some, List,
  [], ◌∷◌, ◌++◌, arith, ltb, leb, if◌then◌else◌, take, length, length-take-le, All, Bool-cases,
  Option-cases, All-take, All-reverse, inl, inr,
}
use mathlib.Core.List.{reverse, reverse-append, append_assoc, append-nil}

abbrev pub audit_max_bytes : ℕ
audit_max_bytes = 5242880

abbrev pub audit_limit : ℕ
audit_limit = 50

pub record Log (R : Type 0) : Type 0 where
  pub backup : List R
  pub live : List R
  pub can_rotate : Bool
  pub can_append : Bool
  pub can_read_backup : Bool
  pub can_read_live : Bool

module _ {R : Type 0} (bytes : R → ℕ) where
  abbrev pub size : List R → ℕ
  size [] = 0
  size (r ∷ rs) = bytes r + size rs

  abbrev pub is_full : Log R → Bool
  is_full l = ltb audit_max_bytes (size l.live)

  -- `path.replace(...)` on a full log; the file that the append then makes can be read.
  abbrev pub rotated : Log R → Log R
  rotated l = record l {
    backup = l.live;
    live = [];
    can_read_backup = l.can_read_live;
    can_read_live = true;
  }

  abbrev pub appended : Log R → R → Log R × Bool
  appended l r = if l.can_append then (record l { live = l.live ++ (r ∷ []) }, true) else (l, false)

  -- `audit_write`: it never raises, and says whether the record was appended.
  unfoldable pub append : Log R → R → Log R × Bool
  append l r =
      if is_full l
      then (if l.can_rotate then appended (rotated l) r else (l, false))
      else appended l r

abbrev pub is_readable : {R : Type 0} → Log R → Bool
is_readable l = l.can_read_backup && l.can_read_live

-- `_records`, oldest first; none where one of the files shows as an error.
unfoldable pub records : {R : Type 0} → Log R → Option (List R)
records l = if is_readable l then some (l.backup ++ l.live) else none

-- `_records` without the errors: those of the files that can be read.
unfoldable pub readable : {R : Type 0} → Log R → List R
readable l =
    (if l.can_read_backup then l.backup else []) ++ (if l.can_read_live then l.live else [])

-- What a caller of `audit_read` gets.
pub data Answer (R : Type 0) : Type 0 where
  entries : List R → Answer R
  log_unreadable : Answer R

module _ {R : Type 0} (stamp : R → Str) (instant : Str → Option ℕ) (before : Str → Str → Bool) where
  -- The test of the loop of `audit_read`: by instant where both parse, else by text.
  unfoldable pub recent : Str → R → Bool
  recent since r = elim (instant since) [
    | none ↦ not (before (stamp r) since)
    | some from ↦ elim (instant (stamp r)) [
      | none ↦ not (before (stamp r) since)
      | some at ↦ leb from at
    ]
  ]

  -- The loop of `audit_read`; no `since`, or an empty one, drops nothing.
  unfoldable pub kept : Option Str → List R → List R
  kept since [] = []
  kept since (r ∷ rs) =
      let rest = kept since rs in
      elim since [
        | none ↦ r ∷ rest
        | some [] ↦ r ∷ rest
        | some (c ∷ s) ↦ if recent (c ∷ s) r then r ∷ rest else rest
      ]

  -- `audit_read`
  unfoldable pub audit_read : Option Str → ℕ → Log R → Answer R
  audit_read since limit l = elim (records l) [
    | none ↦ log_unreadable
    | some rs ↦ entries (take limit (reverse (kept since rs)))
  ]

module _ {R : Type 0} (bytes : R → ℕ) where
  -- After `audit_write` the log holds, in order, what it held before, except that a rotation
  -- gives up the old backup, and then the new record if the append succeeded.
  pub append_history :
      (l : Log R) (r : R)
      → (append bytes l r).0.backup ++ (append bytes l r).0.live
        ≡ (if is_full bytes l && l.can_rotate then l.live else l.backup ++ l.live)
          ++ (if (append bytes l r).1 then r ∷ [] else [])
  unfolding append
  append_history l r = ground (
    arith,
    append_assoc l.backup l.live (r ∷ []),
    append-nil l.live,
    append-nil (l.backup ++ l.live),
  )

module _ {R : Type 0} (stamp : R → Str) (instant : Str → Option ℕ) (before : Str → Str → Bool) where
  -- Its time stamp parses, to an instant before the given one.
  abbrev pub is_older : ℕ → R → Bool
  is_older from r = elim (instant (stamp r)) [ none ↦ false | some at ↦ ltb at from ]

  abbrev pub NotOlder : ℕ → R → Type 0
  NotOlder from r = is_older from r ≡ false

  recent-NotOlder :
      (since : Str) (from : ℕ) (r : R)
      → instant since ≡ some from
      → recent stamp instant before since r ≡ true
      → NotOlder from r
  unfolding recent
  recent-NotOlder since from r e h = ground arith

  All-kept :
      (c : ℕ) (s : Str) (from : ℕ) (rs : List R)
      → instant (c ∷ s) ≡ some from
      → All (NotOlder from) (kept stamp instant before (some (c ∷ s)) rs)
  unfolding kept
  All-kept c s from [] e = tt
  All-kept c s from (r ∷ rs) e = elim (Bool-cases (recent stamp instant before (c ∷ s) r)) [
    | inl yes_kept ↦ rw yes_kept (recent-NotOlder (c ∷ s) from r e yes_kept, All-kept c s from rs e)
    | inr dropped ↦ rw dropped (All-kept c s from rs e)
  ]

  kept-append :
      (since : Option Str) (xs ys : List R)
      → kept stamp instant before since (xs ++ ys)
        ≡ kept stamp instant before since xs ++ kept stamp instant before since ys
  unfolding kept
  kept-append since [] ys = refl
  kept-append since (x ∷ xs) ys = ground (arith, kept-append since xs ys)

  -- For a `since` that parses to an instant, no entry that audit_read returns has a time stamp that
  -- parses to an earlier one; and there are at most `limit` entries.
  pub audit_read_bounds :
      (c : ℕ) (s : Str) (limit from : ℕ) (l : Log R) (rs : List R)
      → instant (c ∷ s) ≡ some from
      → audit_read stamp instant before (some (c ∷ s)) limit l ≡ entries rs
      → (length rs ≤ limit) × All (NotOlder from) rs
  unfolding audit_read
  audit_read_bounds c s limit from l rs e h = elim (Option-cases (records l)) [
    | inl unreadable ↦ cc (rw (unreadable, audit_read) at h)
    | inr (all, there) ↦
        let found = kept stamp instant before (some (c ∷ s)) all in
        let shown : rs ≡ take limit (reverse found) = ground arith in
        rw shown (
          length-take-le limit (reverse found),
          All-take (NotOlder from) limit (reverse found)
              (All-reverse (NotOlder from) found (All-kept c s from all e)),
        )
  ]

  kept_all : (xs : List R) → kept stamp instant before none xs ≡ xs
  unfolding kept
  kept_all [] = refl
  kept_all (x ∷ xs) = rw (kept_all xs)

  audit_read_last :
      (l : Log R) (xs : List R) (r : R) (n : ℕ)
      → is_readable l ≡ true
      → l.backup ++ l.live ≡ xs ++ (r ∷ [])
      → audit_read stamp instant before none (suc n) l ≡ entries (r ∷ take n (reverse xs))
  unfolding audit_read records
  audit_read_last l xs r n k h =
      ground (arith, kept_all (l.backup ++ l.live), reverse-append xs (r ∷ []))

  append-is_readable :
      (bytes : R → ℕ) (l : Log R) (r : R)
      → is_readable l ≡ true
      → is_readable (append bytes l r).0 ≡ true
  unfolding append
  append-is_readable bytes l r h = ground (arith, h)

  -- A record that `audit_write` has just appended is the first entry of an audit_read with no
  -- `since`, unless one of its files cannot be read.
  pub append-audit_read :
      (bytes : R → ℕ) (l : Log R) (r : R) (n : ℕ)
      → (append bytes l r).1 ≡ true
      → is_readable l ≡ true
      → (older : List R) × (audit_read stamp instant before none (suc n) (append bytes l r).0
          ≡ entries (r ∷ older))
  append-audit_read bytes l r n h k =
      let old = if is_full bytes l && l.can_rotate then l.live else l.backup ++ l.live in
      let history = append_history bytes l r ∙ ap (λ b. old ++ (if b then r ∷ [] else [])) h in
      (
        take n (reverse old),
        audit_read_last (append bytes l r).0 old r n (append-is_readable bytes l r k) history,
      )
