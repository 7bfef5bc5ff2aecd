-- ===== src/Dedupe/Plan/Losers.antt =====
-- When a copy may go to Trash, and what each step of the cross-account plan adds.
use macos_apps_mcp.Base.{
  ℕ, Str, ◌≡◌, sym, ap, ◌∙◌, Bool, true, false, not, ◌&&◌, Option, some, List, [], ◌∷◌, arith, inl,
  inr, is_some, Bool-cases, Option-cases, ◌==◌, nat_eq, list_eq, option_eq, list_beq_iff, beq_refl,
  contains, length, every, some_of, select, All,
}
use mathlib.Core.Path.{subst}
use macos_apps_mcp.Base.Lists.{every-map}
use macos_apps_mcp.Base.Dict.{Dict, lookup, insert, lookup-insert}
use macos_apps_mcp.Base.Dict.Entries.{Entries}
use macos_apps_mcp.Base.Dict.Group.{or_empty, push, group_onto, lookup-group_onto, Entries-push}
use macos_apps_mcp.Base.Sort.{unique, unique_single}
use macos_apps_mcp.Dedupe.Plan.{
  Copy, Plan, accounts_of, first_in, add_losers, prints_of, is_target, targets,
}

-- The copies of one message.
unfoldable pub copies_of : List Copy → Str → List Copy
copies_of rows mid = select (λ (r : Copy). r.message_id == mid) rows

module _ (is_trash : Str → Bool) (order : List Str) (fingerprint : ℕ → Option Str) where
  -- A copy of `mid` in the mailbox `url` may go: the first account of the order that holds the
  -- message keeps its copy, it is another account, the mailbox is no Trash, and all copies have
  -- the same readable body.
  pub record IsLoser (rows : List Copy) (url mid : Str) : Type 0 where
    pub winner : Str
    pub first : first_in order (accounts_of (copies_of rows mid)) ≡ some winner
    pub held : contains (accounts_of (copies_of rows mid)) winner ≡ true
    pub target :
        some_of
          (λ (c : Copy). c.mailbox_url == url && not (c.account == winner))
          (copies_of rows mid)
        ≡ true
    pub not_trash : is_trash url ≡ false
    pub print : Str
    pub same_body :
        every (λ (c : Copy). fingerprint c.rowid == some print) (copies_of rows mid) ≡ true

  -- The account that keeps `mid` is recorded.
  abbrev pub Kept : List Copy → Dict Str Str → Str → Type 0
  Kept rows keepers mid = lookup mid keepers ≡ first_in order (accounts_of (copies_of rows mid))

  abbrev pub Loses : List Copy → Dict Str Str → Str → Str → Type 0
  Loses rows keepers url mid = IsLoser rows url mid × Kept rows keepers mid

  -- Each loser of the plan may go, and the plan says who keeps the message.
  abbrev pub IsSafe : List Copy → Plan → Type 0
  IsSafe rows p = Entries (λ url. All (Loses rows p.keepers url)) p.losers

first_in_held :
    (order accounts : List Str) (w : Str)
    → first_in order accounts ≡ some w
    → contains accounts w ≡ true
unfolding first_in
first_in_held [] accounts w h = cc
first_in_held (a ∷ order) accounts w h = ground (arith, first_in_held order accounts w)

-- A group of the rows is the copies of its message.
pub group-copies :
    (rows : List Copy) (mid : Str) (copies : List Copy)
    → lookup mid (group_onto (λ (r : Copy). r.message_id) [] rows) ≡ some copies
    → copies ≡ copies_of rows mid
unfolding copies_of lookup
group-copies rows mid copies there =
    sym (ap or_empty there) ∙ lookup-group_onto (λ (r : Copy). r.message_id) mid [] rows

module _ (is_trash : Str → Bool) (order : List Str) (fingerprint : ℕ → Option Str) where
  -- Equal prints that are all readable are one text.
  pub same_print :
      (c : Copy) (cs : List Copy)
      → every is_some (prints_of is_trash order fingerprint (c ∷ cs)) ≡ true
      → (length (unique (prints_of is_trash order fingerprint (c ∷ cs))) == 1) ≡ true
      → (print : Str) × (every (λ (c : Copy). fingerprint c.rowid == some print) (c ∷ cs) ≡ true)
  same_print c cs readable one = elim (Option-cases (fingerprint c.rowid)) [
    | inl absent ↦ cc
    | inr (p, there) ↦ (
      p,
      subst (λ o. every (λ (c : Copy). fingerprint c.rowid == o) (c ∷ cs) ≡ true) there
          (sym (
              every-map (λ y. y == fingerprint c.rowid) (λ (c : Copy). fingerprint c.rowid)
                (c ∷ cs))
            ∙ unique_single (fingerprint c.rowid) (prints_of is_trash order fingerprint cs) one),
    )
  ]

  -- A target of a set that passed the tests may go.
  pub target-IsLoser :
      (rows : List Copy) (mid winner print : Str) (c : Copy)
      → first_in order (accounts_of (copies_of rows mid)) ≡ some winner
      → every (λ (c : Copy). fingerprint c.rowid == some print) (copies_of rows mid) ≡ true
      → some_of
          (λ (d : Copy). d.mailbox_url == c.mailbox_url && not (d.account == winner))
          (copies_of rows mid)
        ≡ true
      → is_trash c.mailbox_url ≡ false
      → IsLoser is_trash order fingerprint rows c.mailbox_url mid
  target-IsLoser rows mid winner print c first same there not_trash = record {
    winner = winner;
    first = first;
    held = first_in_held order (accounts_of (copies_of rows mid)) winner first;
    target = there;
    not_trash = not_trash;
    print = print;
    same_body = same;
  }

  pub targets_there :
      (winner : Str) (cs whole : List Copy)
      → ((c : Copy)
          → some_of (λ (d : Copy). d.mailbox_url == c.mailbox_url && not (d.account == winner)) cs
            ≡ true
          → some_of
              (λ (d : Copy). d.mailbox_url == c.mailbox_url && not (d.account == winner))
              whole
            ≡ true)
      → All
          (λ (c : Copy).
            (some_of
                (λ (d : Copy). d.mailbox_url == c.mailbox_url && not (d.account == winner))
                whole
              ≡ true)
            × (is_trash c.mailbox_url ≡ false))
          (targets is_trash order fingerprint winner cs)
  unfolding targets select
  targets_there winner [] whole f = tt
  targets_there winner (c ∷ cs) whole f =
      let rest = targets_there winner cs whole (λ k m. f k (ground (arith, m))) in
      elim (Bool-cases (is_target is_trash order fingerprint winner c)) [
        | inl wanted ↦
            rw wanted
              ((f c (ground (arith, wanted, beq_refl c.mailbox_url)), ground (arith, wanted)), rest)
        | inr unwanted ↦ rw unwanted rest
      ]

  pub Kept-insert :
      (rows : List Copy) (keepers : Dict Str Str) (mid k winner : Str)
      → first_in order (accounts_of (copies_of rows mid)) ≡ some winner
      → Kept is_trash order fingerprint rows keepers k
      → Kept is_trash order fingerprint rows (insert mid winner keepers) k
  Kept-insert rows keepers mid k winner first kept =
      lookup-insert mid k winner keepers ∙ (elim (Bool-cases (mid == k)) [
        | inl same ↦ rw same (
            sym first
            ∙ ap (λ i. first_in order (accounts_of (copies_of rows i)))
                ((list_beq_iff mid k).0 same))
        | inr other ↦ rw other kept
      ])

  pub add_losers_lem :
      (Q : Str → Str → Type 0) (mid : Str) (cs : List Copy) (d : Dict Str (List Str))
      → All (λ (c : Copy). Q c.mailbox_url mid) cs
      → Entries (λ url. All (Q url)) d
      → Entries (λ url. All (Q url)) (add_losers mid cs d)
  unfolding add_losers
  add_losers_lem Q mid [] d a h = h
  add_losers_lem Q mid (c ∷ cs) d a h =
      add_losers_lem Q mid cs (push c.mailbox_url mid d) a.1
        (Entries-push Q c.mailbox_url mid d a.0 h)
