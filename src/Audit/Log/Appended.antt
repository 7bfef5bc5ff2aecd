-- ===== src/Audit/Log/Appended.antt =====
-- Where the records of macos_apps_mcp/audit.py stand after `audit_write`, across a rotation.
use macos_apps_mcp.Base.{
  ℕ, ◌≡◌, ◌∙◌, ap, Bool, true, ◌&&◌, Bool-cases, inl, inr, All, All-append, All-back, List, [], ◌∷◌,
  ◌++◌, arith, if◌then◌else◌,
}
use macos_apps_mcp.Audit.Log.{Log, append, is_full, is_readable, readable, append_history}
use mathlib.Core.List.{append_assoc}

-- The record stands in one of the two files.
abbrev pub Survives : {R : Type 0} → R → Log R → Type 0
Survives {R} r l = (older : List R) × (newer : List R) × (l.backup ++ l.live ≡ older ++ r ∷ newer)

pub live-Survives :
    {R : Type 0} (l : Log R) (r : R) (xs : List R) → l.live ≡ xs ++ r ∷ [] → Survives r l
live-Survives l r xs h = (l.backup ++ xs, [], rw (h, append_assoc l.backup xs (r ∷ [])))

module _ {R : Type 0} (bytes : R → ℕ) where
  -- A record that could be appended is the last one of the live file.
  pub append-live :
      (l : Log R) (r : R)
      → (append bytes l r).1 ≡ true
      → (append bytes l r).0.live
        ≡ (if is_full bytes l && l.can_rotate then [] else l.live) ++ r ∷ []
  unfolding append
  append-live l r h = ground arith

  -- The last record of the live file survives the next append, whatever that does.
  pub append-survives :
      (l : Log R) (r s : R) (xs : List R)
      → l.live ≡ xs ++ r ∷ []
      → (older : List R) × ((append bytes l s).0.backup ++ (append bytes l s).0.live
          ≡ older ++ r ∷ (if (append bytes l s).1 then s ∷ [] else []))
  append-survives l r s xs h =
      let newer = if (append bytes l s).1 then s ∷ [] else [] in
      let older = if is_full bytes l && l.can_rotate then xs else l.backup ++ xs in
      let moved : (if is_full bytes l && l.can_rotate then l.live else l.backup ++ l.live)
          ≡ older ++ r ∷ [] =
        ground (arith, append_assoc l.backup xs (r ∷ [])) in
      (
        older,
        append_history bytes l s ∙ ap (λ ys. ys ++ newer) moved ∙ append_assoc older (r ∷ []) newer,
      )

-- Where both files can be read, nothing is left out.
pub readable_all : {R : Type 0} (l : Log R) → is_readable l ≡ true → readable l ≡ l.backup ++ l.live
unfolding readable
readable_all l h = ground arith

-- Nothing stands in the way of a write or of a read.
abbrev pub is_open : {R : Type 0} → Log R → Bool
is_open l = l.can_append && (l.can_rotate && is_readable l)

pub append-is_open :
    {R : Type 0} (bytes : R → ℕ) (l : Log R) (r : R)
    → is_open l ≡ true
    → ((append bytes l r).1 ≡ true) × (is_open (append bytes l r).0 ≡ true)
unfolding append
append-is_open bytes l r h = (ground (arith, h), ground (arith, h))

pub append-All :
    {R : Type 0} (bytes : R → ℕ) (P : R → Type 0) (l : Log R) (r : R)
    → All P (l.backup ++ l.live)
    → P r
    → All P ((append bytes l r).0.backup ++ (append bytes l r).0.live)
append-All bytes P l r h k =
    let rotates = is_full bytes l && l.can_rotate in
    let old : All P (if rotates then l.live else l.backup ++ l.live) = elim (Bool-cases rotates) [
      | inl moved ↦ rw moved (All-back P l.backup l.live h)
      | inr still ↦ rw still h
    ] in
    let new : All P (if (append bytes l r).1 then r ∷ [] else []) =
      elim (Bool-cases (append bytes l r).1) [
        | inl written ↦ rw written (k, tt)
        | inr lost ↦ rw lost tt
      ] in
    rw (append_history bytes l r) (
      All-append P (if rotates then l.live else l.backup ++ l.live)
        (if (append bytes l r).1 then r ∷ [] else []) old new)
