-- ===== src/Files/Name/Bytes.antt =====
-- Sizes in bytes, and what cutting a name keeps.
use macos_apps_mcp.Base.{
  ℕ, ◌+◌, ◌-◌, ◌≤◌, Str, ◌≡◌, sym, ap, ◌∙◌, true, false, List, [], ◌∷◌, ◌++◌, arith, inl, inr,
  Bool-cases, leb, ◌==◌, nat_eq, nat_beq_iff, All,
}
use mathlib.Core.List.{reverse, reverse-append, reverse-reverse, append_assoc}
use macos_apps_mcp.Base.Lists.{All-reverse}
use macos_apps_mcp.Base.Text.{partition, split, cons_first, lstrip, strip, is_space}
use macos_apps_mcp.MailboxUrl.{last_piece}
use macos_apps_mcp.Files.Name.{utf8_size, bytes, take_bytes, rpartition, after_last}

pub bytes-append : (s t : Str) → bytes (s ++ t) ≡ bytes s + bytes t
unfolding bytes
bytes-append [] t = omega arith
bytes-append (c ∷ s) t = omega (arith, bytes-append s t)

pub take_bytes_le : (budget : ℕ) (s : Str) → bytes (take_bytes budget s) ≤ budget
unfolding bytes take_bytes
take_bytes_le budget [] = omega arith
take_bytes_le budget (c ∷ s) = elim (Bool-cases (leb (utf8_size c) budget)) [
  | inl fits ↦ rw fits (ground (arith, fits, take_bytes_le (budget - utf8_size c) s))
  | inr over ↦ rw over (omega arith)
]

pub All-take_bytes : (P : ℕ → Type 0) (budget : ℕ) (s : Str) → All P s → All P (take_bytes budget s)
unfolding take_bytes
All-take_bytes P budget [] a = tt
All-take_bytes P budget (c ∷ s) a = elim (Bool-cases (leb (utf8_size c) budget)) [
  | inl fits ↦ rw fits (a.0, All-take_bytes P (budget - utf8_size c) s a.1)
  | inr over ↦ rw over tt
]

partition-All :
    (P : ℕ → Type 0) (sep : ℕ) (s : Str)
    → All P s
    → All P (partition sep s).0 × All P (partition sep s).2
unfolding partition
partition-All P sep [] a = (tt, tt)
partition-All P sep (c ∷ s) a = elim (Bool-cases (c == sep)) [
  | inl here ↦ rw here (tt, a.1)
  | inr past ↦ rw past ((a.0, (partition-All P sep s a.1).0), (partition-All P sep s a.1).1)
]

partition_joins :
    (sep : ℕ) (s : Str)
    → (partition sep s).1 ≡ true
    → s ≡ (partition sep s).0 ++ (sep ∷ (partition sep s).2)
unfolding partition
partition_joins sep [] h = cc
partition_joins sep (c ∷ s) h = elim (Bool-cases (c == sep)) [
  | inl here ↦ rw here (ap (λ d. d ∷ s) ((nat_beq_iff c sep).0 here))
  | inr past ↦
      let there : (partition sep s).1 ≡ true = rw past at h in
      rw past (ap (λ t. c ∷ t) (partition_joins sep s there))
]

pub rpartition-All :
    (P : ℕ → Type 0) (s : Str) → All P s → All P (rpartition s).0 × All P (rpartition s).2
unfolding rpartition
rpartition-All P s a =
    let (ext, stem) = partition-All P b'.' (reverse s) (All-reverse P s a) in
    (All-reverse P _ stem, All-reverse P _ ext)

-- A name with a dot is its stem, the dot and its extension.
pub rpartition_joins :
    (s : Str) → (rpartition s).1 ≡ true → s ≡ (rpartition s).0 ++ (b'.' ∷ (rpartition s).2)
unfolding rpartition
rpartition_joins s h =
    sym (reverse-reverse s)
    ∙ ap reverse (partition_joins b'.' (reverse s) h)
    ∙ reverse-append (partition b'.' (reverse s)).0 (b'.' ∷ (partition b'.' (reverse s)).2)
    ∙ ap (λ t. t ++ reverse (partition b'.' (reverse s)).0)
        (reverse-append (b'.' ∷ []) (partition b'.' (reverse s)).2)
    ∙ append_assoc (reverse (partition b'.' (reverse s)).2) (b'.' ∷ [])
        (reverse (partition b'.' (reverse s)).0)

cons_first-All :
    (P : ℕ → Type 0) (c : ℕ) (ps : List Str) → P c → All (All P) ps → All (All P) (cons_first c ps)
cons_first-All P c [] h a = ((h, tt), tt)
cons_first-All P c (p ∷ ps) h a = ((h, a.0), a.1)

split-All : (P : ℕ → Type 0) (sep : ℕ) (s : Str) → All P s → All (All P) (split sep s)
unfolding split
split-All P sep [] a = (tt, tt)
split-All P sep (c ∷ s) a = elim (Bool-cases (c == sep)) [
  | inl here ↦ rw here (tt, split-All P sep s a.1)
  | inr past ↦ rw past (cons_first-All P c (split sep s) a.0 (split-All P sep s a.1))
]

last_piece-All : (P : ℕ → Type 0) (ps : List Str) → All (All P) ps → All P (last_piece ps)
last_piece-All P [] a = tt
last_piece-All P (p ∷ []) a = a.0
last_piece-All P (p ∷ q ∷ ps) a = last_piece-All P (q ∷ ps) a.1

pieces_free : (sep : ℕ) (s : Str) → All (All (λ c. (c == sep) ≡ false)) (split sep s)
unfolding split
pieces_free sep [] = (tt, tt)
pieces_free sep (c ∷ s) = elim (Bool-cases (c == sep)) [
  | inl here ↦ rw here (tt, pieces_free sep s)
  | inr past ↦
      rw past (cons_first-All (λ d. (d == sep) ≡ false) c (split sep s) past (pieces_free sep s))
]

-- What is after the last separator keeps what holds of each character.
pub after_last-All : (P : ℕ → Type 0) (sep : ℕ) (s : Str) → All P s → All P (after_last sep s)
unfolding after_last
after_last-All P sep s a = last_piece-All P (split sep s) (split-All P sep s a)

-- It has no separator.
pub after_last_free : (sep : ℕ) (s : Str) → All (λ c. (c == sep) ≡ false) (after_last sep s)
unfolding after_last
after_last_free sep s = last_piece-All (λ c. (c == sep) ≡ false) (split sep s) (pieces_free sep s)

lstrip-All : (P : ℕ → Type 0) (s : Str) → All P s → All P (lstrip is_space s)
unfolding lstrip
lstrip-All P [] a = tt
lstrip-All P (c ∷ s) a = elim (Bool-cases (is_space c)) [
  | inl space ↦ rw space (lstrip-All P s a.1)
  | inr other ↦ rw other a
]

pub strip-All : (P : ℕ → Type 0) (s : Str) → All P s → All P (strip s)
unfolding strip
strip-All P s a = All-reverse P _ (lstrip-All P _ (All-reverse P _ (lstrip-All P s a)))
