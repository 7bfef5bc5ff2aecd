-- ===== src/Files/Name/Safe.antt =====
-- Lemmas on the names that `safe_basename` of macos_apps_mcp/files.py gives.
use macos_apps_mcp.Base.{
  ℕ, ◌+◌, ◌-◌, ◌≤◌, Str, codes, ◌≡◌, refl, Bool, true, false, not, ◌&&◌, ◌||◌, [], ◌∷◌, ◌++◌, arith,
  inl, inr, Bool-cases, leb, ltb, ◌==◌, nat_eq, list_eq, list_beq, contains, select, All,
}
use mathlib.Core.Path.{subst}
use mathlib.Core.List.{head-eq_of_cons-eq}
use macos_apps_mcp.Base.Lists.{All-append, All-map, All-select, All-zip}
use macos_apps_mcp.Base.Text.{strip}
use macos_apps_mcp.Files.Name.{
  max_name_bytes, utf8_size, bytes, take_bytes, rpartition, shorten, truncate, after_last, hides,
  guarded, component, safe_basename,
}
use macos_apps_mcp.Files.Name.Bytes.{
  bytes-append, take_bytes_le, All-take_bytes, rpartition-All, rpartition_joins, after_last-All,
  after_last_free, strip-All,
}

-- No separator of any kind, and nothing of the dropped categories but the underscore put in front.
abbrev pub is_allowed : (ℕ → Bool) → ℕ → Bool
is_allowed is_forbidden c =
    not (c == b'/') && not (c == 0x5C) && not (c == b':') && (not (is_forbidden c) || c == b'_')

-- One path component that is safe to create: not empty, not hidden, neither `.` nor `..`, short.
pub record IsName (is_forbidden : ℕ → Bool) (s : Str) : Type 0 where
  pub some_text : (s == []) ≡ false
  pub visible : hides s ≡ false
  pub allowed : All (λ c. is_allowed is_forbidden c ≡ true) s
  pub short : bytes s ≤ 200

utf8_size_le : (c : ℕ) → utf8_size c ≤ 4
utf8_size_le c = ground arith

-- A text that starts well still does when more follows.
first-append :
    (s t : Str)
    → (s == []) ≡ false
    → hides s ≡ false
    → ((s ++ t == []) ≡ false) × (hides (s ++ t) ≡ false)
unfolding list_beq
first-append [] t h v = ground (arith, h)
first-append (c ∷ s) t h v = (refl, v)

All-after : (P : ℕ → Type 0) (s t : Str) → All P (s ++ t) → All P t
All-after P [] t a = a
All-after P (c ∷ s) t a = All-after P s t a.1

dot_bytes : (ext : Str) → bytes (b'.' ∷ ext) ≡ 1 + bytes ext
unfolding bytes
dot_bytes ext = refl

short_cut :
    (budget : ℕ) (stem ext : Str)
    → bytes ext ≤ 20
    → budget ≡ max_name_bytes - (1 + bytes ext)
    → bytes (take_bytes budget stem ++ (b'.' ∷ ext)) ≤ 200
short_cut budget stem ext h e = omega (
  arith,
  bytes-append (take_bytes budget stem) (b'.' ∷ ext),
  dot_bytes ext,
  take_bytes_le budget stem,
  h,
  e,
)

module _ (is_forbidden : ℕ → Bool) where
  abbrev Allowed : ℕ → Type 0
  Allowed c = is_allowed is_forbidden c ≡ true

  -- Before the cut.
  take_bytes-first :
      (budget c : ℕ) (s : Str)
      → 4 ≤ budget
      → (c == b'.') ≡ false
      → ((take_bytes budget (c ∷ s) == []) ≡ false) × (hides (take_bytes budget (c ∷ s)) ≡ false)
  unfolding take_bytes list_beq
  take_bytes-first budget c s h visible = elim (Bool-cases (leb (utf8_size c) budget)) [
    | inl fits ↦ rw fits (refl, visible)
    | inr over ↦ ground (arith, over, h, utf8_size_le c)
  ]

  underscore-Allowed : Allowed b'_'
  underscore-Allowed = ground arith

  -- The stem that fits, the dot and the extension.
  cut-IsName :
      (c : ℕ) (s stem ext : Str)
      → c ∷ s ≡ stem ++ (b'.' ∷ ext)
      → (c == b'.') ≡ false
      → All Allowed (stem ++ (b'.' ∷ ext))
      → All Allowed stem
      → bytes ext ≤ 20
      → IsName is_forbidden (take_bytes (max_name_bytes - (1 + bytes ext)) stem ++ (b'.' ∷ ext))
  cut-IsName c s [] ext e visible whole a h =
      let p : c ≡ b'.' = head-eq_of_cons-eq e in ground (arith, visible, p)
  cut-IsName c s (d ∷ t) ext e visible whole a h =
      let p : c ≡ d = head-eq_of_cons-eq e in
      let budget = max_name_bytes - (1 + bytes ext) in
      let (some_text, shown) = take_bytes-first budget d t (omega (arith, h)) (rw (← p) visible) in
      let (text, first) = first-append (take_bytes budget (d ∷ t)) (b'.' ∷ ext) some_text shown in
      record {
        some_text = text;
        visible = first;
        allowed =
            All-append Allowed (take_bytes budget (d ∷ t)) (b'.' ∷ ext)
              (All-take_bytes Allowed budget (d ∷ t) a)
              (All-after Allowed (d ∷ t) (b'.' ∷ ext) whole);
        short = short_cut budget (d ∷ t) ext h refl;
      }

  shorten-IsName :
      (c : ℕ) (s : Str)
      → (c == b'.') ≡ false
      → All Allowed (c ∷ s)
      → IsName is_forbidden (shorten (c ∷ s))
  unfolding shorten
  shorten-IsName c s visible a =
      let (stem, dot, ext) = rpartition (c ∷ s) in
      elim (Bool-cases (not dot || ltb 20 (bytes ext))) [
        | inl whole ↦
            let (some_text, shown) = take_bytes-first max_name_bytes c s (omega arith) visible in
            rw whole (record {
              some_text = some_text;
              visible = shown;
              allowed = All-take_bytes Allowed max_name_bytes (c ∷ s) a;
              short = take_bytes_le max_name_bytes (c ∷ s);
            })
        | inr parts ↦
            let found : dot ≡ true = ground (arith, parts) in
            let joined = rpartition_joins (c ∷ s) found in
            rw parts (
              cut-IsName c s stem ext joined visible (subst (All Allowed) joined a)
                (rpartition-All Allowed (c ∷ s) a).0 (ground (arith, parts)))
      ]

  truncate-IsName :
      (c : ℕ) (s : Str)
      → (c == b'.') ≡ false
      → All Allowed (c ∷ s)
      → IsName is_forbidden (truncate (c ∷ s))
  unfolding truncate
  truncate-IsName c s visible a = elim (Bool-cases (leb (bytes (c ∷ s)) max_name_bytes)) [
    | inl fits ↦ rw fits (record {
      some_text = unfold list_beq in refl;
      visible = visible;
      allowed = a;
      short = ground (arith, fits);
    })
    | inr over ↦ rw over (shorten-IsName c s visible a)
  ]

  guarded-IsName :
      (fallback n : Str)
      → IsName is_forbidden fallback
      → All Allowed n
      → IsName is_forbidden (guarded fallback n)
  unfolding guarded list_beq
  guarded-IsName fallback [] f a = f
  guarded-IsName fallback (c ∷ s) f a =
      elim (Bool-cases (contains ([] ∷ codes "." ∷ codes ".." ∷ []) (c ∷ s))) [
        | inl special ↦ rw special f
        | inr named ↦ rw named (elim (Bool-cases (c == b'.')) [
          | inl hidden ↦ rw hidden (truncate-IsName b'_' (c ∷ s) refl (underscore-Allowed, a))
          | inr visible ↦ rw visible (truncate-IsName c s visible a)
        ])
      ]

  -- However hostile the given name, what is derived from it is one path component that is not
  -- empty, not hidden and at most 200 bytes, without a separator of POSIX, Windows or HFS and
  -- without a dropped character, if the fallback is such a name.
  pub safe_basename-IsName :
      (nfc : Str → Str) (name fallback : Str)
      → IsName is_forbidden fallback
      → IsName is_forbidden (safe_basename nfc is_forbidden name fallback)
  unfolding safe_basename component
  safe_basename-IsName nfc name fallback f =
      let kept = select (λ c. not (is_forbidden c)) (nfc name) in
      let after_slash = after_last b'/' kept in
      let after_back = after_last 0x5C after_slash in
      let after_colon = after_last b':' after_back in
      guarded-IsName fallback (strip after_colon) f (
        strip-All Allowed after_colon (
          All-map _ Allowed after_colon (λ c h. ground (arith, h.0, h.1.0, h.1.1.0, h.1.1.1))
            (All-zip _ _ after_colon (after_last_free b':' after_back) (
              after_last-All _ b':' after_back (
                All-zip _ _ after_back (after_last_free 0x5C after_slash) (
                  after_last-All _ 0x5C after_slash (
                    All-zip _ _ after_slash (after_last_free b'/' kept) (
                      after_last-All _ b'/' kept (
                        All-select (λ c. is_forbidden c ≡ false) (λ c. not (is_forbidden c))
                          (λ c h. ground (arith, h)) (nfc name))))))))))
