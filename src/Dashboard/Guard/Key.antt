-- ===== src/Dashboard/Guard/Key.antt =====
-- The page key: the cookie that carries it, and the link that sets it.
use macos_apps_mcp.Base.{
  ℕ, Str, codes, ◌≡◌, refl, ◌∙◌, ap, Bool, true, false, ◌&&◌, ◌||◌, List, [], ◌∷◌, ◌++◌, arith, leb,
  if◌then◌else◌, ◌==◌, nat_eq, list_eq, list_beq, list_beq_iff, beq_refl, All-append, ◌↔◌, contains,
  All, Bool-cases, inl, inr, ◌⊎◌,
}
use macos_apps_mcp.Base.Dict.{Dict}
use macos_apps_mcp.Base.Text.{split, partition}
use macos_apps_mcp.Base.Text.Split.{split-append, split_none, partition-append}
use macos_apps_mcp.Base.Text.Strip.{Free, strip-Free}
use macos_apps_mcp.Dashboard.Guard.{
  Scope, refusal, redirect, needs_key, key_cookie, root_path, is_byte_space, strip_bytes,
  pair_is_key, any_pair_is_key, has_key, is_page, all_lower, first_value, link,
}

or_true : (b : Bool) → (b || true) ≡ true
or_true true = refl
or_true false = refl

any_pair_is_key-append :
    (key : Str) (ps qs : List Str)
    → any_pair_is_key key (ps ++ qs) ≡ (any_pair_is_key key ps || any_pair_is_key key qs)
unfolding any_pair_is_key
any_pair_is_key-append key [] qs = refl
any_pair_is_key-append key (p ∷ ps) qs = ground (arith, any_pair_is_key-append key ps qs)

has_key-append :
    (key : Str) (xs ys : List (Str × Str))
    → has_key key (xs ++ ys) ≡ (has_key key xs || has_key key ys)
unfolding has_key
has_key-append key [] ys = refl
has_key-append key ((n, v) ∷ xs) ys = ground (arith, has_key-append key xs ys)

any_pair_middle :
    (key u pair w : Str)
    → any_pair_is_key key (split b';' pair) ≡ true
    → any_pair_is_key key (split b';' (u ++ (b';' ∷ (pair ++ (b';' ∷ w))))) ≡ true
any_pair_middle key u pair w h = rw (split-append b';' u (pair ++ (b';' ∷ w))) (
    rw (any_pair_is_key-append key (split b';' u)) (
      rw (split-append b';' pair w)
        (rw (any_pair_is_key-append key (split b';' pair)) (rw h (ground arith)))))

has_key-cookie :
    (key value : Str) (hs : List (Str × Str))
    → any_pair_is_key key (split b';' value) ≡ true
    → has_key key ((codes "cookie", value) ∷ hs) ≡ true
unfolding has_key list_beq
has_key-cookie key value hs h = rw h

-- No planted cookie shadows the real one: whatever headers stand around a cookie header, and
-- whatever pairs stand before and after it in there, a pair that carries the key lets the
-- request in.
pub has_key_anywhere :
    (key before_pairs pair after_pairs : Str) (before after : List (Str × Str))
    → any_pair_is_key key (split b';' pair) ≡ true
    → has_key key (
        before
        ++ ((codes "cookie", before_pairs ++ (b';' ∷ (pair ++ (b';' ∷ after_pairs)))) ∷ after))
      ≡ true
has_key_anywhere key u pair w before after h =
    let value = u ++ (b';' ∷ (pair ++ (b';' ∷ w))) in
    let held = has_key-cookie key value after (any_pair_middle key u pair w h) in
    has_key-append key before ((codes "cookie", value) ∷ after)
    ∙ ap (λ b. has_key key before || b) held
    ∙ or_true (has_key key before)

-- The characters of a key that `dashboard_key` accepts.
abbrev pub is_key_char : ℕ → Bool
is_key_char c =
    (leb b'A' c && leb c b'Z')
    || (leb b'a' c && leb c b'z')
    || (leb b'0' c && leb c b'9')
    || c == b'_'
    || c == b'-'

abbrev pub IsKey : Str → Type 0
IsKey = All (λ c. is_key_char c ≡ true)

-- The `Cookie` header value that a browser sends for the cookie that `_link` sets.
abbrev pub cookie_pair : Str → Str
cookie_pair key = key_cookie ++ (b'=' ∷ key)

-- Such a key holds no separator and no blank.
key_char_plain : (c : ℕ) → is_key_char c ≡ true → (is_byte_space c ≡ false) × ((c == b';') ≡ false)
unfolding is_byte_space
key_char_plain c h = ground arith

IsKey-Free : (s : Str) → IsKey s → Free is_byte_space s
IsKey-Free [] h = tt
IsKey-Free (c ∷ s) h = ((key_char_plain c h.0).0, IsKey-Free s h.1)

IsKey-no_semicolon : (s : Str) → IsKey s → contains s b';' ≡ false
IsKey-no_semicolon [] h = refl
IsKey-no_semicolon (c ∷ s) h = ground (arith, key_char_plain c h.0, IsKey-no_semicolon s h.1)

cookie_pair-Free : (key : Str) → IsKey key → Free is_byte_space (cookie_pair key)
unfolding is_byte_space
cookie_pair-Free key h =
    All-append (λ c. is_byte_space c ≡ false) key_cookie (b'=' ∷ key) (ground arith)
      (refl, IsKey-Free key h)

cookie_pair_lem : (key : Str) → IsKey key → pair_is_key key (cookie_pair key) ≡ true
unfolding pair_is_key strip_bytes
cookie_pair_lem key h =
    let clean : strip_bytes (cookie_pair key) ≡ cookie_pair key =
      strip-Free is_byte_space (cookie_pair key) (cookie_pair-Free key h) in
    let cut : partition b'=' (strip_bytes (cookie_pair key)) ≡ (key_cookie, true, key) =
      ap (partition b'=') clean ∙ partition-append b'=' key_cookie key refl in
    rw cut (ground (arith, beq_refl key_cookie, beq_refl key))

-- A browser that followed the key link is let in: the cookie that `_link` sets passes `_has_key`,
-- for every key of the form that `dashboard_key` writes.
pub link_then_has_key :
    (key : Str) (hs : List (Str × Str))
    → IsKey key
    → has_key key ((codes "cookie", cookie_pair key) ∷ hs) ≡ true
unfolding any_pair_is_key
link_then_has_key key hs h =
    has_key-cookie key (cookie_pair key) hs (
      rw (split_none b';' (cookie_pair key) (IsKey-no_semicolon key h))
        (rw (cookie_pair_lem key h)))

-- A path of this site: the root, or a slash and then lowercase letters, so never a second slash
-- and never a scheme.
abbrev pub OnSite : Str → Type 0
OnSite to =
    (to ≡ root_path) ⊎ ((c : ℕ) × (s : Str) × (to ≡ b'/' ∷ c ∷ s) × (all_lower (c ∷ s) ≡ true))

is_page-OnSite : (to : Str) → is_page to ≡ true → OnSite to
unfolding is_page
is_page-OnSite [] h = cc
is_page-OnSite (c ∷ []) h = cc
is_page-OnSite (c ∷ d ∷ s) h = inr (d, s, ground arith, ground arith)

module _ (parse_qs : Str → Dict Str (List Str)) where
  -- The key link redirects only a request that names the right key, sets that key as the cookie,
  -- and leads to the root or to a page of one lowercase segment, whatever `to` asks for.
  pub link-OnSite :
      (key to cookie : Str) (s : Scope)
      → link parse_qs key s ≡ redirect to cookie
      → (first_value (codes "k") (parse_qs s.query_string) ≡ key) × (cookie ≡ key) × OnSite to
  unfolding link
  link-OnSite key to cookie s h =
      let asked = first_value (codes "to") (parse_qs s.query_string) in
      let given = first_value (codes "k") (parse_qs s.query_string) in
      link_step asked given (list_beq_iff given key) h
    where
      link_step :
          (asked given : Str)
          → (list_beq given key ≡ true) ↔ (given ≡ key)
          → (if given == key
              then redirect (if is_page asked then asked else root_path) key
              else refusal needs_key)
            ≡ redirect to cookie
          → (given ≡ key) × (cookie ≡ key) × OnSite to
      link_step asked given same h = elim (Bool-cases (given == key)) [
        | inr wrong ↦ cc (rw wrong at h)
        | inl right ↦ elim (Bool-cases (is_page asked)) [
          | inl page ↦
              let e : to ≡ asked = ground arith in
              (same.0 right, ground arith, rw e (is_page-OnSite asked page))
          | inr other ↦ (same.0 right, ground arith, inl (ground arith))
        ]
      ]
