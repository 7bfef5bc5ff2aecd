-- ===== src/Text/Hygiene/Clean.antt =====
-- What cleaned text looks like.
use macos_apps_mcp.Base.{
  ℕ, zero, suc, ◌-◌, ◌≤◌, Str, ◌≡◌, refl, ap, ◌∙◌, Bool, true, false, not, ◌&&◌, ◌||◌, Option, [],
  ◌∷◌, ◌++◌, arith, inl, inr, Bool-cases, leb, if◌then◌else◌, ◌==◌, nat_eq, list_eq, length, take,
  select, All,
}
use macos_apps_mcp.Base.Lists.{All-reverse, All-filter, All-select, length-append}
use macos_apps_mcp.Base.Result.{ok}
use macos_apps_mcp.Base.Text.{is_space, strip, lstrip}
use macos_apps_mcp.Text.Hygiene.{
  is_break, fold_breaks, is_control, drop_controls, collapse, sanitize_line, sanitize_block, marker,
  truncate, is_over, clean_body,
}

-- Neither a control nor a line break; of the white space only the space itself.
abbrev pub is_plain : ℕ → Bool
is_plain c = not (is_control c) && not (is_break c) && (not (is_space c) || c == b' ')

abbrev Plain : ℕ → Type 0
Plain c = is_plain c ≡ true

break_space : (c : ℕ) → is_break c ≡ true → is_space c ≡ true
unfolding is_break is_space
break_space c h = ground arith

space_plain : is_plain b' ' ≡ true
unfolding is_break is_control is_space
space_plain = refl

-- A carriage return and a line feed are breaks.
return_break : (c : ℕ) → (c == 0x0D) ≡ true → is_break c ≡ true
unfolding is_break
return_break c h = ground (arith, h)

All-collapse : (s : Str) → All (λ c. is_control c ≡ false) s → All Plain (collapse s)
unfolding collapse
All-collapse [] a = tt
All-collapse (c ∷ s) a = ground (arith, a.0, space_plain, break_space c, All-collapse s a.1)

All-lstrip : (s : Str) → All Plain s → All Plain (lstrip is_space s)
unfolding lstrip
All-lstrip [] a = tt
All-lstrip (c ∷ s) a = ground (arith, a.0, a.1, All-lstrip s a.1)

-- A sanitized line has no control character, no line break, and no white space but the space.
pub sanitize_line-Plain : (text : Str) → All Plain (sanitize_line text)
unfolding sanitize_line strip
sanitize_line-Plain text =
    let clean = All-collapse (drop_controls (fold_breaks b' ' text)) (
      All-select (λ c. is_control c ≡ false) (λ c. not (is_control c)) (λ c h. ground (arith, h))
        (fold_breaks b' ' text)) in
    All-reverse Plain _ (All-lstrip _ (All-reverse Plain _ (All-lstrip _ clean)))

-- The only break that is left is the line feed.
abbrev pub is_folded : ℕ → Bool
is_folded c = not (is_break c) || c == 0x0A

abbrev Folded : ℕ → Type 0
Folded c = is_folded c ≡ true

not_return : (c : ℕ) → Folded c → (c == 0x0D) ≡ false
not_return c h = ground (arith, h, return_break c)

-- One character that is folded already.
fold_one :
    (c : ℕ) (rest s : Str)
    → Folded c
    → rest ≡ s
    → (if is_break c then 0x0A ∷ rest else c ∷ rest) ≡ c ∷ s
fold_one c rest s h e = elim (Bool-cases (is_break c)) [
  | inl broken ↦
      let p : c ≡ 0x0A = ground (arith, h, broken) in rw broken (rw p (ap (λ r. 0x0A ∷ r) e))
  | inr whole ↦ rw whole (ap (λ r. c ∷ r) e)
]

fold_breaks_id : (s : Str) → All Folded s → fold_breaks 0x0A s ≡ s
unfolding fold_breaks
fold_breaks_id [] a = refl
fold_breaks_id (c ∷ []) a = fold_one c [] [] a.0 refl
fold_breaks_id (c ∷ d ∷ s) a =
    rw (not_return c a.0)
      (fold_one c (fold_breaks 0x0A (d ∷ s)) (d ∷ s) a.0 (fold_breaks_id (d ∷ s) a.1))

fold_breaks-Folded : (s : Str) → All Folded (fold_breaks 0x0A s)
unfolding fold_breaks
fold_breaks-Folded [] = tt
fold_breaks-Folded (c ∷ []) = ground arith
fold_breaks-Folded (c ∷ d ∷ s) = ground (arith, fold_breaks-Folded s, fold_breaks-Folded (d ∷ s))

select_twice : (p : ℕ → Bool) (s : Str) → select p (select p s) ≡ select p s
unfolding select
select_twice p [] = refl
select_twice p (c ∷ s) = elim (Bool-cases (p c)) [
  | inl kept ↦ rw kept (rw kept (ap (λ r. c ∷ r) (select_twice p s)))
  | inr dropped ↦ rw dropped (select_twice p s)
]

-- A sanitized block holds no control character and no break but the line feed, and sanitizing it
-- again changes nothing.
pub sanitize_block_lem :
    (text : Str)
    → All (λ c. is_control c ≡ false) (sanitize_block text)
      × All Folded (sanitize_block text)
      × (sanitize_block (sanitize_block text) ≡ sanitize_block text)
unfolding sanitize_block
sanitize_block_lem text =
    let folded = All-filter Folded (λ c. not (is_control c)) _ (fold_breaks-Folded text) in
    (
      All-select (λ c. is_control c ≡ false) (λ c. not (is_control c)) (λ c h. ground (arith, h))
          (fold_breaks 0x0A text),
      folded,
      ap drop_controls (fold_breaks_id (drop_controls (fold_breaks 0x0A text)) folded)
          ∙ select_twice (λ c. not (is_control c)) (fold_breaks 0x0A text),
    )

take-append : (n : ℕ) (s t : Str) → n ≤ length s → take n (take n s ++ t) ≡ take n s
take-append zero s t h = refl
take-append (suc n) [] t h = ground arith
take-append (suc n) (c ∷ s) t h = ap (λ r. c ∷ r) (take-append n s t (omega (arith, h)))

length-take : (n : ℕ) (s : Str) → n ≤ length s → length (take n s) ≡ n
length-take zero s h = refl
length-take (suc n) [] h = omega arith
length-take (suc n) (c ∷ s) h = omega (arith, length-take n s)

-- A truncated text starts like the text, and it is within the limit exactly when the text is: a
-- clip always shows.
truncate_lem :
    (show : ℕ → Str) (s : Str) (limit : ℕ)
    → (take limit (truncate show s limit) ≡ take limit s)
      × (leb (length (truncate show s limit)) limit ≡ leb (length s) limit)
unfolding truncate
truncate_lem show s limit = elim (Bool-cases (leb (length s) limit)) [
  | inl fits ↦ rw fits (refl, rw fits refl)
  | inr clipped ↦
      let over : limit ≤ length s = ground (arith, clipped) in
      rw clipped (
        take-append limit s (marker show (length s - limit)) over,
        ground (
          arith,
          length-append (take limit s) (marker show (length s - limit)),
          length-take limit s over,
        ),
      )
]

-- A body above the hard cap is refused, with its length and the cap.
-- Otherwise the answer starts like the cleaned body, and is within the limit exactly when it is.
pub clean_body_lem :
    (show : ℕ → Str) (text : Str) (limit : ℕ) (hard : Option ℕ) (r : Str)
    → clean_body show text limit hard ≡ ok r
    → (is_over show hard (sanitize_block text) ≡ false)
      × (take limit r ≡ take limit (sanitize_block text))
      × (leb (length r) limit ≡ leb (length (sanitize_block text)) limit)
unfolding clean_body
clean_body_lem show text limit hard r h =
    elim (Bool-cases (is_over show hard (sanitize_block text))) [
      | inl over ↦ let bad = rw over at h in cc
      | inr fine ↦
          let e : ok (truncate show (sanitize_block text) limit) ≡ ok r = rw fine at h in
          let p : truncate show (sanitize_block text) limit ≡ r = cc in
          let (same, shows) = truncate_lem show (sanitize_block text) limit in
          rw (← p) (fine, same, shows)
    ]
