-- ===== src/Text/Hygiene.antt =====
-- The cleaning of text in macos_apps_mcp/text.py: `_truncate`, `sanitize_line`, `sanitize_block`,
-- `clean_summary`, `clean_body` and `_summary`. How a number is printed is a parameter.
pub mod Clean
use macos_apps_mcp.Base.{
  ℕ, ◌-◌, Str, codes, Bool, true, false, not, ◌&&◌, ◌||◌, Option, none, some, List, [], ◌∷◌, ◌++◌,
  leb, ltb, if◌then◌else◌, ◌==◌, nat_eq, list_eq, length, take, select,
}
use macos_apps_mcp.Base.Result.{Result, ok, err}
use macos_apps_mcp.Base.Text.{is_space, strip}

abbrev pub summary_max : ℕ
summary_max = 200

-- The class of `_LINE_BREAKS`.
unfoldable pub is_break : ℕ → Bool
is_break c =
    c == 0x0D || c == 0x0A || c == 0x0B || c == 0x0C || c == 0x85 || c == 0x2028 || c == 0x2029

-- `_LINE_BREAKS.sub(by, text)`: a carriage return and its line feed are one break.
unfoldable pub fold_breaks : ℕ → Str → Str
fold_breaks by [] = []
fold_breaks by (c ∷ []) = if is_break c then by ∷ [] else c ∷ []
fold_breaks by (c ∷ d ∷ s) =
    let rest = fold_breaks by (d ∷ s) in
    let past = fold_breaks by s in
    if c == 0x0D && d == 0x0A then by ∷ past else if is_break c then by ∷ rest else c ∷ rest

-- The class of `_CTRL`.
unfoldable pub is_control : ℕ → Bool
is_control c = leb c 0x08 || (leb 0x0E c && leb c 0x1F) || (leb 0x7F c && leb c 0x9F)

-- `_CTRL.sub("", text)`
abbrev pub drop_controls : Str → Str
drop_controls s = select (λ c. not (is_control c)) s

abbrev pub starts_space : Str → Bool
starts_space [] = false
starts_space (c ∷ _) = is_space c

-- `re.sub(r"\s+", " ", s)`
unfoldable pub collapse : Str → Str
collapse [] = []
collapse (c ∷ s) =
    let rest = collapse s in
    if is_space c then (if starts_space s then rest else b' ' ∷ rest) else c ∷ rest

-- `sanitize_line`
unfoldable pub sanitize_line : Str → Str
sanitize_line text = strip (collapse (drop_controls (fold_breaks b' ' text)))

-- `sanitize_block`
unfoldable pub sanitize_block : Str → Str
sanitize_block text = drop_controls (fold_breaks 0x0A text)

-- `_summary`
unfoldable pub mail_summary : Str → Str → Str
mail_summary subject sender =
    let s = strip subject in
    let f = strip sender in
    if not (s == []) && not (f == [])
    then s ++ (codes " — " ++ f)
    else if not (s == [])
    then s
    else if not (f == [])
    then f
    else codes "(no subject)"

-- `OutputOverflow`, with the length and the cap of its text.
pub data Overflow : Type 0 where
  output_overflow : ℕ → ℕ → Overflow

module _ (show : ℕ → Str) where
  abbrev pub marker : ℕ → Str
  marker n = codes " [truncated " ++ (show n ++ codes " chars]")

  -- `_truncate`
  unfoldable pub truncate : Str → ℕ → Str
  truncate text limit =
      if leb (length text) limit then text else take limit text ++ marker (length text - limit)

  -- `clean_summary`
  unfoldable pub clean_summary : Str → Str
  clean_summary text = truncate (sanitize_line text) summary_max

  abbrev pub is_over : Option ℕ → Str → Bool
  is_over none s = false
  is_over (some hard) s = ltb hard (length s)

  abbrev pub cap : Option ℕ → ℕ
  cap none = 0
  cap (some hard) = hard

  -- `clean_body`
  unfoldable pub clean_body : Str → ℕ → Option ℕ → Result Overflow Str
  clean_body text limit hard =
      let s = sanitize_block text in
      if is_over hard s then err (output_overflow (length s) (cap hard)) else ok (truncate s limit)
