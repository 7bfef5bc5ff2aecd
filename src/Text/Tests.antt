-- ===== src/Text/Tests.antt =====
-- Examples of the framing and of the cleaning of text.
use macos_apps_mcp.Base.{
  every, ◌&&◌, if◌then◌else◌, ℕ, select, ◌==◌, Str, codes, ◌≡◌, refl, Bool, true, false, none, some,
  List, [], ◌∷◌, ◌++◌, nat_eq, list_eq, list_beq, leb, All,
}
use macos_apps_mcp.Base.Integer.{ℤ, pos}
use macos_apps_mcp.Base.Result.{Result, ok, err}
use macos_apps_mcp.Base.Text.{starts_with, strip, lstrip, join, is_space}
use macos_apps_mcp.Text.Framing.{Field, split_framed, parse_framed, parse_records}
use macos_apps_mcp.Text.Framing.Frame.{frame, IsRecord, split_framed-frame, parse_framed-frame}
use macos_apps_mcp.Text.Hygiene.{
  is_break, fold_breaks, is_control, collapse, sanitize_line, sanitize_block, clean_body, truncate,
}
use macos_apps_mcp.Text.Hygiene.Clean.{is_plain, sanitize_line-Plain}
use macos_apps_mcp.Base.Dict.{lookup}
use macos_apps_mcp.Text.Matching.{translate, punct_fold}
use macos_apps_mcp.Text.Values.{Refused, value_error}

abbrev first_record : List Str
first_record = codes "42" ∷ codes "Hello" ∷ []

first_record-IsRecord : IsRecord first_record
unfolding strip lstrip is_space join list_beq
first_record-IsRecord = record {
  framed = ((refl, refl), ((refl, refl), tt));
  some_field = refl;
  not_blank = refl;
}

split_framed-frame_example : split_framed (frame (first_record ∷ [])) ≡ first_record ∷ []
split_framed-frame_example = split_framed-frame (first_record ∷ []) (first_record-IsRecord, tt)

abbrev fields : List (Field Str)
fields =
    record { name = codes "id"; coerce = λ s. s; required = true }
    ∷ record { name = codes "subject"; coerce = λ s. s; required = false }
    ∷ []

parse_framed-frame_example :
    parse_framed (frame (first_record ∷ [])) fields none none
    ≡ parse_records fields none none (first_record ∷ [])
parse_framed-frame_example =
    parse_framed-frame (first_record ∷ []) fields none none (first_record-IsRecord, tt)

abbrev messy : Str
messy = 0x20 ∷ 0x61 ∷ 0x0D ∷ 0x0A ∷ 0x0A ∷ 0x00 ∷ 0x62 ∷ 0x2028 ∷ []

messy_line : sanitize_line messy ≡ codes "a b"
unfolding sanitize_line fold_breaks is_break collapse is_control strip lstrip select is_space
messy_line = refl

sanitize_line-Plain_example : All (λ c. is_plain c ≡ true) (sanitize_line messy)
sanitize_line-Plain_example = sanitize_line-Plain messy

abbrev show_x : ℕ → Str
show_x _ = codes "3"

abbrev clipped : Str
clipped = codes "ab [truncated 3 chars]"

clip : clean_body show_x (codes "abcde") 2 (some 9) ≡ ok clipped
unfolding clean_body sanitize_block fold_breaks is_break is_control select truncate
clip = refl

abbrev all_digits : Str → Bool
all_digits s = every (λ c. leb b'0' c && leb c b'9') s

-- It takes no second sign.
abbrev refuses : Str → Result Refused ℤ
refuses s = if starts_with (codes "--") s then err value_error else ok (pos 5)

two_signs : strip (codes "--5") ≡ codes "--5"
unfolding strip lstrip is_space
two_signs = refl

no_sign : lstrip (λ c. c == b'-') (codes "5") ≡ codes "5"
unfolding lstrip
no_sign = refl

two_refused : refuses (codes "--5") ≡ err value_error
unfolding starts_with
two_refused = refl

-- Curly quotes and straight ones have the same key.
quotes_fold : translate (codes "Andrei" ++ (0x2019 ∷ codes "s")) ≡ codes "Andrei's"
unfolding translate lookup punct_fold
quotes_fold = refl
