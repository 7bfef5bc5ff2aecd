-- ===== src/Base/Text.antt =====
-- Python's `str` as its list of code points, and the methods that the program calls on it.
pub mod Split
pub mod Strip
use Prim.Native.Nat.{ℕ}
use Prim.Native.Char.{code}
use Prim.Native.String.{String}
use mathlib.Core.Bool.{Bool, true, false, ◌&&◌, ◌||◌}
use mathlib.Core.List.{List, [], ◌∷◌, ◌++◌, reverse}
use macos_apps_mcp.Base.Logic.{if◌then◌else◌, leb}
use macos_apps_mcp.Base.Equality.{◌==◌, nat_eq}

abbrev pub Str : Type 0
Str = List ℕ

-- A literal of the source, as code points.
abbrev pub codes : String → Str
codes String.[] = []
codes (String.◌∷◌ c s) = code c ∷ codes s

-- `str.isspace` of one code point, which is also the class `\s`.
unfoldable pub is_space : ℕ → Bool
is_space c =
    (leb 9 c && leb c 13)
    || (leb 28 c && leb c 32)
    || c == 0x85
    || c == 0xA0
    || c == 0x1680
    || (leb 0x2000 c && leb c 0x200A)
    || c == 0x2028
    || c == 0x2029
    || c == 0x202F
    || c == 0x205F
    || c == 0x3000

-- `s.lstrip()`, for any class of code points.
unfoldable pub lstrip : (ℕ → Bool) → Str → Str
lstrip p [] = []
lstrip p (c ∷ s) = let rest = lstrip p s in if p c then rest else c ∷ s

-- `s.strip()`
unfoldable pub strip : Str → Str
unfolding lstrip
strip s = reverse (lstrip is_space (reverse (lstrip is_space s)))

-- `s.startswith(prefix)`
unfoldable pub starts_with : Str → Str → Bool
starts_with [] s = true
starts_with (p ∷ ps) [] = false
starts_with (p ∷ ps) (c ∷ s) = p == c && starts_with ps s

-- Adds one code point to the first piece.
abbrev pub cons_first : ℕ → List Str → List Str
cons_first c [] = (c ∷ []) ∷ []
cons_first c (piece ∷ pieces) = (c ∷ piece) ∷ pieces

-- `s.split(sep)`, for a separator of one code point: never empty.
unfoldable pub split : ℕ → Str → List Str
split sep [] = [] ∷ []
split sep (c ∷ s) = let rest = split sep s in if c == sep then [] ∷ rest else cons_first c rest

-- `sep.join(pieces)`
unfoldable pub join : ℕ → List Str → Str
join sep [] = []
join sep (piece ∷ []) = piece
join sep (piece ∷ next ∷ pieces) = piece ++ (sep ∷ join sep (next ∷ pieces))

-- `s.partition(sep)`, for a separator of one code point; the middle part says if it was found.
unfoldable pub partition : ℕ → Str → Str × Bool × Str
partition sep [] = ([], false, [])
partition sep (c ∷ s) =
    let (head, found, tail) = partition sep s in
    if c == sep then ([], true, s) else (c ∷ head, found, tail)
