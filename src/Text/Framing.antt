-- ===== src/Text/Framing.antt =====
-- `split_framed`, `Field`, `_build` and `parse_framed` of macos_apps_mcp/text.py.
pub mod Frame
use macos_apps_mcp.Base.{
  ℕ, zero, suc, ◌-◌, Str, codes, Bool, true, false, not, ◌&&◌, Option, none, some, List, [], ◌∷◌,
  map, leb, ltb, if◌then◌else◌, ◌==◌, nat_eq, list_eq, contains, length, take, drop, select,
}
use macos_apps_mcp.Base.Dict.{Dict, insert}
use macos_apps_mcp.Base.Text.{strip, split}

abbrev pub us : ℕ
us = 31

abbrev pub rs : ℕ
rs = 30

-- `record.strip()`, as a test
abbrev pub is_blank : Str → Bool
is_blank s = strip s == []

-- `split_framed`
unfoldable pub split_framed : Str → List (List Str)
split_framed raw = map (split us) (select (λ r. not (is_blank r)) (split rs raw))

abbrev pub missing_values : List Str
missing_values = [] ∷ codes "missing value" ∷ []

unfoldable pub is_missing : Str → Bool
is_missing v = contains missing_values (strip v)

-- `blank_if_missing`
unfoldable pub blank_if_missing : Str → Str
blank_if_missing v = if is_missing v then [] else v

pub record Field (V : Type 0) : Type 0 where
  pub name : Str
  pub coerce : Str → V
  pub required : Bool

-- A parsed record, with its tuples where the caller asks for them.
pub record Framed (V : Type 0) : Type 0 where
  pub head : Dict Str V
  pub items : Option (List (Dict Str V))

-- `values[i] if i < len(values) else ""`, at the front
abbrev pub first_or_blank : List Str → Str
first_or_blank [] = []
first_or_blank (v ∷ _) = v

abbrev pub keep_some : {A : Type 0} → Option A → List A → List A
keep_some none xs = xs
keep_some (some x) xs = x ∷ xs

module _ {V : Type 0} where
  unfoldable pub build_onto : Dict Str V → List (Field V) → List Str → Option (Dict Str V)
  build_onto out [] values = some out
  build_onto out (f ∷ fields) values =
      let rest =
        build_onto (insert f.name (f.coerce (first_or_blank values)) out) fields (drop 1 values) in
      if f.required && is_missing (first_or_blank values) then none else rest

  -- `_build`
  unfoldable pub build : List (Field V) → List Str → Option (Dict Str V)
  build fields values = build_onto [] fields values

  -- The loop over the tuples, on a number of rounds; a repeat has a field, for `range` refuses a
  -- step of zero.
  unfoldable pub tuples_in : ℕ → Field V → List (Field V) → List Str → List (Dict Str V)
  tuples_in zero f fs rest = []
  tuples_in (suc n) f fs rest =
      let later = tuples_in n f fs (drop (suc (length fs)) rest) in
      if leb (suc (length fs)) (length rest)
      then keep_some (build (f ∷ fs) (take (suc (length fs)) rest)) later
      else []

  -- There are no more tuples than values.
  abbrev pub tuples : Option (Field V × List (Field V)) → List Str → Option (List (Dict Str V))
  tuples none rest = none
  tuples (some (f, fs)) rest = some (tuples_in (length rest) f fs rest)

  abbrev pub needed : List (Field V) → Option ℕ → ℕ
  needed fields none = length fields
  needed fields (some n) = n

  -- The body of the loop of `parse_framed`.
  unfoldable pub parse_record :
      List (Field V) → Option ℕ → Option (Field V × List (Field V)) → List Str → Option (Framed V)
  parse_record fields min_fields repeat values =
      if ltb (length values) (needed fields min_fields) then none else elim (build fields values) [
        | none ↦ none
        | some head ↦
            some (record { head = head; items = tuples repeat (drop (length fields) values) })
      ]

  unfoldable pub parse_records :
      List (Field V)
      → Option ℕ
      → Option (Field V × List (Field V))
      → List (List Str)
      → List (Framed V)
  parse_records fields min_fields repeat [] = []
  parse_records fields min_fields repeat (values ∷ records) =
      keep_some (parse_record fields min_fields repeat values)
        (parse_records fields min_fields repeat records)

  -- `parse_framed`
  unfoldable pub parse_framed :
      Str → List (Field V) → Option ℕ → Option (Field V × List (Field V)) → List (Framed V)
  parse_framed raw fields min_fields repeat =
      parse_records fields min_fields repeat (split_framed raw)
