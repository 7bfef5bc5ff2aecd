-- ===== src/Contracts/Rrule/Fields.antt =====
-- What the text of an RRULE gives for each part, token by token.
use macos_apps_mcp.Base.{
  Str, Bool, true, false, ◌≡◌, refl, sym, ◌∙◌, ap, ◌⊎◌, inl, inr, Option, none, some, List, [], ◌∷◌,
  arith, not, ◌&&◌, ◌==◌, nat_eq, list_eq, list_beq_iff, All, if◌then◌else◌, Bool-cases,
}
use macos_apps_mcp.Base.Dict.{Dict, lookup, insert, lookup-insert}
use macos_apps_mcp.Base.Result.{ok}
use macos_apps_mcp.Base.Text.{strip, partition}
use macos_apps_mcp.Contracts.Rrule.{Reader, fields_onto}

-- What stands before and after the first `=` of a token.
abbrev pub key_of : {T : Type 0} → Reader T → Str → Str
key_of reader token = reader.upper (strip (partition b'=' (strip token)).0)

abbrev pub value_of : Str → Str
value_of token = strip (partition b'=' (strip token)).2

-- A token that names the part.
abbrev pub names : {T : Type 0} → Reader T → Str → Str → Bool
names reader part token = not (strip token == []) && (key_of reader token == part)

-- The last of two.
abbrev pub later_of : Option Str → Option Str → Option Str
later_of first none = first
later_of first (some v) = some v

-- The value of the last token that names the part.
abbrev pub given_for : {T : Type 0} → Reader T → Str → List Str → Option Str
given_for reader part [] = none
given_for reader part (token ∷ tokens) =
    later_of (if names reader part token then some (value_of token) else none)
      (given_for reader part tokens)

-- A token is blank, or has a `=`.
abbrev pub IsToken : Str → Type 0
IsToken token = (strip token ≡ []) ⊎ ((partition b'=' (strip token)).1 ≡ true)

later_of_assoc : (a b c : Option Str) → later_of (later_of a b) c ≡ later_of a (later_of b c)
later_of_assoc a b none = refl
later_of_assoc a b (some v) = refl

none_later : (a : Option Str) → later_of none a ≡ a
none_later none = refl
none_later (some v) = refl

later_of-none : (a b : Option Str) → later_of a b ≡ later_of a (later_of none b)
later_of-none a none = refl
later_of-none a (some v) = refl

module _ {T : Type 0} (reader : Reader T) where
  insert_named :
      (part token : Str) (out : Dict Str Str)
      → (strip token == []) ≡ false
      → lookup part (insert (key_of reader token) (value_of token) out)
        ≡ later_of
            (lookup part out)
            (if names reader part token then some (value_of token) else none)
  insert_named part token out full =
      lookup-insert (key_of reader token) part (value_of token) out
      ∙ elim (Bool-cases (key_of reader token == part)) [
        | inl same ↦ rw (same, full) refl
        | inr other ↦ rw (other, full) refl
      ]

  -- What the loop over the tokens leaves for each part: its last value, or what was there.
  fields_onto-given_for :
      (out fields : Dict Str Str) (tokens : List Str)
      → fields_onto reader out tokens ≡ ok fields
      → All IsToken tokens
        × ((part : Str)
            → lookup part fields ≡ later_of (lookup part out) (given_for reader part tokens))
  unfolding fields_onto
  fields_onto-given_for out fields [] h =
      let same : out ≡ fields = ground (arith, h) in (tt, λ part. ap (lookup part) (sym same))
  fields_onto-given_for out fields (token ∷ tokens) h = elim (Bool-cases (strip token == [])) [
    | inl blank ↦
        let skipped : fields_onto reader out tokens ≡ ok fields = ground (arith, blank, h) in
        let (well, given) = fields_onto-given_for out fields tokens skipped in
        (
          (inl ((list_beq_iff (strip token) []).0 blank), well),
          λ part.
              given part
              ∙ rw blank (later_of-none (lookup part out) (given_for reader part tokens)),
        )
    | inr full ↦
        let added = insert (key_of reader token) (value_of token) out in
        let found : (partition b'=' (strip token)).1 ≡ true = ground (arith, full, h) in
        let read : fields_onto reader added tokens ≡ ok fields = ground (arith, full, found, h) in
        let (well, given) = fields_onto-given_for added fields tokens read in
        (
          (inr found, well),
          λ part.
              given part
              ∙ ap (λ o. later_of o (given_for reader part tokens))
                  (insert_named part token out full)
              ∙ later_of_assoc _ _ (given_for reader part tokens),
        )
  ]

  -- The parts of a text, from its tokens.
  pub parts_given :
      (fields : Dict Str Str) (tokens : List Str)
      → fields_onto reader [] tokens ≡ ok fields
      → All IsToken tokens × ((part : Str) → lookup part fields ≡ given_for reader part tokens)
  unfolding lookup
  parts_given fields tokens h =
      let (well, given) = fields_onto-given_for [] fields tokens h in
      (well, λ part. given part ∙ none_later (given_for reader part tokens))
