-- ===== src/Text/Framing/Frame.antt =====
-- What a script frames comes back field by field.
use macos_apps_mcp.Base.{
  ℕ, Str, ◌≡◌, refl, ap, ◌∙◌, false, not, ◌||◌, Option, List, [], ◌∷◌, ◌++◌, map, arith, ◌==◌,
  nat_eq, list_eq, list_beq, beq_refl, contains, select, All,
}
use macos_apps_mcp.Base.Lists.{All-map}
use macos_apps_mcp.Base.Text.{strip, lstrip, split, join}
use macos_apps_mcp.Base.Text.Split.{split-append, split_none}
use macos_apps_mcp.Text.Framing.{us, rs, is_blank, split_framed, Field, parse_records, parse_framed}

-- Records as the scripts write them: each one ends with a separator.
unfoldable pub frame : List (List Str) → Str
frame [] = []
frame (r ∷ records) = join us r ++ (rs ∷ frame records)

-- A field has neither separator.
abbrev pub IsField : Str → Type 0
IsField s = (contains s us ≡ false) × (contains s rs ≡ false)

-- A record has fields, and is not blank.
pub record IsRecord (fields : List Str) : Type 0 where
  pub framed : All IsField fields
  pub some_field : (fields == []) ≡ false
  pub not_blank : is_blank (join us fields) ≡ false

split-join :
    (sep : ℕ) (p : Str) (ps : List Str)
    → contains p sep ≡ false
    → All (λ s. contains s sep ≡ false) ps
    → split sep (join sep (p ∷ ps)) ≡ p ∷ ps
unfolding join
split-join sep p [] h a = split_none sep p h
split-join sep p (q ∷ ps) h a =
    split-append sep p (join sep (q ∷ ps))
    ∙ ap (λ xs. xs ++ split sep (join sep (q ∷ ps))) (split_none sep p h)
    ∙ ap (λ xs. p ∷ xs) (split-join sep q ps a.0 a.1)

contains-append : (c : ℕ) (xs ys : Str) → contains (xs ++ ys) c ≡ (contains xs c || contains ys c)
contains-append c [] ys = refl
contains-append c (x ∷ xs) ys = ground (arith, contains-append c xs ys)

join_free : (fields : List Str) → All IsField fields → contains (join us fields) rs ≡ false
unfolding join
join_free [] a = refl
join_free (f ∷ []) a = a.0.1
join_free (f ∷ g ∷ fs) a =
    contains-append rs f (us ∷ join us (g ∷ fs)) ∙ ground (arith, a.0.1, join_free (g ∷ fs) a.1)

cons_both : {x y : List Str} {xs ys : List (List Str)} → x ≡ y → xs ≡ ys → x ∷ xs ≡ y ∷ ys
cons_both p q = cc

split_record : (fields : List Str) → IsRecord fields → split us (join us fields) ≡ fields
split_record [] r = let none = beq_refl {A = List Str} [] in let some = r.some_field in cc
split_record (f ∷ fs) r =
    split-join us f fs r.framed.0.0 (All-map IsField _ fs (λ s h. h.0) r.framed.1)

-- What stands after the last separator is blank, and there is nothing else.
split-frame :
    (records : List (List Str))
    → All IsRecord records
    → split rs (frame records) ≡ map (join us) records ++ ([] ∷ [])
unfolding frame split
split-frame [] a = refl
split-frame (r ∷ records) a =
    split-append rs (join us r) (frame records)
    ∙ ap (λ xs. xs ++ split rs (frame records)) (split_none rs (join us r) (join_free r a.0.framed))
    ∙ ap (λ xs. join us r ∷ xs) (split-frame records a.1)

split_ended :
    (records : List (List Str))
    → All IsRecord records
    → map (split us) (select (λ r. not (is_blank r)) (map (join us) records ++ ([] ∷ []))) ≡ records
unfolding select strip lstrip list_beq
split_ended [] a = refl
split_ended (r ∷ records) a =
    rw a.0.not_blank (cons_both (split_record r a.0) (split_ended records a.1))

-- Splitting what the scripts write gives the records back, when no field has a separator and no record
-- is blank: no text of a field can shift another field or record, and the separator at the end of the
-- last record adds none.
pub split_framed-frame :
    (records : List (List Str)) → All IsRecord records → split_framed (frame records) ≡ records
unfolding split_framed
split_framed-frame records a =
    ap (λ rows. map (split us) (select (λ r. not (is_blank r)) rows)) (split-frame records a)
    ∙ split_ended records a

-- Parsing a framed payload gives what the fields of each record give.
pub parse_framed-frame :
    {V : Type 0} (records : List (List Str)) (fields : List (Field V)) (min_fields : Option ℕ)
    (repeat : Option (Field V × List (Field V)))
    → All IsRecord records
    → parse_framed (frame records) fields min_fields repeat
      ≡ parse_records fields min_fields repeat records
unfolding parse_framed
parse_framed-frame records fields min_fields repeat a =
    ap (parse_records fields min_fields repeat) (split_framed-frame records a)
