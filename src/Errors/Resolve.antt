-- ===== src/Errors/Resolve.antt =====
-- Which container a write may target.
use macos_apps_mcp.Base.{
  Str, ◌≡◌, refl, ap, ◌∙◌, Bool, true, not, none, some, List, [], ◌∷◌, ◌++◌, arith, inl, inr, ◌⊎◌,
  Bool-cases, Option-cases, ◌==◌, nat_eq, list_eq, every,
}
use mathlib.Core.List.{head-eq_of_cons-eq, tail-eq_of_cons-eq}
use macos_apps_mcp.Base.Result.{ok}
use macos_apps_mcp.Errors.{Container, with_id, named, the_only, resolve_container}

module _ {T : Type 0} where
  abbrev pub other_id : Str → Container T → Bool
  other_id target c = not (c.id == target)

  abbrev pub other_name : Str → Container T → Bool
  other_name target c = not (c.name == target)

  -- The first container with the id.
  pub record ById (items : List (Container T)) (target : Str) (v : T) : Type 0 where
    pub before : List (Container T)
    pub found : Container T
    pub after : List (Container T)
    pub there : items ≡ before ++ (found ∷ after)
    pub is_value : found.value ≡ v
    pub is_id : (found.id == target) ≡ true
    pub first : every (other_id target) before ≡ true

  -- The only container with the name.
  pub record ByName (items : List (Container T)) (target : Str) (v : T) : Type 0 where
    pub before : List (Container T)
    pub found : Container T
    pub after : List (Container T)
    pub there : items ≡ before ++ (found ∷ after)
    pub is_value : found.value ≡ v
    pub is_name : (found.name == target) ≡ true
    pub none_before : every (other_name target) before ≡ true
    pub none_after : every (other_name target) after ≡ true

  with_id-ById :
      (items : List (Container T)) (target : Str) (v : T)
      → with_id items target ≡ some v
      → ById items target v
  unfolding with_id
  with_id-ById [] target v h = cc
  with_id-ById (c ∷ cs) target v h = elim (Bool-cases (c.id == target)) [
    | inl same ↦
        let here = rw same at h in
        record {
          before = [];
          found = c;
          after = cs;
          there = refl;
          is_value = cc;
          is_id = same;
          first = refl;
        }
    | inr other ↦
        let later = rw other at h in
        let r = with_id-ById cs target v later in
        record {
          before = c ∷ r.before;
          found = r.found;
          after = r.after;
          there = ap (λ xs. c ∷ xs) r.there;
          is_value = r.is_value;
          is_id = r.is_id;
          first = ground (arith, other, r.first);
        }
  ]

  with_id-none :
      (items : List (Container T)) (target : Str)
      → with_id items target ≡ none
      → every (other_id target) items ≡ true
  unfolding with_id
  with_id-none [] target h = refl
  with_id-none (c ∷ cs) target h = elim (Bool-cases (c.id == target)) [
    | inl same ↦ let bad = rw same at h in cc
    | inr other ↦ let later = rw other at h in ground (arith, other, with_id-none cs target later)
  ]

  named_none :
      (items : List (Container T)) (target : Str)
      → named items target ≡ []
      → every (other_name target) items ≡ true
  unfolding named
  named_none [] target h = refl
  named_none (c ∷ cs) target h = elim (Bool-cases (c.name == target)) [
    | inl same ↦ let bad = rw same at h in cc
    | inr other ↦ let later = rw other at h in ground (arith, other, named_none cs target later)
  ]

  named-ByName :
      (items : List (Container T)) (target i : Str) (v : T)
      → named items target ≡ (i, v) ∷ []
      → ByName items target v
  unfolding named
  named-ByName [] target i v h = cc
  named-ByName (c ∷ cs) target i v h = elim (Bool-cases (c.name == target)) [
    | inl same ↦
        let here = rw same at h in
        let rest : named cs target ≡ [] = tail-eq_of_cons-eq here in
        let pair : (c.id, c.value) ≡ (i, v) = head-eq_of_cons-eq here in
        record {
          before = [];
          found = c;
          after = cs;
          there = refl;
          is_value = ap (λ p. p.1) pair;
          is_name = same;
          none_before = refl;
          none_after = named_none cs target rest;
        }
    | inr other ↦
        let later = rw other at h in
        let r = named-ByName cs target i v later in
        record {
          before = c ∷ r.before;
          found = r.found;
          after = r.after;
          there = ap (λ xs. c ∷ xs) r.there;
          is_value = r.is_value;
          is_name = r.is_name;
          none_before = ground (arith, other, r.none_before);
          none_after = r.none_after;
        }
  ]

  only-ByName :
      (items : List (Container T)) (target : Str) (v : T) (ms : List (Str × T))
      → named items target ≡ ms
      → the_only ms ≡ ok v
      → ByName items target v
  unfolding the_only
  only-ByName items target v [] e h = cc
  only-ByName items target v ((i, u) ∷ []) e h =
      let p : u ≡ v = cc in named-ByName items target i v (e ∙ ap (λ x. (i, x) ∷ []) p)
  only-ByName items target v (m ∷ n ∷ ms) e h = cc

  -- A write's target is never guessed: the container that is returned is the first with the given
  -- id, or no container has that id and it is the only one with that name.
  pub resolve_container_unique :
      (items : List (Container T)) (target : Str) (v : T)
      → resolve_container items target ≡ ok v
      → ById items target v ⊎ (ByName items target v × (every (other_id target) items ≡ true))
  unfolding resolve_container
  resolve_container_unique items target v h = elim (Option-cases (with_id items target)) [
    | inl absent ↦
        let h' : the_only (named items target) ≡ ok v = rw (absent, resolve_container) at h in
        inr (
          only-ByName items target v (named items target) refl h',
          with_id-none items target absent,
        )
    | inr (u, found) ↦
        let h' : ok u ≡ ok v = rw (found, resolve_container) at h in
        let p : u ≡ v = cc in inl (with_id-ById items target v (rw (← p) found))
  ]
