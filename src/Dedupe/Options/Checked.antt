-- ===== src/Dedupe/Options/Checked.antt =====
-- What a parsed command line promises.
use macos_apps_mcp.Base.{
  ℕ, ◌<◌, Str, codes, ◌≡◌, refl, ◌∙◌, Bool, true, false, not, ◌&&◌, ◌||◌, Option, none, some, List,
  [], ◌∷◌, arith, inl, inr, ltb, if◌then◌else◌, Bool-cases, ◌==◌, nat_eq, list_eq, list_beq_iff,
  contains,
}
use macos_apps_mcp.Base.Integer.{ℤ, pos, negsuc}
use macos_apps_mcp.Base.Text.{starts_with}
use macos_apps_mcp.Base.Result.{Result, ok, >>=-eq-ok}
use macos_apps_mcp.Dedupe.Options.{
  Options, Exit, defaults, value_of, is_given, set_limit, parse_arg, parse_args, check_keeper,
  parse,
}

-- A limit is at least one.
abbrev pub HasLimit : Option ℕ → Type 0
HasLimit none = Unit
HasLimit (some n) = 0 < n

set_limit_lem :
    (v : Option ℤ) (o o' : Options)
    → set_limit v o ≡ ok o'
    → (o'.execute ≡ o.execute) × HasLimit o'.limit
unfolding set_limit
set_limit_lem none o o' h = cc
set_limit_lem (some (negsuc n)) o o' h = cc
set_limit_lem (some (pos n)) o o' h = elim (Bool-cases (ltb n 1)) [
  | inl low ↦ let bad = rw low at h in cc
  | inr fine ↦
      let e : ok (record o { limit = some n }) ≡ ok o' = rw fine at h in
      let p : record o { limit = some n } ≡ o' = cc in rw (← p) (refl, ground arith)
]

if-ok :
    {P : Type 0} {A : Type 0} (b : Bool) {m n r : A}
    → (if b then m else n) ≡ r
    → (b ≡ true → m ≡ r → P)
    → (b ≡ false → n ≡ r → P)
    → P
if-ok true h f g = f refl h
if-ok false h f g = g refl h

-- What one argument does: only `--execute` turns execution on, and a limit is checked.
abbrev Parses : Str → Options → Options → Type 0
Parses arg o o' = (o'.execute ≡ (o.execute || codes "--execute" == arg)) × HasLimit o'.limit

-- An argument that is not `--execute`, and keeps the switch and the limit.
keeps-Parses :
    (arg : Str) (o r o' : Options)
    → (arg == codes "--execute") ≡ false
    → r.execute ≡ o.execute
    → HasLimit r.limit
    → ◌≡◌ {A = Result Exit Options} (ok r) (ok o')
    → Parses arg o o'
keeps-Parses arg o r o' other same l h =
    let p : r ≡ o' = cc in
    rw (← p) (
      ground (
        arith,
        same,
        other,
        list_beq_iff arg (codes "--execute"),
        list_beq_iff (codes "--execute") arg,
      ),
      l,
    )

module _ (int : Str → Option ℤ) where
  parse_arg-Parses :
      (arg : Str) (o o' : Options)
      → parse_arg int arg o ≡ ok o'
      → HasLimit o.limit
      → Parses arg o o'
  unfolding parse_arg
  parse_arg-Parses arg o o' h l =
      if-ok (arg == codes "--execute") h
        (λ same k.
          let p : record o { execute = true } ≡ o' = cc in
          rw (← p) (
            ground (
              arith,
              same,
              list_beq_iff arg (codes "--execute"),
              list_beq_iff (codes "--execute") arg,
            ),
            l,
          ))
        (λ other k.
          if-ok (arg == codes "--verbose") k
            (λ _. keeps-Parses arg o (record o { verbose = true }) o' other refl l)
            (λ _ k.
              if-ok (arg == codes "--cross-account") k
                (λ _. keeps-Parses arg o (record o { cross_account = true }) o' other refl l)
                (λ _ k.
                  if-ok (starts_with (codes "--mailbox=") arg) k
                    (λ _.
                      keeps-Parses arg o (record o { mailbox = some (value_of arg) }) o' other refl
                        l)
                    (λ _ k.
                      if-ok (starts_with (codes "--keep-account=") arg) k
                        (λ _.
                          keeps-Parses arg o (record o { keep_account = some (value_of arg) }) o'
                            other refl l)
                        (λ _ k.
                          if-ok (starts_with (codes "--limit=") arg) k
                            (λ _ k.
                              let (same, fine) = set_limit_lem (int (value_of arg)) o o' k in
                              keeps-Parses arg o o' o' other same fine refl)
                            (λ _ k.
                              if-ok (arg == codes "-h" || arg == codes "--help") k (λ _ k. cc)
                                (λ _ k. cc)))))))

  parse_args_lem :
      (argv : List Str) (o o' : Options)
      → parse_args int argv o ≡ ok o'
      → HasLimit o.limit
      → (o'.execute ≡ (o.execute || contains argv (codes "--execute"))) × HasLimit o'.limit
  unfolding parse_args
  parse_args_lem [] o o' h l = let p : o ≡ o' = cc in rw (← p) (ground arith, l)
  parse_args_lem (arg ∷ argv) o o' h l =
      let (mid, first, rest) = >>=-eq-ok (parse_arg int arg o) (parse_args int argv) h in
      let (e, m) = parse_arg-Parses arg o mid first l in
      let (e', n) = parse_args_lem argv mid o' rest m in (e' ∙ (rw e (ground arith)), n)

  -- A command line that parses executes exactly when it has `--execute`, so a bare one only
  -- previews; a limit it gives is at least one; and a cross-account pass names its keeper.
  pub parse_lem :
      (argv : List Str) (o : Options)
      → parse int argv ≡ ok o
      → (o.execute ≡ contains argv (codes "--execute"))
        × HasLimit o.limit
        × ((o.cross_account && not (is_given o.keep_account)) ≡ false)
  unfolding parse check_keeper
  parse_lem argv o h =
      let (mid, parsed, checked) = >>=-eq-ok (parse_args int argv defaults) (check_keeper int) h in
      let (e, l) = parse_args_lem argv defaults mid parsed tt in
      if-ok (mid.cross_account && not (is_given mid.keep_account)) checked (λ _ k. cc)
        (λ fine k. let p : mid ≡ o = cc in rw (← p) (e, l, fine))
