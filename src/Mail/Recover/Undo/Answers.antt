-- ===== src/Mail/Recover/Undo/Answers.antt =====
-- The answers that an act gives, as the outcome's record keeps them; and a receipt without white space.
use macos_apps_mcp.Base.{
  ◌≡◌, refl, ◌∙◌, ap, ℕ, Str, Bool, true, false, some, List, [], ◌∷◌, ◌++◌, arith, Bool-cases, inl,
  inr, ◌==◌, list_eq, nat_eq, beq_refl, every, not, list_beq_iff, All, All-append, contains,
}
use macos_apps_mcp.Base.Sort.{All-at}
use macos_apps_mcp.Base.Dict.{Dict, lookup, insert, lookup-insert}
use macos_apps_mcp.Base.Text.{is_space, strip}
use macos_apps_mcp.Base.Text.Strip.{Free, strip-Free}
use macos_apps_mcp.Base.Decimal.{padded, IsDigit, padded-IsDigit}
use macos_apps_mcp.Base.Result.{ok}
use macos_apps_mcp.Mail.Recover.{Target, ops, check_op, Answer}
use macos_apps_mcp.Mail.Recover.Act.{receipt_id}
use macos_apps_mcp.Mail.Recover.Run.{Outcome, settle, answer_for, answers_onto, left_sources}
use macos_apps_mcp.Mail.Recover.Undo.{may_have_left, is_replayed}

-- The answer for an id says that its message left, or does not say.
abbrev pub moved : Dict Str Answer → Target → Bool
moved statuses t = may_have_left (settle (answer_for statuses t.id)).left_source

beq-eq : (a b : Str) → (a == b) ≡ true → a ≡ b
beq-eq a b h = ground (arith, list_beq_iff a b)

lookup-left_sources :
    (mid : Str) (a : Outcome) (answers : Dict Str Outcome)
    → lookup mid answers ≡ some a
    → lookup mid (left_sources answers) ≡ some a.left_source
unfolding lookup left_sources
lookup-left_sources mid a [] h = ground arith
lookup-left_sources mid a ((m, b) ∷ answers) h = ground (arith, lookup-left_sources mid a answers)

module _ (statuses : Dict Str Answer) where
  abbrev settled : Str → Outcome
  settled mid = settle (answer_for statuses mid)

  answers_onto_keeps :
      (mid : Str) (ts : List Target) (out : Dict Str Outcome)
      → lookup mid out ≡ some (settled mid)
      → lookup mid (answers_onto statuses out ts) ≡ some (settled mid)
  unfolding answers_onto
  answers_onto_keeps mid [] out h = h
  answers_onto_keeps mid (t ∷ ts) out h =
      answers_onto_keeps mid ts (insert t.id (settled t.id) out) (
        lookup-insert t.id mid (settled t.id) out ∙ elim (Bool-cases (t.id == mid)) [
          | inl same ↦ rw same (ap (λ m. some (settled m)) (beq-eq t.id mid same))
          | inr other ↦ rw other h
        ])

  -- Each target has its own answer, also where an id comes twice.
  pub All-answers_onto :
      (ts : List Target) (out : Dict Str Outcome)
      → All (λ t. lookup t.id (answers_onto statuses out ts) ≡ some (settled t.id)) ts
  unfolding answers_onto
  All-answers_onto [] out = tt
  All-answers_onto (t ∷ ts) out = (
    answers_onto_keeps t.id ts (insert t.id (settled t.id) out)
        (lookup-insert t.id t.id (settled t.id) out ∙ rw (beq_refl t.id) refl),
    All-answers_onto ts (insert t.id (settled t.id) out),
  )

  pub replayed_answers :
      (answers : Dict Str Outcome) (ts : List Target)
      → All (λ t. lookup t.id answers ≡ some (settled t.id)) ts
      → All (λ t. is_replayed (some (left_sources answers)) [] t.id ≡ moved statuses t) ts
  unfolding is_replayed
  replayed_answers answers [] h = tt
  replayed_answers answers (t ∷ ts) h = (
    rw (lookup-left_sources t.id (settled t.id) answers h.0, is_replayed) refl,
    replayed_answers answers ts h.1,
  )

space_digits : (s : Str) → All IsDigit s → Free is_space s
unfolding is_space
space_digits [] h = tt
space_digits (c ∷ s) h = (ground (arith, h.0.0, h.0.1), space_digits s h.1)

-- A text without white space, as a test.
abbrev pub has_no_space : Str → Bool
has_no_space = every (λ c. not (is_space c))

pub has_no_space-Free : (s : Str) → has_no_space s ≡ true → Free is_space s
has_no_space-Free [] h = tt
has_no_space-Free (c ∷ s) h = (ground (arith, h), has_no_space-Free s (ground (arith, h)))

check_op-Free : (op op' : Str) → check_op op ≡ ok op' → Free is_space op
unfolding check_op is_space
check_op-Free op op' k =
    let known : contains ops op ≡ true = ground (arith, k) in
    has_no_space-Free op
      (All-at (λ o. has_no_space o ≡ true) ops op (refl, (refl, (refl, tt))) known)

-- The time stamp and the operation have no white space in them, so a receipt is taken as it is.
pub strip-receipt_id :
    (stamp : Str) (n : ℕ) (op op' : Str)
    → Free is_space stamp
    → check_op op ≡ ok op'
    → strip (receipt_id stamp n op) ≡ receipt_id stamp n op
unfolding receipt_id strip is_space
strip-receipt_id stamp n op op' h k =
    let free = λ (c : ℕ). is_space c ≡ false in
    strip-Free is_space (receipt_id stamp n op) (
      All-append free stamp (b'-' ∷ (padded 3 n ++ (b'-' ∷ op))) h (
        refl,
        All-append free (padded 3 n) (b'-' ∷ op) (space_digits (padded 3 n) (padded-IsDigit 3 n))
            (refl, check_op-Free op op' k),
      ))
