-- ===== src/Contracts/Wire.antt =====
-- `deletion_result`, `read_result`, `_format_offset` and `parse_optional` of
-- macos_apps_mcp/contracts.py. A row is what a pointer is serialised to; an instant is a parameter.
pub mod Bounded
use macos_apps_mcp.Base.{
  ℕ, zero, suc, ◌+◌, ◌/◌, ◌%◌, ◌≤◌, Str, codes, Bool, true, false, Option, none, some, List, [],
  ◌∷◌, ◌++◌, if◌then◌else◌, leb, length,
}
use macos_apps_mcp.Base.Decimal.{padded}
use macos_apps_mcp.Base.Integer.{ℤ, pos, negsuc, size}
use macos_apps_mcp.Base.Result.{Result, ok, err}
use macos_apps_mcp.Contracts.Rule.{Invalid, has_any}

-- What a delete answers: a preview, or the id. The number is that of the subtasks which the cascade
-- note names; none if there are no subtasks, and then that key is left out.
pub data Deletion (D : Type 0) : Type 0 where
  would_delete : D → Option ℕ → Deletion D
  deleted : Str → List D → Option ℕ → Deletion D

abbrev pub cascade {ℓ} : {A : Type ℓ} → List A → Option ℕ
cascade [] = none
cascade (x ∷ xs) = some (length (x ∷ xs))

-- `deletion_result`
unfoldable pub deletion_result : {D : Type 0} → Str → Option D → List D → Deletion D
deletion_result ident none subtasks = deleted ident subtasks (cascade subtasks)
deletion_result ident (some preview) subtasks = would_delete preview (cascade subtasks)

-- What a bounded read answers; `truncated` is false if that key is left out.
pub record ReadResult (D : Type 0) : Type 0 where
  pub results : List D
  pub truncated : Bool
  pub plane : Option Str
  pub coverage : Option Str
  pub staleness : Option Str

abbrev pub is_at_cap : Option ℕ → ℕ → Bool
is_at_cap none n = false
is_at_cap (some cap) n = leb cap n

-- `read_result`
unfoldable pub read_result :
    {D : Type 0} → List D → Option ℕ → Option Str → Option Str → Option Str → ReadResult D
read_result rows cap plane coverage staleness = record {
  results = rows;
  truncated = is_at_cap cap (length rows);
  plane = plane;
  coverage = coverage;
  staleness = staleness;
}

abbrev pub sign_of : ℤ → ℕ
sign_of (pos n) = b'+'
sign_of (negsuc n) = b'-'

-- `_format_offset`, of a number of seconds.
unfoldable pub format_offset : Option ℤ → Str
format_offset none = codes "+00:00"
format_offset (some total) =
    sign_of total ∷ (padded 2 (size total / 3600) ++ (b':' ∷ padded 2 (size total % 3600 / 60)))

module _ {T : Type 0} (parse : Str → Result Invalid T) where
  abbrev pub parsed : Result Invalid T → Result Invalid (Option T)
  parsed (ok t) = ok (some t)
  parsed (err e) = err e

  -- `parse_optional`
  unfoldable pub parse_optional : Option Str → Result Invalid (Option T)
  parse_optional none = ok none
  parse_optional (some []) = ok none
  parse_optional (some (c ∷ s)) = parsed (parse (c ∷ s))
