-- ===== src/Audit/Middleware.antt =====
-- `AuditMiddleware.on_call_tool` of audit.py and the record that it writes. The adapters' store,
-- the pointers, the clock and pydantic's coercion of `dry_run` are parameters.
pub mod Envelope
use macos_apps_mcp.Base.{
  ℕ, ltb, ◌+◌, Str, codes, ◌≡◌, refl, Bool, true, false, not, ◌&&◌, ◌||◌, Option, none, some, List,
  [], ◌∷◌, ◌++◌, arith, if◌then◌else◌, is_some, ◌==◌, nat_eq, list_eq, length, take,
}
use macos_apps_mcp.Base.Dict.{Dict, lookup}
use macos_apps_mcp.Base.Result.{Result, ok, err}
use macos_apps_mcp.Audit.Log.{Log, append}

-- An argument or a field of a JSON object: a text, or another value with its truth value.
pub data Value : Type 0 where
  text : Str → Value
  other : ℕ → Bool → Value

abbrev pub is_true : Value → Bool
is_true (text []) = false
is_true (text (_ ∷ _)) = true
is_true (other _ b) = b

abbrev pub Object : Type 0
Object = Dict Str Value

-- `structured_content`: no dict; a dict with no "result"; or what stands under its "result".
pub data Structured : Type 0 where
  no_dict : Structured
  bare : Object → Structured
  wrapped : Option Object → Structured

pub record ToolResult : Type 0 where
  pub is_error : Bool
  pub structured : Structured

pub record Call : Type 0 where
  pub tool : Str
  pub args : Object

abbrev pub summary_max : ℕ
summary_max = 200

abbrev pub ellipsis : Str
ellipsis = 0x2026 ∷ []

-- `_audit_args`
abbrev pub short : Value → Value
short (text s) = if ltb 200 (length s) then text (take 200 s ++ ellipsis) else text s
short (other n b) = other n b

unfoldable pub audit_args : Object → Object
audit_args [] = []
audit_args ((k, v) ∷ args) = (k, short v) ∷ audit_args args

abbrev pub inner : Structured → Option Object
inner no_dict = none
inner (bare d) = some d
inner (wrapped o) = o

-- `_audit_after`
unfoldable pub audit_after : ToolResult → Option Object
audit_after r = elim (inner r.structured) [
  | none ↦ none
  | some d ↦ if is_some (lookup (codes "id") d) then some d else none
]

abbrev pub as_text : Option Value → Option Str
as_text none = none
as_text (some (text s)) = some s
as_text (some (other _ _)) = none

-- `_audit_receipt`
unfoldable pub audit_receipt : ToolResult → Option Str
audit_receipt r = elim (inner r.structured) [
  | none ↦ none
  | some d ↦ as_text (lookup (codes "receipt") d)
]

-- `args.get("id")`, if it is true
abbrev pub truthy : Option Value → Option Value
truthy none = none
truthy (some v) = if is_true v then some v else none

abbrev pub or_else : Option Value → Option Value → Option Value
or_else none o = o
or_else (some v) o = some v

abbrev pub object_id : Option Object → Option Value
object_id none = none
object_id (some d) = lookup (codes "id") d

abbrev pub present : Option Str → Option Str
present none = none
present (some []) = none
present (some (c ∷ s)) = some (c ∷ s)

pub record Record (P : Type 0) : Type 0 where
  pub ts : Str
  pub tool : Str
  pub op : Str
  pub args : Object
  pub dry_run : Bool
  pub caller : Str
  pub session : Option Str
  pub target_id : Option Value
  pub before : Option P
  pub after : Option Object
  pub receipt : Option Str

-- What a middleware is made of, and what one call brings. `W` is the store that the adapters act
-- on, `P` a pointer; a snapshot that fails shows as none, as in `_safe_snapshot`.
pub record Middleware (W P : Type 0) : Type 0 where
  pub audit_verbs : Dict Str Str
  pub snapshot_sources : Dict Str (W → Value → Option P)
  pub dry_run_defaults : Dict Str Bool
  -- `_BOOL.validate_python`: none where pydantic rejects the value
  pub coerce : Value → Option Bool

pub record World (W P U : Type 0) : Type 0 where
  pub store : W
  pub audit : Log (Record P)
  pub usage : Log U

-- `resolve_dry_run`
unfoldable pub resolve_dry_run : (Value → Option Bool) → Dict Str Bool → Str → Object → Bool
resolve_dry_run coerce defaults tool args =
    let default : Bool = elim (lookup tool defaults) [ none ↦ false | some b ↦ b ] in
    elim (lookup (codes "dry_run") args) [
      | none ↦ default
      | some v ↦ elim (coerce v) [ none ↦ default | some b ↦ b ]
    ]

module _ {W P : Type 0} where
  -- The before-state: only for a tool with a source, and a true `id`.
  unfoldable pub snapshot : Middleware W P → W → Call → Option P
  snapshot m w c = elim (lookup c.tool m.snapshot_sources) [
    | none ↦ none
    | some source ↦ elim (truthy (lookup (codes "id") c.args)) [ none ↦ none | some v ↦ source w v ]
  ]

  -- The record of a call, with the before-state that was taken.
  abbrev pub record_of :
      Middleware W P → Str → Str → Option Str → Str → Call → Option P → ToolResult → Record P
  record_of m ts caller session verb c before r =
      let after = audit_after r in
      record {
        ts = ts;
        tool = c.tool;
        op = verb;
        args = audit_args c.args;
        dry_run = resolve_dry_run m.coerce m.dry_run_defaults c.tool c.args;
        caller = caller;
        session = session;
        target_id = or_else (truthy (lookup (codes "id") c.args)) (object_id after);
        before = before;
        after = after;
        receipt = present (audit_receipt r);
      }

  module _ (bytes : Record P → ℕ) where
    -- The part after the tool has returned.
    unfoldable pub log_result :
        Middleware W P
        → Str
        → Str
        → Option Str
        → Call
        → Option P
        → ToolResult
        → Log (Record P)
        → Log (Record P)
    log_result m ts caller session c before r l = elim (lookup c.tool m.audit_verbs) [
      | none ↦ l
      | some verb ↦
          if r.is_error
          then l
          else (append bytes l (record_of m ts caller session verb c before r)).0
    ]

module _ {W P U E : Type 0} (bytes : Record P → ℕ) (use_bytes : U → ℕ) (use_of : Str → U) where
  -- `on_call_tool`. `next` is the rest of the chain: it changes the store, and returns or raises.
  unfoldable pub on_call_tool :
      Middleware W P
      → Str
      → Str
      → Option Str
      → (W → Result E ToolResult × W)
      → Call
      → World W P U
      → Result E ToolResult × World W P U
  on_call_tool m ts caller session next c w =
      let usage = (append use_bytes w.usage (use_of c.tool)).0 in
      let before = snapshot m w.store c in
      let (r, store) = next w.store in
      elim r [
        | err e ↦ (err e, record { store = store; audit = w.audit; usage = usage })
        | ok res ↦ (
          ok res,
          record {
            store = store;
            audit = log_result bytes m ts caller session c before res w.audit;
            usage = usage;
          },
        )
      ]
