-- ===== src/Audit/Middleware/Envelope.antt =====
-- What the middleware leaves of a call.
use macos_apps_mcp.Base.{
  ℕ, suc, Str, codes, Bool, List, ◌∷◌, ◌∙◌, ap, true, ◌≡◌, refl, false, Option, none, some, arith,
  nat_eq, list_eq,
}
use macos_apps_mcp.Base.Dict.{lookup}
use macos_apps_mcp.Base.Result.{Result, ok, err}
use macos_apps_mcp.Audit.Log.{append, audit_read, entries, append-audit_read}
use macos_apps_mcp.Audit.Log.Appended.{is_open, append-is_open}
use macos_apps_mcp.Audit.Middleware.{
  or_else, truthy, object_id, is_true, Value, ToolResult, Call, Record, Middleware, World,
  audit_after, snapshot, record_of, log_result, on_call_tool,
}

module _ {W P U E : Type 0} (bytes : Record P → ℕ) (use_bytes : U → ℕ) (use_of : Str → U)
    (m : Middleware W P) (ts caller : Str) (session : Option Str)
    (next : W → Result E ToolResult × W) (c : Call) (w : World W P U) where
  abbrev pub done : Result E ToolResult × World W P U
  done = on_call_tool bytes use_bytes use_of m ts caller session next c w

  -- Auditing changes nothing of the call: whatever the logs allow, the tool's result or error and
  -- the store are those of the tool alone. The call is tallied once, also when it raises.
  pub on_call_tool_transparent :
      (done.0 ≡ (next w.store).0)
      × (done.1.store ≡ (next w.store).1)
      × (done.1.usage ≡ (append use_bytes w.usage (use_of c.tool)).0)
  unfolding on_call_tool
  on_call_tool_transparent = (ground arith, ground arith, ground arith)

  snapshot_of :
      (source : W → Value → Option P) (ident : Value)
      → lookup c.tool m.snapshot_sources ≡ some source
      → lookup (codes "id") c.args ≡ some ident
      → is_true ident ≡ true
      → snapshot m w.store c ≡ source w.store ident
  unfolding snapshot
  snapshot_of source ident found given true_id = rw (found, snapshot) (rw given (rw true_id refl))

  target_of :
      (r : ToolResult) (ident : Value)
      → lookup (codes "id") c.args ≡ some ident
      → is_true ident ≡ true
      → or_else (truthy (lookup (codes "id") c.args)) (object_id (audit_after r)) ≡ some ident
  target_of r ident given true_id = rw given (rw true_id refl)

  -- What the record of a write of one item says: the tool, its verb, the item, and the item as its
  -- source shows it in the store before the call.
  pub record IsEnvelope (verb : Str) (source : W → Value → Option P) (ident : Value) (e : Record P)
      : Type 0 where
    pub tool : e.tool ≡ c.tool
    pub op : e.op ≡ verb
    pub before : e.before ≡ source w.store ident
    pub target : e.target_id ≡ some ident

  -- A call that returns with no error, of a tool that has a verb and a snapshot source, with an `id`
  -- that is true, is the newest entry that audit_read gives after it, if the audit log can be written,
  -- rotated and read before: with the tool, the verb, the `id`, and the item as it was in the store
  -- before the tool ran.
  pub on_call_tool_audits :
      (stamp : Record P → Str) (instant : Str → Option ℕ) (earlier : Str → Str → Bool) (n : ℕ)
      (r : ToolResult) (verb : Str) (source : W → Value → Option P) (ident : Value)
      → (next w.store).0 ≡ ok r
      → r.is_error ≡ false
      → lookup c.tool m.audit_verbs ≡ some verb
      → lookup c.tool m.snapshot_sources ≡ some source
      → lookup (codes "id") c.args ≡ some ident
      → is_true ident ≡ true
      → is_open w.audit ≡ true
      → (e : Record P) × (older : List (Record P)) × IsEnvelope verb source ident e
        × (audit_read stamp instant earlier none (suc n) done.1.audit ≡ entries (e ∷ older))
  unfolding on_call_tool log_result
  on_call_tool_audits stamp instant earlier n r verb source ident h k v found given true_id opened =
      let e = record_of m ts caller session verb c (snapshot m w.store c) r in
      let logged : done.1.audit ≡ (append bytes w.audit e).0 = ground (arith, h, k, v) in
      let taken : snapshot m w.store c ≡ source w.store ident =
        snapshot_of source ident found given true_id in
      let (older, newest) =
        append-audit_read stamp instant earlier bytes w.audit e n
          (append-is_open bytes w.audit e opened).0 (ground (arith, opened)) in
      (
        e,
        older,
        record { tool = refl; op = refl; before = taken; target = target_of r ident given true_id },
        ap (audit_read stamp instant earlier none (suc n)) logged ∙ newest,
      )

  -- A call that raises, that returns an error, or of a tool with no verb leaves the audit log as
  -- it was.
  pub on_call_tool_silent :
      ((r : ToolResult)
        → (next w.store).0 ≡ ok r
        → r.is_error ≡ false
        → lookup c.tool m.audit_verbs ≡ none)
      → done.1.audit ≡ w.audit
  unfolding on_call_tool log_result
  on_call_tool_silent h = silent (next w.store).0 refl
    where
      silent : (r : Result E ToolResult) → (next w.store).0 ≡ r → done.1.audit ≡ w.audit
      silent (err e) q = ground arith
      silent (ok r) q = ground (arith, h r q)
