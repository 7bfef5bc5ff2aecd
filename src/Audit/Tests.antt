-- ===== src/Audit/Tests.antt =====
-- The theorems at small logs.
use macos_apps_mcp.Base.{
  ℕ, Str, codes, ◌≡◌, refl, true, false, Option, none, some, List, [], ◌∷◌, ◌++◌, length,
  if◌then◌else◌, list_beq, ◌&&◌, nat_eq, list_eq,
}
use macos_apps_mcp.Base.Dict.{lookup}
use macos_apps_mcp.Base.Result.{Result, ok, err}
use macos_apps_mcp.Audit.Log.{
  Log, is_full, append, records, readable, recent, kept, entries, audit_read, append_history,
  append-audit_read,
}
use macos_apps_mcp.Audit.Usage.{Use, usage_report}
use macos_apps_mcp.Audit.Usage.Exact.{IsExact, usage_report-IsExact}
use macos_apps_mcp.Audit.Middleware.{text, Call, ToolResult, no_dict, Record, Middleware, World}
use macos_apps_mcp.Audit.Middleware.Envelope.{IsEnvelope, done, on_call_tool_audits}

-- Records that are their own length and time.
abbrev log : Log ℕ
log = record {
  backup = 7 ∷ [];
  live = 9 ∷ [];
  can_rotate = true;
  can_append = true;
  can_read_backup = true;
  can_read_live = true;
}

append_history_example :
    (append (λ n. n) log 4).0.backup ++ (append (λ n. n) log 4).0.live
    ≡ (if is_full (λ n. n) log && log.can_rotate then log.live else log.backup ++ log.live)
      ++ (if (append (λ n. n) log 4).1 then 4 ∷ [] else [])
append_history_example = append_history (λ n. n) log 4

appended_true : (append (λ (n : ℕ). n) log 4).1 ≡ true
unfolding append
appended_true = refl

stamp : ℕ → Str
stamp n = n ∷ []

instant : Str → Option ℕ
instant [] = none
instant (c ∷ _) = some c

append-audit_read_example :
    (older : List ℕ) × (audit_read stamp instant (λ _ _. false) none 3 (append (λ n. n) log 4).0
      ≡ entries (4 ∷ older))
append-audit_read_example =
    append-audit_read stamp instant (λ _ _. false) (λ n. n) log 4 2 appended_true refl

bounded : audit_read stamp instant (λ _ _. false) (some (8 ∷ [])) 5 log ≡ entries (9 ∷ [])
unfolding audit_read records kept recent stamp instant
bounded = refl

abbrev uses : Log Use
uses = record {
  backup = record { tool = some (codes "mail"); ts = codes "1" } ∷ [];
  live =
      record { tool = some (codes "mail"); ts = codes "2" } ∷ record { tool = none; ts = [] } ∷ [];
  can_rotate = true;
  can_append = true;
  can_read_backup = true;
  can_read_live = true;
}

-- An unreadable backup hides its calls only.
live_only : readable (record uses { can_read_backup = false }) ≡ uses.live
unfolding readable
live_only = refl

usage_report-IsExact_example :
    IsExact (codes "now" ∷ []) uses (readable uses) (usage_report (codes "now" ∷ []) uses)
usage_report-IsExact_example = usage_report-IsExact (codes "now" ∷ []) uses

-- A store of one number, which the tool sets to 5.
abbrev middleware : Middleware ℕ ℕ
middleware = record {
  audit_verbs = (codes "set", codes "update") ∷ [];
  snapshot_sources = (codes "set", λ w _. some w) ∷ [];
  dry_run_defaults = [];
  coerce = λ _. none;
}

abbrev sets : ℕ → Result ℕ ToolResult × ℕ
sets w = (ok (record { is_error = false; structured = no_dict }), 5)

abbrev fails : ℕ → Result ℕ ToolResult × ℕ
fails w = (err 1, w)

abbrev call : Call
call = record { tool = codes "set"; args = (codes "id", text (codes "x")) ∷ [] }

abbrev world : World ℕ ℕ Str
world = record {
  store = 3;
  audit = record {
    backup = [];
    live = [];
    can_rotate = true;
    can_append = true;
    can_read_backup = true;
    can_read_live = true;
  };
  usage = record {
    backup = [];
    live = [];
    can_rotate = true;
    can_append = false;
    can_read_backup = true;
    can_read_live = true;
  };
}

has_verb : lookup (codes "set") middleware.audit_verbs ≡ some (codes "update")
unfolding lookup list_beq
has_verb = refl

has_source : lookup (codes "set") middleware.snapshot_sources ≡ some (λ w _. some w)
unfolding lookup list_beq
has_source = refl

has_id : lookup (codes "id") call.args ≡ some (text (codes "x"))
unfolding lookup list_beq
has_id = refl

when : Record ℕ → Str
when r = r.ts

-- The record holds the 3 that the tool replaced.
on_call_tool_audits_example :
    (e : Record ℕ) × (older : List (Record ℕ)) × IsEnvelope
      (λ _. 10)
      length
      (λ t. t)
      middleware
      (codes "t")
      (codes "c")
      none
      sets
      call
      world
      (codes "update")
      (λ w _. some w)
      (text (codes "x"))
      e
    × (audit_read when instant
          (λ _ _. false)
          none
          3
          (done
            (λ _. 10)
            length
            (λ t. t)
            middleware
            (codes "t")
            (codes "c")
            none
            sets
            call
            world).1.audit
        ≡ entries (e ∷ older))
on_call_tool_audits_example =
    on_call_tool_audits (λ _. 10) length (λ t. t) middleware (codes "t") (codes "c") none sets call
      world when instant (λ _ _. false) 2 (record { is_error = false; structured = no_dict })
      (codes "update") (λ w _. some w) (text (codes "x")) refl refl has_verb has_source has_id refl
      refl
