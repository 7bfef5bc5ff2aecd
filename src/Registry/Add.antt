-- ===== src/Registry/Add.antt =====
-- What the table holds once the server is imported.
use macos_apps_mcp.Base.{
  Str, codes, Bool, ◌≡◌, refl, true, false, not, ◌&&◌, Option, none, some, List, [], ◌∷◌, arith,
  is_some, nat_eq, list_eq, list_beq_iff, beq_refl, All, Bool-cases, inl, inr,
}
use macos_apps_mcp.Base.Text.{starts_with}
use macos_apps_mcp.Base.Dict.{lookup, insert, lookup-insert}
use macos_apps_mcp.Base.Dict.Entries.{Entries, Distinct, Entries-insert, Distinct-insert}
use macos_apps_mcp.Base.Result.{ok, >>=-eq-ok}
use macos_apps_mcp.Tiers.{Launch, read_only, allow_send, adapters_off}
use macos_apps_mcp.Registry.{
  Tier, read, additive, destructive, send, ToolRecord, is_write, derive_audit_verb, Declaration,
  Tools, add, is_send, names_adapter, adapter_on, gate, record_of, tool, register_all,
}

-- A write has a verb, and a read has none.
derive_audit_verb-is_write :
    (name : Str) (t : Tier) (explicit verb : Option Str)
    → derive_audit_verb name t explicit ≡ ok verb
    → is_some verb ≡ is_write t
unfolding derive_audit_verb
derive_audit_verb-is_write name read none verb h = ground arith
derive_audit_verb-is_write name read (some x) verb h = cc
derive_audit_verb-is_write name additive (some x) verb h = ground arith
derive_audit_verb-is_write name destructive (some x) verb h = ground arith
derive_audit_verb-is_write name send (some x) verb h = ground arith
derive_audit_verb-is_write name send none verb h = ground arith
derive_audit_verb-is_write name additive none verb h = ground arith
derive_audit_verb-is_write name destructive none verb h = ground arith

-- Whether the launch lets a tier in: a write not in read-only mode, a send only where it is allowed
-- for its adapter.
abbrev pub lets_in : (Str → Str) → Launch → Tier → Option Str → Bool
lets_in lower l read a = true
lets_in lower l additive a = not (read_only lower l)
lets_in lower l destructive a = not (read_only lower l)
lets_in lower l send none = false
lets_in lower l send (some a) = allow_send lower l a

module _ {S : Type 0} (lower : Str → Str) (l : Launch) where
  -- What holds of every entry of the table.
  pub record IsSound (name : Str) (r : ToolRecord S) : Type 0 where
    pub named : r.name ≡ name
    pub verb : is_some r.audit_verb ≡ is_write r.tier
    pub sender : (is_send r.tier && not (is_some r.adapter)) ≡ false
    pub deletes : (starts_with (codes "delete_") name && not r.removes_content) ≡ false
    pub on : (r.registered && not (adapter_on (adapters_off lower l) r.adapter)) ≡ false
    pub writable : (r.registered && is_write r.tier && read_only lower l) ≡ false

  gate-read_only :
      (d : Declaration S) → (gate lower l d && is_write d.tier && read_only lower l) ≡ false
  unfolding gate allow_send
  gate-read_only d = ground arith

  gate-on :
      (d : Declaration S)
      → (gate lower l d && not (adapter_on (adapters_off lower l) d.adapter)) ≡ false
  unfolding gate
  gate-on d = ground arith

  record_of-IsSound :
      (d : Declaration S) (verb : Option Str)
      → names_adapter d ≡ true
      → derive_audit_verb d.name d.tier d.audit ≡ ok verb
      → IsSound d.name (record_of lower l d verb)
  record_of-IsSound d verb a h = record {
    named = refl;
    verb = derive_audit_verb-is_write d.name d.tier d.audit verb h;
    sender = ground arith;
    deletes = ground arith;
    on = gate-on d;
    writable = gate-read_only d;
  }

  -- The table, with its entries sound and no name twice.
  pub record IsTable (tools : Tools S) : Type 0 where
    pub entries : Entries IsSound tools
    pub distinct : Distinct tools

  -- What one successful call of the decorator did.
  tool_facts :
      (d : Declaration S) (tools tools' : Tools S)
      → tool lower l d tools ≡ ok tools'
      → (verb : Option Str) × (names_adapter d ≡ true)
        × (derive_audit_verb d.name d.tier d.audit ≡ ok verb)
        × (lookup d.name tools ≡ none)
        × (tools' ≡ insert d.name (record_of lower l d verb) tools)
  unfolding tool add
  tool_facts d tools tools' h = elim (Bool-cases (names_adapter d)) [
    | inr no_name ↦ cc (rw no_name at h)
    | inl named ↦
        let (verb, derived, added) =
          >>=-eq-ok (derive_audit_verb d.name d.tier d.audit)
            (λ v. add (record_of lower l d v) tools) (rw named at h) in
        (verb, named, derived, ground arith, ground arith)
  ]

  tool-IsTable :
      (d : Declaration S) (tools tools' : Tools S)
      → tool lower l d tools ≡ ok tools'
      → IsTable tools
      → IsTable tools'
  tool-IsTable d tools tools' h t =
      let (verb, named, derived, fresh, e) = tool_facts d tools tools' h in
      let sound = record_of-IsSound d verb named derived in
      rw e (record {
        entries = Entries-insert IsSound d.name (record_of lower l d verb) tools sound t.entries;
        distinct = Distinct-insert d.name (record_of lower l d verb) tools t.distinct;
      })

  -- However the server's declarations come out, if its import succeeds then the table holds no
  -- name twice, a write has an audit verb and a read none, a send tool names its adapter, a
  -- delete_ tool counts as one that removes content, no tool of an adapter on the deny-list is
  -- registered, and in read-only mode no write is.
  pub register_all-IsTable :
      (ds : List (Declaration S)) (tools tools' : Tools S)
      → register_all lower l ds tools ≡ ok tools'
      → IsTable tools
      → IsTable tools'
  unfolding register_all
  register_all-IsTable [] tools tools' h t = let e : tools ≡ tools' = cc in rw (← e) t
  register_all-IsTable (d ∷ ds) tools tools' h t =
      let (mid, first, rest) = >>=-eq-ok (tool lower l d tools) (register_all lower l ds) h in
      register_all-IsTable ds mid tools' rest (tool-IsTable d tools mid first t)

  -- A record that is there stays as it is.
  register_all-keeps :
      (ds : List (Declaration S)) (tools tools' : Tools S) (name : Str) (r : ToolRecord S)
      → register_all lower l ds tools ≡ ok tools'
      → lookup name tools ≡ some r
      → lookup name tools' ≡ some r
  unfolding register_all
  register_all-keeps [] tools tools' name r h k = let e : tools ≡ tools' = cc in rw (← e) k
  register_all-keeps (d ∷ ds) tools tools' name r h k =
      let (mid, first, rest) = >>=-eq-ok (tool lower l d tools) (register_all lower l ds) h in
      let (verb, named, derived, fresh, e) = tool_facts d tools mid first in
      register_all-keeps ds mid tools' name r rest (
        ground (
          arith,
          lookup-insert d.name name (record_of lower l d verb) tools,
          list_beq_iff d.name name,
        ))

  -- The record of a declaration, as the table has it.
  pub record Recorded (tools : Tools S) (d : Declaration S) : Type 0 where
    pub entry : ToolRecord S
    pub listed : lookup d.name tools ≡ some entry
    pub tier : entry.tier ≡ d.tier
    pub adapter : entry.adapter ≡ d.adapter
    pub verb : derive_audit_verb d.name d.tier d.audit ≡ ok entry.audit_verb
    pub snapshot : entry.snapshot ≡ d.snapshot
    pub verdict :
        entry.registered
        ≡ (adapter_on (adapters_off lower l) d.adapter && lets_in lower l d.tier d.adapter)

  verdict_of :
      (d : Declaration S)
      → gate lower l d
        ≡ (adapter_on (adapters_off lower l) d.adapter && lets_in lower l d.tier d.adapter)
  unfolding gate
  verdict_of d = ground arith

  -- Every declaration of a successful import has its entry in the table, with its tier, its adapter, its
  -- snapshot and its own verb. It is listed as registered exactly if its adapter is not on the
  -- deny-list, a write is not in read-only mode, and a send is allowed for its adapter; otherwise it
  -- is listed as not registered, never absent.
  pub register_all-Recorded :
      (ds : List (Declaration S)) (tools tools' : Tools S)
      → register_all lower l ds tools ≡ ok tools'
      → All (Recorded tools') ds
  unfolding register_all
  register_all-Recorded [] tools tools' h = tt
  register_all-Recorded (d ∷ ds) tools tools' h =
      let (mid, first, rest) = >>=-eq-ok (tool lower l d tools) (register_all lower l ds) h in
      let (verb, named, derived, fresh, e) = tool_facts d tools mid first in
      let r = record_of lower l d verb in
      (
        record {
          entry = r;
          listed =
              register_all-keeps ds mid tools' d.name r rest
                (ground (arith, lookup-insert d.name d.name r tools, beq_refl d.name));
          tier = refl;
          adapter = refl;
          verb = derived;
          snapshot = refl;
          verdict = verdict_of d;
        },
        register_all-Recorded ds mid tools' rest,
      )
