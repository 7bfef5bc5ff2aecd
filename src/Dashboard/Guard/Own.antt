-- ===== src/Dashboard/Guard/Own.antt =====
-- A write of the dashboard's own page, as a browser sends it.
use macos_apps_mcp.Base.{
  ◌+◌, ◌≤◌, Str, codes, ◌≡◌, refl, sym, ◌∙◌, ap, ◌⊎◌, inl, inr, true, false, none, some, List, [],
  ◌∷◌, ◌++◌, map, arith, ◌==◌, nat_eq, list_eq, option_eq, list_beq, list_beq_iff, beq_refl, length,
  length-append, contains, Bool-cases,
}
use macos_apps_mcp.Base.Dict.{Dict, lookup}
use macos_apps_mcp.Base.Equality.{pair_eq}
use macos_apps_mcp.Base.Text.{split, partition}
use macos_apps_mcp.Base.Text.Split.{partition-append}
use macos_apps_mcp.Dashboard.Guard.{
  Guard, Scope, Message, chunk, run_app, header, hosts, origins, strip_bytes, key_cookie,
  pair_is_key, any_pair_is_key, has_key, is_link, is_read, host_ok, same_origin, first_value,
  max_body, unread, replay, call,
}
use macos_apps_mcp.Dashboard.Guard.Access.{Admitted, writes, WriteAdmitted, call-Passes}
use macos_apps_mcp.Dashboard.Guard.Key.{cookie_pair}
use macos_apps_mcp.Dashboard.Guard.Reading.{parts, concat, read_body_cut}

-- A value of the `Cookie` header that carries the key in one of its parts.
abbrev pub Carries : Str → Str → Type 0
Carries key value = contains (map strip_bytes (split b';' value)) (cookie_pair key) ≡ true

-- A loopback name of the dashboard, at its port.
abbrev pub IsLoopback : Guard → Str → Type 0
IsLoopback g host = (host ≡ codes "127.0.0.1:" ++ g.port) ⊎ (host ≡ codes "localhost:" ++ g.port)

-- A POST to the dashboard, at a loopback name, with the key among its cookies; its origin is such a
-- name, or it has none and the browser says that it comes from the same origin.
pub record OwnWrite (g : Guard) (s : Scope) (key : Str) : Type 0 where
  pub http : s.is_http ≡ true
  pub method : s.method ≡ codes "POST"
  pub host : Str
  pub host_header : header s (codes "host") ≡ some host
  pub loopback : IsLoopback g host
  pub key_set : g.key ≡ some key
  pub cookie : Str
  pub cookie_header : contains s.headers (codes "cookie", cookie) ≡ true
  pub carries : Carries key cookie
  pub origin :
      ((from : Str) × (header s (codes "origin") ≡ some (codes "http://" ++ from))
        × IsLoopback g from)
      ⊎ ((header s (codes "origin") ≡ none)
          × (header s (codes "sec-fetch-site") ≡ some (codes "same-origin")))

part_is_key : (key p : Str) → strip_bytes p ≡ cookie_pair key → pair_is_key key p ≡ true
unfolding pair_is_key
part_is_key key p h =
    let cut : partition b'=' (strip_bytes p) ≡ (key_cookie, true, key) =
      ap (partition b'=') h ∙ partition-append b'=' key_cookie key refl in
    rw cut (ground (arith, beq_refl key_cookie, beq_refl key))

carries_key :
    (key : Str) (ps : List Str)
    → contains (map strip_bytes ps) (cookie_pair key) ≡ true
    → any_pair_is_key key ps ≡ true
unfolding any_pair_is_key
carries_key key [] h = ground (arith, h)
carries_key key (p ∷ ps) h = elim (Bool-cases (cookie_pair key == strip_bytes p)) [
  | inl same ↦
      let here =
        part_is_key key p (sym ((list_beq_iff (cookie_pair key) (strip_bytes p)).0 same)) in
      ground (arith, here)
  | inr other ↦ ground (arith, h, other, carries_key key ps)
]

has_key_there :
    (key cookie : Str) (hs : List (Str × Str))
    → contains hs (codes "cookie", cookie) ≡ true
    → Carries key cookie
    → has_key key hs ≡ true
unfolding has_key
has_key_there key cookie [] h k = ground (arith, h)
has_key_there key cookie ((n, v) ∷ hs) h k =
    elim (Bool-cases (pair_eq.beq (codes "cookie", cookie) (n, v))) [
      | inl same ↦
          let both : (codes "cookie", cookie) ≡ (n, v) =
            (pair_eq.beq_iff (codes "cookie", cookie) (n, v)).0 same in
          let name : codes "cookie" ≡ n = ap (λ r. r.0) both in
          let value : cookie ≡ v = ap (λ r. r.1) both in
          rw (← name, ← value)
            (ground (arith, beq_refl (codes "cookie"), carries_key key (split b';' cookie) k))
      | inr other ↦ ground (arith, h, other, has_key_there key cookie hs)
    ]

loopback_host : (g : Guard) (host : Str) → IsLoopback g host → contains (hosts g) host ≡ true
loopback_host g host (inl name) = rw name (ground (arith, beq_refl (codes "127.0.0.1:" ++ g.port)))
loopback_host g host (inr name) = rw name (ground (arith, beq_refl (codes "localhost:" ++ g.port)))

loopback_origin :
    (g : Guard) (from : Str)
    → IsLoopback g from
    → contains (origins g) (codes "http://" ++ from) ≡ true
loopback_origin g from (inl name) =
    rw name (ground (arith, beq_refl (codes "http://" ++ (codes "127.0.0.1:" ++ g.port))))
loopback_origin g from (inr name) =
    rw name (ground (arith, beq_refl (codes "http://" ++ (codes "localhost:" ++ g.port))))

own_origin : (g : Guard) (s : Scope) (key : Str) → OwnWrite g s key → same_origin g s ≡ true
unfolding same_origin
own_origin g s key o = elim o.origin [
  | inl (from, given, near) ↦ rw (given, same_origin) (loopback_origin g from near)
  | inr (no_origin, same) ↦
      rw (no_origin, same_origin) (rw same (beq_refl (some (codes "same-origin"))))
]

own_host : (g : Guard) (s : Scope) (key : Str) → OwnWrite g s key → host_ok g s ≡ true
unfolding host_ok
own_host g s key o = rw (o.host_header, host_ok) (loopback_host g o.host o.loopback)

own-Admitted : (g : Guard) (s : Scope) (key : Str) → OwnWrite g s key → Admitted g s key
unfolding is_link list_beq
own-Admitted g s key o = record {
  http = o.http;
  host = own_host g s key o;
  key_set = o.key_set;
  cookie = has_key_there key o.cookie s.headers o.cookie_header o.carries;
  not_link = rw (o.method, is_link) refl;
}

-- What `receive` holds after the body, however it was cut.
unread-parts :
    (acc : Str) (ps : List Str) (last : Str) (ms : List Message)
    → length acc + length (concat ps) ≤ max_body
    → unread acc (parts ps (chunk last false ∷ ms)) ≡ ms
unfolding unread
unread-parts acc [] last ms h = ground (arith, h)
unread-parts acc (p ∷ ps) last ms h =
    let total = length-append p (concat ps) in
    let grown = length-append acc p in
    ground
      (arith, total, grown, unread-parts (acc ++ p) ps last ms (omega (arith, h, total, grown)))

-- A write of the dashboard's own page reaches the app: a POST to a loopback name, with the key among its
-- cookies wherever it stands there, from such a name or, without an Origin, from the same origin by
-- the browser's word, whose body is within the cap and carries the session token. However the body
-- is cut into messages, the app sees it once, whole, and then what follows.
pub call-OwnWrite :
    (parse_qs : Str → Dict Str (List Str)) (g : Guard) (s : Scope) (key : Str) (ps : List Str)
    (last : Str) (later : List Message) (more : List Str)
    → OwnWrite g s key
    → length (concat ps ++ last) ≤ max_body
    → lookup (codes "token") (parse_qs (concat ps ++ last)) ≡ some (g.token ∷ more)
    → call parse_qs g s (parts ps (chunk last false ∷ later))
      ≡ run_app (chunk (concat ps ++ last) false ∷ later)
unfolding replay is_read first_value list_beq
call-OwnWrite parse_qs g s key ps last later more o fits sent =
    let ms = parts ps (chunk last false ∷ later) in
    let body = concat ps ++ last in
    let long = length-append (concat ps) last in
    let front : length (concat ps) ≤ max_body = omega (arith, long, fits) in
    let rest : unread [] ms ≡ later = unread-parts [] ps last later (omega (arith, front)) in
    let brought : WriteAdmitted parse_qs g s ms body = record {
      changes = rw (o.method, is_read) refl;
      origin = own_origin g s key o;
      read_whole = (read_body_cut ps last later front).0;
      capped = fits;
      token = rw (sent, first_value) refl;
    } in
    call-Passes parse_qs g s ms (chunk body false ∷ later) key (own-Admitted g s key o)
      (writes body brought (ap (λ ns. chunk body false ∷ ns) (sym rest)))
