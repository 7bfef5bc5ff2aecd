-- ===== src/Dashboard/Guard/Access.antt =====
-- What reaches the wrapped app.
use macos_apps_mcp.Base.{
  ◌≤◌, Str, codes, ◌≡◌, refl, ◌⊎◌, inl, inr, true, false, none, some, List, [], arith,
  if◌then◌else◌, nat_eq, list_eq, list_beq_iff, length,
}
use macos_apps_mcp.Base.Dict.{Dict}
use macos_apps_mcp.Dashboard.Guard.{
  Guard, Scope, Message, Body, whole, client_left, not_yet, dropped, answer, run_app, refusal,
  key_unusable, invalid_host, max_body, host_ok, is_link, is_read, has_key, same_origin, read_body,
  first_value, replay, unread, authorise, write, call_with, call,
}

-- What a request must bring before anything of the app runs.
pub record Admitted (g : Guard) (s : Scope) (key : Str) : Type 0 where
  pub http : s.is_http ≡ true
  pub host : host_ok g s ≡ true
  pub key_set : g.key ≡ some key
  pub cookie : has_key key s.headers ≡ true
  pub not_link : is_link s ≡ false

module _ (parse_qs : Str → Dict Str (List Str)) where
  -- What a write must bring besides, as it is read.
  pub record WriteAdmitted (g : Guard) (s : Scope) (ms : List Message) (body : Str) : Type 0 where
    pub changes : is_read s ≡ false
    pub origin : same_origin g s ≡ true
    pub read_whole : read_body [] ms ≡ whole body
    pub capped : length body ≤ max_body
    pub token : first_value (codes "token") (parse_qs body) ≡ g.token

  -- The two ways to the app, with the messages that it then sees.
  pub data Passes (g : Guard) (s : Scope) (ms ns : List Message) : Type 0 where
    reads : is_read s ≡ true → ns ≡ ms → Passes g s ms ns
    writes :
        (body : Str)
        → WriteAdmitted g s ms body
        → ns ≡ replay body (unread [] ms)
        → Passes g s ms ns

  authorise-run_app :
      (g : Guard) (later ns : List Message) (b : Body)
      → authorise parse_qs g later b ≡ run_app ns
      → (body : Str) × (b ≡ whole body)
        × (length body ≤ max_body)
        × (first_value (codes "token") (parse_qs body) ≡ g.token)
        × (ns ≡ replay body later)
  unfolding authorise
  authorise-run_app g later ns not_yet h = cc
  authorise-run_app g later ns client_left h = cc
  authorise-run_app g later ns (whole body) h =
      let sent = first_value (codes "token") (parse_qs body) in
      let same = list_beq_iff sent g.token in
      (body, refl, ground (arith, same), ground (arith, same), ground (arith, same))

  write-run_app :
      (g : Guard) (s : Scope) (ms ns : List Message)
      → is_read s ≡ false
      → same_origin g s ≡ true
      → write parse_qs g ms ≡ run_app ns
      → Passes g s ms ns
  unfolding write
  write-run_app g s ms ns r o h =
      let (body, read, fits, sent, seen) =
        authorise-run_app g (unread [] ms) ns (read_body [] ms) h in
      writes body
        (record { changes = r; origin = o; read_whole = read; capped = fits; token = sent }) seen

  call_with_facts :
      (key : Str) (g : Guard) (s : Scope) (ms ns : List Message)
      → call_with parse_qs key g s ms ≡ run_app ns
      → (is_link s ≡ false)
        × (has_key key s.headers ≡ true)
        × (((is_read s ≡ true) × (ns ≡ ms))
            ⊎ ((is_read s ≡ false) × (same_origin g s ≡ true) × (write parse_qs g ms ≡ run_app ns)))
  unfolding call_with
  call_with_facts key g s ms ns h = ground arith

  call_with-run_app :
      (key : Str) (g : Guard) (s : Scope) (ms ns : List Message)
      → call_with parse_qs key g s ms ≡ run_app ns
      → (is_link s ≡ false) × (has_key key s.headers ≡ true) × Passes g s ms ns
  call_with-run_app key g s ms ns h =
      let (l, k, way) = call_with_facts key g s ms ns h in
      (l, k, elim way [ inl (r, e) ↦ reads r e | inr (r, o, w) ↦ write-run_app g s ms ns r o w ])

  call_facts :
      (g : Guard) (s : Scope) (ms ns : List Message)
      → call parse_qs g s ms ≡ run_app ns
      → (key : Str) × (s.is_http ≡ true)
        × (host_ok g s ≡ true)
        × (g.key ≡ some key)
        × (call_with parse_qs key g s ms ≡ run_app ns)
  unfolding call
  call_facts g s ms ns h = ground arith

  -- The wrapped app runs only on a request for HTTP whose Host is one of the two loopback names,
  -- when a key is set, to one that carries the key as a cookie and is not the key link; and then
  -- either the method is GET or HEAD, or the origin is the dashboard's own, the whole body was
  -- read within the cap and carries the session token, and the app sees that body again.
  pub call-run_app :
      (g : Guard) (s : Scope) (ms ns : List Message)
      → call parse_qs g s ms ≡ run_app ns
      → (key : Str) × Admitted g s key × Passes g s ms ns
  call-run_app g s ms ns h =
      let (key, http, host, set, rest) = call_facts g s ms ns h in
      let (l, k, way) = call_with-run_app key g s ms ns rest in
      (key, record { http = http; host = host; key_set = set; cookie = k; not_link = l }, way)

  -- Conversely, a request that brings all of this reaches the app with those messages.
  pub call-Passes :
      (g : Guard) (s : Scope) (ms ns : List Message) (key : Str)
      → Admitted g s key
      → Passes g s ms ns
      → call parse_qs g s ms ≡ run_app ns
  unfolding call call_with write authorise
  call-Passes g s ms ns key a (reads r e) =
      ground (arith, a.http, a.host, a.key_set, a.not_link, a.cookie)
  call-Passes g s ms ns key a (writes body w e) = ground (
    arith,
    a.http,
    a.host,
    a.key_set,
    a.not_link,
    a.cookie,
    w.changes,
    w.origin,
    w.read_whole,
    w.capped,
    w.token,
    list_beq_iff (first_value (codes "token") (parse_qs body)) g.token,
  )

  -- With no usable key, nothing reaches the app: a good Host is answered 503, another one 400, and
  -- a scope that is not HTTP gets no answer.
  pub call_no_key :
      (g : Guard) (s : Scope) (ms : List Message)
      → g.key ≡ none
      → call parse_qs g s ms ≡ (
          if s.is_http
          then answer (refusal (if host_ok g s then key_unusable else invalid_host))
          else dropped)
  unfolding call
  call_no_key g s ms h = rw (h, call) (ground arith)
