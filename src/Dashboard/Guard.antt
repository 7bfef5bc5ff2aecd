-- ===== src/Dashboard/Guard.antt =====
-- `Guard` of macos_apps_mcp/dashboard/guard.py: the wrapper that every dashboard request passes.
-- Texts and byte strings are lists of code points and of bytes; `parse_qs` of urllib, with the
-- decoding before it, is a parameter. `hmac.compare_digest` is an equality test.
pub mod Access
pub mod Reading
pub mod Key
pub mod Own
pub mod Tests
use macos_apps_mcp.Base.{
  ℕ, Str, codes, Bool, true, false, not, ◌&&◌, ◌||◌, Option, none, some, List, [], ◌∷◌, ◌++◌, ltb,
  leb, if◌then◌else◌, ◌==◌, nat_eq, list_eq, option_eq, contains, length, ◌+◌,
}
use macos_apps_mcp.Base.Text.{lstrip, split, partition}
use macos_apps_mcp.Base.Dict.{Dict, lookup, insert}
use mathlib.Core.List.{reverse}

abbrev pub max_body : ℕ
max_body = 8192

abbrev pub key_cookie : Str
key_cookie = codes "macos_apps_mcp_key"

abbrev pub key_path : Str
key_path = codes "/key"

abbrev pub root_path : Str
root_path = codes "/"

-- The scope of one request. The header names and values are raw bytes.
pub record Scope : Type 0 where
  pub is_http : Bool
  pub method : Str
  pub path : Str
  pub query_string : Str
  pub headers : List (Str × Str)

-- The messages that `receive` hands over.
pub data Message : Type 0 where
  disconnect : Message
  chunk : Str → Bool → Message

-- Why a request is refused; each reason has its status and text in `deny`.
pub data Reason : Type 0 where
  invalid_host key_unusable needs_key forbidden_origin body_too_large forbidden_token : Reason

pub data Response : Type 0 where
  refusal : Reason → Response
  -- To a path, with the key as the cookie that it sets.
  redirect : Str → Str → Response

pub data Outcome : Type 0 where
  -- Not an HTTP scope, or the client went away: nothing is sent and nothing runs.
  dropped : Outcome
  -- `receive` has no further message yet.
  waiting : Outcome
  answer : Response → Outcome
  -- The wrapped app runs, on these messages.
  run_app : List Message → Outcome

pub record Guard : Type 0 where
  pub port : Str
  pub token : Str
  pub key : Option Str

abbrev pub hosts : Guard → List Str
hosts g = (codes "127.0.0.1:" ++ g.port) ∷ (codes "localhost:" ++ g.port) ∷ []

abbrev pub prefix_all : Str → List Str → List Str
prefix_all p [] = []
prefix_all p (x ∷ xs) = (p ++ x) ∷ prefix_all p xs

abbrev pub origins : Guard → List Str
origins g = prefix_all (codes "http://") (hosts g)

-- `{k: v for k, v in headers}`: the last header of a name wins.
unfoldable pub header_dict_onto : Dict Str Str → List (Str × Str) → Dict Str Str
header_dict_onto d [] = d
header_dict_onto d ((k, v) ∷ hs) = header_dict_onto (insert k v d) hs

abbrev pub header : Scope → Str → Option Str
header s name = lookup name (header_dict_onto [] s.headers)

-- `bytes.strip()`
unfoldable pub is_byte_space : ℕ → Bool
is_byte_space c = (leb 9 c && leb c 13) || c == 32

unfoldable pub strip_bytes : Str → Str
unfolding lstrip is_byte_space
strip_bytes s = reverse (lstrip is_byte_space (reverse (lstrip is_byte_space s)))

-- One `name=value` pair of a cookie header.
unfoldable pub pair_is_key : Str → Str → Bool
unfolding strip_bytes partition
pair_is_key key pair =
    let (name, found, value) = partition b'=' (strip_bytes pair) in
    name == key_cookie && value == key

unfoldable pub any_pair_is_key : Str → List Str → Bool
any_pair_is_key key [] = false
any_pair_is_key key (p ∷ ps) = pair_is_key key p || any_pair_is_key key ps

-- `_has_key`: the raw cookie headers, every one of them and every pair.
unfoldable pub has_key : Str → List (Str × Str) → Bool
has_key key [] = false
has_key key ((name, value) ∷ hs) =
    (name == codes "cookie" && any_pair_is_key key (split b';' value)) || has_key key hs

pub data Body : Type 0 where
  whole : Str → Body
  client_left : Body
  not_yet : Body

-- `_read_body`, from what is read so far. Reading stops past the cap.
unfoldable pub read_body : Str → List Message → Body
read_body body [] = if leb (length body) max_body then not_yet else whole body
read_body body (disconnect ∷ ms) = if leb (length body) max_body then client_left else whole body
read_body body (chunk part more ∷ ms) =
    let rest = read_body (body ++ part) ms in
    if leb (length body) max_body then (if more then rest else whole (body ++ part)) else whole body

-- `_replay`: the body once more, then whatever `receive` has.
unfoldable pub replay : Str → List Message → List Message
replay body ms = chunk body false ∷ ms

-- What `receive` still holds after `read_body`.
unfoldable pub unread : Str → List Message → List Message
unread body [] = []
unread body (disconnect ∷ ms) = if leb (length body) max_body then ms else disconnect ∷ ms
unread body (chunk part more ∷ ms) =
    let rest = unread (body ++ part) ms in
    if leb (length body) max_body then (if more then rest else ms) else chunk part more ∷ ms

-- `_PAGE_RE`: a slash, then one lowercase segment.
abbrev pub all_lower : Str → Bool
all_lower [] = true
all_lower (c ∷ s) = leb b'a' c && leb c b'z' && all_lower s

unfoldable pub is_page : Str → Bool
is_page [] = false
is_page (c ∷ []) = false
is_page (c ∷ d ∷ s) = c == b'/' && all_lower (d ∷ s)

-- `got.get(name, [""])[0]`; `parse_qs` never lists a name with no value.
unfoldable pub first_value : Str → Dict Str (List Str) → Str
first_value name form = elim (lookup name form) [ none ↦ [] | some [] ↦ [] | some (v ∷ vs) ↦ v ]

-- `origin in self.origins`, or the fetch metadata where there is no origin.
unfoldable pub same_origin : Guard → Scope → Bool
same_origin g s = elim (header s (codes "origin")) [
  | some origin ↦ contains (origins g) origin
  | none ↦ header s (codes "sec-fetch-site") == some (codes "same-origin")
]

-- A method that changes nothing: `scope["method"] in ("GET", "HEAD")`.
unfoldable pub is_read : Scope → Bool
is_read s = s.method == codes "GET" || s.method == codes "HEAD"

unfoldable pub host_ok : Guard → Scope → Bool
host_ok g s = elim (header s (codes "host")) [ none ↦ false | some h ↦ contains (hosts g) h ]

unfoldable pub is_link : Scope → Bool
is_link s = s.method == codes "GET" && s.path == key_path

module _ (parse_qs : Str → Dict Str (List Str)) where
  -- `_link`
  unfoldable pub link : Str → Scope → Response
  link key s =
      let got = parse_qs s.query_string in
      let to = first_value (codes "to") got in
      if first_value (codes "k") got == key
      then redirect (if is_page to then to else root_path) key
      else refusal needs_key

  -- The write branch of `__call__` on what `_read_body` returned; `later` is what `receive` still
  -- holds.
  unfoldable pub authorise : Guard → List Message → Body → Outcome
  authorise g later not_yet = waiting
  authorise g later client_left = dropped
  authorise g later (whole body) =
      if ltb max_body (length body)
      then answer (refusal body_too_large)
      else if first_value (codes "token") (parse_qs body) == g.token
      then run_app (replay body later)
      else answer (refusal forbidden_token)

  -- The write branch of `__call__`, once the origin is right.
  unfoldable pub write : Guard → List Message → Outcome
  write g ms = authorise g (unread [] ms) (read_body [] ms)

  -- `__call__`, with a usable key.
  unfoldable pub call_with : Str → Guard → Scope → List Message → Outcome
  call_with key g s ms =
      if is_link s
      then answer (link key s)
      else if not (has_key key s.headers)
      then answer (refusal needs_key)
      else if is_read s
      then run_app ms
      else if same_origin g s
      then write g ms
      else answer (refusal forbidden_origin)

  -- `__call__`
  unfoldable pub call : Guard → Scope → List Message → Outcome
  call g s ms =
      if not s.is_http
      then dropped
      else if not (host_ok g s)
      then answer (refusal invalid_host)
      else elim g.key [ none ↦ answer (refusal key_unusable) | some key ↦ call_with key g s ms ]

-- The status of a refusal.
abbrev pub status : Reason → ℕ
status invalid_host = 400
status key_unusable = 503
status _ = 403
