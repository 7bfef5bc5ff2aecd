-- ===== src/Dashboard/Guard/Tests.antt =====
-- The theorems at a concrete guard, with a form parser for a single pair.
use macos_apps_mcp.Base.{
  Str, codes, ◌≡◌, refl, true, false, some, List, [], ◌∷◌, ◌++◌, arith, list_beq, inr, list_eq,
  nat_eq,
}
use macos_apps_mcp.Base.Dict.{Dict, lookup, insert}
use macos_apps_mcp.Base.Text.{lstrip, split, partition}
use macos_apps_mcp.Dashboard.Guard.{
  Guard, Scope, Message, disconnect, chunk, whole, client_left, run_app, redirect, has_key, host_ok,
  is_link, is_read, same_origin, is_byte_space, header_dict_onto, any_pair_is_key, pair_is_key,
  strip_bytes, read_body, unread, replay, authorise, write, link, call_with, call, first_value,
  is_page, root_path,
}
use macos_apps_mcp.Dashboard.Guard.Access.{Admitted, Passes, call-run_app}
use macos_apps_mcp.Dashboard.Guard.Own.{OwnWrite, call-OwnWrite}
use macos_apps_mcp.Dashboard.Guard.Reading.{parts, concat, read_body_cut}
use macos_apps_mcp.Dashboard.Guard.Key.{cookie_pair}

-- One `name=value` pair, undecoded.
abbrev one_pair : Str → Dict Str (List Str)
one_pair s = let (name, found, value) = partition b'=' s in (name, value ∷ []) ∷ []

abbrev guard : Guard
guard = record { port = codes "4711"; token = codes "tok"; key = some (codes "Kk-9_") }

abbrev cookie : Str
cookie = cookie_pair (codes "Kk-9_")

abbrev post : Scope
post = record {
  is_http = true;
  method = codes "POST";
  path = codes "/adapters";
  query_string = [];
  headers =
      (codes "host", codes "localhost:4711")
      ∷ (codes "cookie", cookie)
      ∷ (codes "origin", codes "http://localhost:4711")
      ∷ [];
}

abbrev form : List Message
form = chunk (codes "token") true ∷ chunk (codes "=tok") false ∷ []

abbrev visit : Scope
visit = record post { method = codes "GET"; path = codes "/key"; query_string = codes "k=Kk-9_" }

posted : call one_pair guard post form ≡ run_app (chunk (codes "token=tok") false ∷ [])
unfolding call call_with write authorise host_ok is_link is_read same_origin header_dict_onto lookup
    insert list_beq has_key any_pair_is_key pair_is_key strip_bytes split read_body unread replay
    first_value partition
posted = refl

call-run_app_example :
    (key : Str) × Admitted guard post key
    × Passes one_pair guard post form (chunk (codes "token=tok") false ∷ [])
call-run_app_example =
    call-run_app one_pair guard post form (chunk (codes "token=tok") false ∷ []) posted

-- A browser that sends no Origin, with another cookie before the key.
abbrev own : Scope
own = record post {
  headers =
      (codes "host", codes "localhost:4711")
      ∷ (codes "cookie", codes "theme=dark; " ++ cookie)
      ∷ (codes "sec-fetch-site", codes "same-origin")
      ∷ [];
}

own-OwnWrite : OwnWrite guard own (codes "Kk-9_")
unfolding header_dict_onto lookup insert list_beq strip_bytes split lstrip is_byte_space
own-OwnWrite = record {
  http = refl;
  method = refl;
  host = codes "localhost:4711";
  host_header = refl;
  loopback = inr refl;
  key_set = refl;
  cookie = codes "theme=dark; " ++ cookie;
  cookie_header = refl;
  carries = refl;
  origin = inr (refl, refl);
}

token_sent : lookup (codes "token") (one_pair (codes "token=tok")) ≡ some (guard.token ∷ [])
unfolding lookup partition list_beq
token_sent = refl

call-OwnWrite_example :
    call one_pair guard own
      (parts (codes "tok" ∷ codes "en" ∷ []) (chunk (codes "=tok") false ∷ []))
    ≡ run_app (chunk (codes "token=tok") false ∷ [])
call-OwnWrite_example =
    call-OwnWrite one_pair guard own (codes "Kk-9_") (codes "tok" ∷ codes "en" ∷ []) (codes "=tok")
      [] [] own-OwnWrite (omega arith) token_sent

read_body_cut_example :
    (read_body [] (parts (codes "to" ∷ codes "ken" ∷ []) (chunk (codes "=tok") false ∷ []))
      ≡ whole (concat (codes "to" ∷ codes "ken" ∷ []) ++ codes "=tok"))
    × (read_body [] (parts (codes "to" ∷ codes "ken" ∷ []) (disconnect ∷ [])) ≡ client_left)
read_body_cut_example =
    read_body_cut (codes "to" ∷ codes "ken" ∷ []) (codes "=tok") [] (omega arith)

key_pair_found : any_pair_is_key (codes "Kk-9_") (split b';' cookie) ≡ true
unfolding split any_pair_is_key pair_is_key strip_bytes partition list_beq
key_pair_found = refl

linked : link one_pair (codes "Kk-9_") visit ≡ redirect root_path (codes "Kk-9_")
unfolding link first_value lookup list_beq partition is_page
linked = refl
