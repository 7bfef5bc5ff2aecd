-- ===== src/Dashboard/Guard/Reading.antt =====
-- `_read_body`: the body does not depend on how the client cuts it.
use macos_apps_mcp.Base.{
  ◌+◌, ◌≤◌, Str, ◌≡◌, true, false, List, [], ◌∷◌, ◌++◌, arith, length, length-append,
}
use mathlib.Core.List.{append_assoc, append-nil}
use macos_apps_mcp.Dashboard.Guard.{
  Message, disconnect, chunk, whole, client_left, read_body, max_body,
}

-- Messages that each say there is more, before the others.
abbrev pub parts : List Str → List Message → List Message
parts [] ms = ms
parts (p ∷ ps) ms = chunk p true ∷ parts ps ms

abbrev pub concat : List Str → Str
concat [] = []
concat (p ∷ ps) = p ++ concat ps

read_body-parts :
    (acc : Str) (ps : List Str) (ms : List Message)
    → length acc + length (concat ps) ≤ max_body
    → read_body acc (parts ps ms) ≡ read_body (acc ++ concat ps) ms
unfolding read_body
read_body-parts acc [] ms h = rw append-nil
read_body-parts acc (p ∷ ps) ms h =
    let total = length-append p (concat ps) in
    let grown = length-append acc p in
    rw (← append_assoc acc p (concat ps))
      (ground (arith, total, grown, read_body-parts (acc ++ p) ps ms (omega (arith, total, grown))))

-- While the pieces before it stay within the cap, a body is read whole, the same however it is cut
-- into messages; and a client that leaves before its last piece yields no body at all.
pub read_body_cut :
    (ps : List Str) (last : Str) (ms : List Message)
    → length (concat ps) ≤ max_body
    → (read_body [] (parts ps (chunk last false ∷ ms)) ≡ whole (concat ps ++ last))
      × (read_body [] (parts ps (disconnect ∷ ms)) ≡ client_left)
unfolding read_body
read_body_cut ps last ms h = (
  ground (arith, read_body-parts [] ps (chunk last false ∷ ms) (omega arith)),
  ground (arith, read_body-parts [] ps (disconnect ∷ ms) (omega arith)),
)
