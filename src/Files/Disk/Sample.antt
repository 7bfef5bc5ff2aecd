-- ===== src/Files/Disk/Sample.antt =====
-- A system for the examples: it refuses nothing, and every other process is dead.
use macos_apps_mcp.Base.{
  codes, ◌≡◌, sym, ◌∙◌, true, false, [], ◌∷◌, ◌==◌, list_eq, nat_eq, inl, inr, Bool-cases,
}
use macos_apps_mcp.Base.Dict.{insert, lookup-insert}
use macos_apps_mcp.Files.Disk.{Place, Entry, Disk, Os, no_process}
use macos_apps_mcp.Files.Disk.Kept.{Kept, same_place}

abbrev pub root : Place
root = codes "Downloads" ∷ []

abbrev pub os : Os
os = record {
  base = root;
  expand = λ s. (false, s ∷ []);
  resolve = λ _ path. path;
  can_make = λ _. true;
  can_list = λ _. true;
  can_link = λ _ _. true;
  is_stuck = λ _. false;
  kill = λ _. no_process;
  pid = 7;
  uid = 501;
  mode = 0o755;
  random = λ _. codes "abcdefgh";
  nfc = λ s. s;
  is_dropped = λ _. false;
}

pub insert_only :
    (path : Place) (e : Entry) (disk : Disk) → Kept (λ q. q ≡ path) disk (insert path e disk)
insert_only path x disk q e h = elim (Bool-cases (path == q)) [
  | inl same ↦ inl (sym (same_place path q same))
  | inr other ↦
      let found = lookup-insert path q x disk in let found = rw other at (found) in inr (found ∙ h)
]
