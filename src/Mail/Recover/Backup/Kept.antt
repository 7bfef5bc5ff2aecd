-- ===== src/Mail/Recover/Backup/Kept.antt =====
-- What a backup preserves.
use macos_apps_mcp.Base.{
  ℕ, ◌≡◌, refl, sym, ap, Str, true, false, Option, none, some, List, [], ◌∷◌, arith, if◌then◌else◌,
  Option-cases, inl, inr, nat_eq, list_eq, option_eq, list_beq_iff, option_beq_iff, beq_refl,
  some_of, is_some, ◌⊎◌,
}
use macos_apps_mcp.Base.Result.{ok, ◌>>=◌, Result-cases, >>=-eq-ok}
use macos_apps_mcp.Mail.Recover.{Target, Fidelity, absent, BackupPath}
use macos_apps_mcp.Mail.Recover.Locate.{payload_at}
use macos_apps_mcp.Mail.Recover.Backup.{KeptFile, Disk, is_at, enter, keep, back_up_one, back_up}

-- The bytes of a backup file, if it is there.
unfoldable pub stored : Str → Option ℕ → List KeptFile → Option (List ℕ)
stored rid rowid [] = none
stored rid rowid (f ∷ files) =
    let rest = stored rid rowid files in if is_at rid rowid f then some f.bytes else rest

-- No file is lost or changed.
abbrev pub Extends : List KeptFile → List KeptFile → Type 0
Extends old new =
    (rid : Str) (rowid : Option ℕ) (bytes : List ℕ)
    → stored rid rowid old ≡ some bytes
    → stored rid rowid new ≡ some bytes

-- For a path, a fidelity and a backup: stamped absent, or the file holds the bytes of the message.
abbrev pub Holds : Disk → List KeptFile → Option Str → Fidelity → Option BackupPath → Type 0
Holds disk files path fidelity none = fidelity ≡ absent
Holds disk files path fidelity (some (rid, rowid)) =
    (bytes : List ℕ) × (payload_at disk.payload path ≡ some bytes)
    × (stored rid rowid files ≡ some bytes)

abbrev pub Preserved : Disk → List KeptFile → Target → Type 0
Preserved disk files t = Holds disk files t.path t.fidelity t.backup

-- One result for each target, in order: the target itself but for its fidelity and its backup, and,
-- where it had no backup, preserved.
abbrev pub BackedUp : Disk → List KeptFile → List Target → List Target → Type 0
BackedUp disk files [] [] = Unit
BackedUp disk files [] (u ∷ us) = true ≡ false
BackedUp disk files (t ∷ ts) [] = true ≡ false
BackedUp disk files (t ∷ ts) (u ∷ us) =
    (u ≡ record t { fidelity = u.fidelity; backup = u.backup })
    × ((is_some t.backup ≡ true) ⊎ Preserved disk files u)
    × BackedUp disk files ts us

stored_there :
    (rid : Str) (rowid : Option ℕ) (files : List KeptFile) (bytes : List ℕ)
    → stored rid rowid files ≡ some bytes
    → some_of (is_at rid rowid) files ≡ true
unfolding stored
stored_there rid rowid [] bytes h = ground arith
stored_there rid rowid (f ∷ files) bytes h = ground (arith, h, stored_there rid rowid files bytes)

Extends-Holds :
    (disk : Disk) (old new : List KeptFile) (path : Option Str) (fidelity : Fidelity)
    (backup : Option BackupPath)
    → Extends old new
    → Holds disk old path fidelity backup
    → Holds disk new path fidelity backup
Extends-Holds disk old new path fidelity none grown h = h
Extends-Holds disk old new path fidelity (some (rid, rowid)) grown (bytes, read, there) =
    (bytes, read, grown rid rowid bytes there)

module _ (disk : Disk) where
  keep_lem :
      (rid : Str) (rowid : Option ℕ) (bytes : List ℕ) (files files' : List KeptFile)
      → keep disk rid rowid bytes files ≡ ok files'
      → (stored rid rowid files' ≡ some bytes) × Extends files files'
  unfolding keep stored
  keep_lem rid rowid bytes files files' h =
      let new : KeptFile = record { receipt = rid; rowid = rowid; bytes = bytes } in
      let free : some_of (is_at rid rowid) files ≡ false = ground (arith, h) in
      let made : files' ≡ new ∷ files = ground (arith, h) in
      rw made (
        ground (arith, beq_refl rid, beq_refl rowid),
        λ r n b there. ground (
          arith,
          there,
          free,
          stored_there r n files b there,
          list_beq_iff rid r,
          option_beq_iff rowid n,
        ),
      )

  back_up_one_lem :
      (rid : Str) (t u : Target) (files files' : List KeptFile)
      → back_up_one disk rid t files ≡ ok (u, files')
      → (u ≡ record t { fidelity = u.fidelity; backup = u.backup })
        × ((is_some t.backup ≡ true) ⊎ Preserved disk files' u)
        × Extends files files'
  unfolding back_up_one
  back_up_one_lem rid t u files files' h = elim (Option-cases (payload_at disk.payload t.path)) [
    | inl unread ↦
        let same : u ≡ record t { fidelity = absent } = ground (arith, unread, h) in
        let still : files' ≡ files = ground (arith, unread, h) in
        rw (same, still)
          (
            refl,
            elim (Option-cases t.backup) [
              | inl unkept ↦ inr (rw unkept refl)
              | inr (path, kept) ↦ inl (rw kept refl)
            ],
            λ r n b there. there,
          )
    | inr (bytes, read) ↦
        let chain : (enter disk rid >>= λ dir. keep disk dir t.rowid bytes files >>= λ kept.
        ok (record t { backup = some (dir, t.rowid) }, kept))
            ≡ ok (u, files') =
          rw (read, back_up_one) at h in
        let (dir, entered, rest) = >>=-eq-ok (enter disk rid) _ chain in
        let (kept, written, made) = >>=-eq-ok (keep disk dir t.rowid bytes files) _ rest in
        let same : u ≡ record t { backup = some (dir, t.rowid) } = ground (arith, made) in
        let new : files' ≡ kept = ground (arith, made) in
        let there = keep_lem dir t.rowid bytes files kept written in
        rw (same, new) (refl, inr (bytes, read, there.0), there.1)
  ]

  -- If `_backup` returns, it gives one result for each target, in order, the target itself but for its
  -- fidelity and its backup; each target that had no backup is stamped absent, or its backup file
  -- holds exactly the message at its path; and no file that was there before is lost or changed.
  pub back_up-Preserved :
      (rid : Str) (ts us : List Target) (files files' : List KeptFile)
      → back_up disk rid ts files ≡ (ok us, files')
      → BackedUp disk files' ts us × Extends files files'
  unfolding back_up
  back_up-Preserved rid [] us files files' h =
      let none_made : us ≡ [] = ground (arith, h) in
      let still : files' ≡ files = ground (arith, h) in
      rw (none_made, still) (tt, λ r n b there. there)
  back_up-Preserved rid (t ∷ ts) us files files' h =
      elim (Result-cases (back_up_one disk rid t files)) [
        | inl (e, failed) ↦ ground (arith, failed, h)
        | inr ((u, middle), made) ↦
            let chain : ((back_up disk rid ts middle).0 >>= (λ vs. ok (u ∷ vs))) ≡ ok us =
              ap (λ r. r.0) (rw (made, back_up) at h) in
            let same_files : files' ≡ (back_up disk rid ts middle).1 = ground (arith, made, h) in
            let (vs, rest, listed) = >>=-eq-ok (back_up disk rid ts middle).0 _ chain in
            let same : us ≡ u ∷ vs = ground (arith, listed) in
            let whole : back_up disk rid ts middle ≡ (ok vs, files') =
              λ i. (rest i, sym same_files i) in
            let (kept, there, grown) = back_up_one_lem rid t u files middle made in
            let (rest, more) = back_up-Preserved rid ts vs middle files' whole in
            rw same (
              (
                kept,
                elim there [
                  | inl had ↦ inl had
                  | inr held ↦
                      inr (Extends-Holds disk middle files' u.path u.fidelity u.backup more held)
                ],
                rest,
              ),
              λ r n b before. more r n b (grown r n b before),
            )
      ]
