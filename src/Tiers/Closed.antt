-- ===== src/Tiers/Closed.antt =====
-- The gates fail closed.
use macos_apps_mcp.Base.{Str, ◌≡◌, ◌∙◌, ap, true, false, [], ◌∷◌, arith, beq_refl, list_eq, nat_eq}
use macos_apps_mcp.Base.Text.{split, strip, lstrip, is_space}
use macos_apps_mcp.Tiers.{
  Launch, unreadable, is_daemon_role, adapters_all_off, read_only, names, or_file, allow_send,
  allow_send_value, allow_send_file, adapters_off_file, adapters_off, adapter_enabled,
}

or_file_client : (l : Launch) (val file : Str) → is_daemon_role l ≡ false → or_file l val file ≡ val
unfolding or_file
or_file_client l val file h = ground arith

or_file_unset :
    (l : Launch) (val file : Str) → is_daemon_role l ≡ true → val ≡ [] → or_file l val file ≡ file
unfolding or_file
or_file_unset l val file h e = ground arith

off_file_unreadable :
    (l : Launch) → l.adapters_off_toggle ≡ unreadable → adapters_off_file l ≡ adapters_all_off
unfolding adapters_off_file
off_file_unreadable l h = ground arith

module _ (lower : Str → Str) where
  adapters_off_mark :
      (l : Launch)
      → lower adapters_all_off ≡ adapters_all_off
      → or_file l (strip l.adapters_off_var) (adapters_off_file l) ≡ adapters_all_off
      → adapters_off lower l ≡ adapters_all_off ∷ []
  unfolding adapters_off names split strip lstrip is_space
  adapters_off_mark l mark h =
      ap (λ (v : Str). names lower lower (split b',' v)) h ∙ ap (λ (v : Str). v ∷ []) mark

  -- Read-only wins over every way to allow sending.
  pub read_only-allow_send :
      (l : Launch) (adapter : Str) → read_only lower l ≡ true → allow_send lower l adapter ≡ false
  unfolding allow_send
  read_only-allow_send l adapter h = rw h

  -- In the daemon, with no variable set, a deny-list file that exists and cannot be read turns
  -- every adapter off; the lower case of the mark "*" is assumed to be "*".
  pub adapters_off_unreadable :
      (l : Launch) (name : Str)
      → lower adapters_all_off ≡ adapters_all_off
      → is_daemon_role l ≡ true
      → strip l.adapters_off_var ≡ []
      → l.adapters_off_toggle ≡ unreadable
      → adapter_enabled (adapters_off lower l) name ≡ false
  unfolding adapter_enabled
  adapters_off_unreadable l name mark daemon unset file =
      let value =
        or_file_unset l (strip l.adapters_off_var) (adapters_off_file l) daemon unset
        ∙ off_file_unreadable l file in
      rw (adapters_off_mark l mark value) (rw (beq_refl adapters_all_off))

  -- Outside the daemon neither toggle file is read: whatever they hold, the gates are the same.
  pub toggles_daemon_only :
      (l k : Launch) (adapter : Str)
      → is_daemon_role l ≡ false
      → is_daemon_role k ≡ false
      → k.read_only_var ≡ l.read_only_var
      → k.allow_send_var ≡ l.allow_send_var
      → k.adapters_off_var ≡ l.adapters_off_var
      → (allow_send lower k adapter ≡ allow_send lower l adapter)
        × (adapters_off lower k ≡ adapters_off lower l)
  unfolding allow_send adapters_off read_only allow_send_value
  toggles_daemon_only l k adapter dl dk r s o = (
    rw (or_file_client l l.allow_send_var (allow_send_file l) dl)
        (rw (or_file_client k k.allow_send_var (allow_send_file k) dk) (rw (r, s))),
    rw (or_file_client l (strip l.adapters_off_var) (adapters_off_file l) dl)
        (rw (or_file_client k (strip k.adapters_off_var) (adapters_off_file k) dk) (rw o)),
  )
