-- ===== src/Dedupe/Options.antt =====
-- `_parse` of macos_apps_mcp/dedupe.py. What it prints is left out; `int` is a parameter.
pub mod Checked
use macos_apps_mcp.Base.{
  ℕ, zero, suc, Str, codes, Bool, true, false, not, ◌&&◌, ◌||◌, Option, none, some, List, [], ◌∷◌,
  ltb, if◌then◌else◌, ◌==◌, nat_eq, list_eq,
}
use macos_apps_mcp.Base.Integer.{ℤ, pos, negsuc}
use macos_apps_mcp.Base.Text.{starts_with, partition}
use macos_apps_mcp.Base.Result.{Result, ok, err, ◌>>=◌}

pub record Options : Type 0 where
  pub execute : Bool
  pub mailbox : Option Str
  pub cross_account : Bool
  pub keep_account : Option Str
  pub verbose : Bool
  pub limit : Option ℕ

-- `SystemExit`, with its status.
pub data Exit : Type 0 where
  system_exit : ℕ → Exit

abbrev pub defaults : Options
defaults = record {
  execute = false;
  mailbox = none;
  cross_account = false;
  keep_account = none;
  verbose = false;
  limit = none;
}

-- `arg.split("=", 1)[1]`, of an argument that has the sign
unfoldable pub value_of : Str → Str
value_of arg = let (_, _, value) = partition b'=' arg in value

-- Whether a text or None is true in a test.
abbrev pub is_given : Option Str → Bool
is_given none = false
is_given (some []) = false
is_given (some (_ ∷ _)) = true

unfoldable pub set_limit : Option ℤ → Options → Result Exit Options
set_limit none o = err (system_exit 2)
set_limit (some (negsuc n)) o = err (system_exit 2)
set_limit (some (pos n)) o =
    if ltb n 1 then err (system_exit 2) else ok (record o { limit = some n })

module _ (int : Str → Option ℤ) where
  -- The body of the loop.
  unfoldable pub parse_arg : Str → Options → Result Exit Options
  parse_arg arg o =
      if arg == codes "--execute"
      then ok (record o { execute = true })
      else if arg == codes "--verbose"
      then ok (record o { verbose = true })
      else if arg == codes "--cross-account"
      then ok (record o { cross_account = true })
      else if starts_with (codes "--mailbox=") arg
      then ok (record o { mailbox = some (value_of arg) })
      else if starts_with (codes "--keep-account=") arg
      then ok (record o { keep_account = some (value_of arg) })
      else if starts_with (codes "--limit=") arg
      then set_limit (int (value_of arg)) o
      else if arg == codes "-h" || arg == codes "--help"
      then err (system_exit 0)
      else err (system_exit 2)

  unfoldable pub parse_args : List Str → Options → Result Exit Options
  parse_args [] o = ok o
  parse_args (arg ∷ argv) o = parse_arg arg o >>= parse_args argv

  -- The test after the loop.
  unfoldable pub check_keeper : Options → Result Exit Options
  check_keeper o =
      if o.cross_account && not (is_given o.keep_account) then err (system_exit 2) else ok o

  -- `_parse`
  unfoldable pub parse : List Str → Result Exit Options
  parse argv = parse_args argv defaults >>= check_keeper
