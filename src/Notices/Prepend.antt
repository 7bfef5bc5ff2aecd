-- ===== src/Notices/Prepend.antt =====
-- Which results carry the notice.
use macos_apps_mcp.Base.{Str, ◌≡◌, false, Option, none, ◌∷◌, arith, nat_eq, list_eq}
use macos_apps_mcp.Base.Dict.{lookup}
use macos_apps_mcp.Registry.{Tools}
use macos_apps_mcp.Notices.{untrusted_notice, Result, notices, add_notice}

module _ {S : Type 0} (tools : Tools S) (advisory : Option Str) (name : Str) (r : Result) where
  -- A result that is no error, of a tool that the table does not know, starts with the notice and
  -- goes on with its own content: an unknown name is taken to carry user data.
  pub add_notice_unknown :
      r.is_error ≡ false
      → lookup name tools ≡ none
      → (add_notice tools advisory name r).content ≡ untrusted_notice ∷ r.content
  unfolding add_notice notices
  add_notice_unknown e h = ground arith
