-- ===== src/Base.antt =====
-- The names that the other modules share: those of the libraries, passed on, Python's tests and
-- conditionals, `==` as an interface, lists measured by native numbers, `dict`, and `str`.
pub mod Logic
pub mod Equality
pub mod Lists
pub mod Decimal
pub mod Dict
pub mod Text
pub mod Sort
pub mod Integer
pub mod Dates
pub mod Result
pub mod Effect
unfoldable pub use Logic.*
unfoldable pub use Equality.*
unfoldable pub use Lists.*
pub use Text.{Str, codes}
pub use Prim.Native.Nat.{ℕ, zero, suc, ◌+◌, ◌-◌, ◌*◌, ◌/◌, ◌%◌, ◌≤◌, ◌<◌}
pub use Prim.Native.String.{String}
pub use mathlib.Core.Path.{◌≡◌, refl, sym, ap, ◌∙◌}
pub use mathlib.Core.Logic.{◌≢◌, ◌↔◌, ◌⊎◌, inl, inr}
pub use mathlib.Core.Bool.{Bool, true, false, not, ◌&&◌, ◌||◌}
pub use mathlib.Core.Option.{Option, none, some}
pub use mathlib.Core.List.{List, [], ◌∷◌, ◌++◌, map}
pub use native.Mathlib.Omega.{arith}
