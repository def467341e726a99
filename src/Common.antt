-- ===== src/Common.antt =====
-- What the modules share: the libraries' names, Boolean tests, signed integers, lists, maps,
-- sorting and the monad of the Go functions that return an error.
mod Tests
mod Int
mod Lists
mod Maps
mod Monad
mod Unique
pub mod Decimal
pub mod Env
pub mod MapKeys
pub mod Sort
pub mod SortKeys
unfoldable pub use Tests.*
unfoldable pub use Int.*
unfoldable pub use Lists.*
unfoldable pub use Maps.*
unfoldable pub use Unique.*
unfoldable pub use Monad.*
pub use Prim.Native.Nat.{ℕ, zero, suc, ◌+◌, ◌-◌, ◌*◌, ◌/◌, ◌%◌, ◌^◌, ◌≤◌, ◌<◌, min}
pub use Prim.Native.String.{String}
pub use mathlib.Core.Path.{◌≡◌, refl, sym, ap, ◌∙◌, subst}
pub use mathlib.Core.Logic.{◌≢◌, ◌↔◌, ◌⊎◌, inl, inr}
pub use mathlib.Core.Bool.{Bool, true, false, ◌&&◌, ◌||◌, not}
pub use mathlib.Core.Option.{Option, none, some}
pub use mathlib.Core.List.{List, [], ◌∷◌, ◌++◌, map, append-nil, append_assoc, map-append}
pub use native.Mathlib.Omega.{arith}
