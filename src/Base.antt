-- ===== src/Base.antt =====
-- The names that the other modules share: the libraries', passed on, and those of the children.
mod Tests
mod Lists
mod Ints
mod Texts
mod Splits
mod Paths
mod Numbers
mod Outcomes
mod Maps
mod Times
pub mod Floats
unfoldable pub use Tests.*
unfoldable pub use Lists.*
unfoldable pub use Ints.*
unfoldable pub use Texts.*
unfoldable pub use Splits.*
unfoldable pub use Paths.*
unfoldable pub use Numbers.*
unfoldable pub use Outcomes.*
unfoldable pub use Maps.*
unfoldable pub use Times.*
pub use Prim.Native.Nat.{ℕ, zero, suc, ◌+◌, ◌-◌, ◌*◌, ◌/◌, ◌%◌, ◌^◌, ◌≤◌, ◌<◌, min}
pub use mathlib.Core.Path.{◌≡◌, refl, sym, ap, ◌∙◌}
pub use mathlib.Core.Logic.{◌≢◌, ◌↔◌, ◌⊎◌, inl, inr}
pub use mathlib.Core.Bool.{Bool, true, false, not, ◌&&◌, ◌||◌}
pub use mathlib.Core.Option.{Option, none, some}
pub use mathlib.Core.List.{List, [], ◌∷◌, ◌++◌, map, append-nil, append_assoc}
pub use native.Mathlib.Omega.{arith}
