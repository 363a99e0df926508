-- ===== src/Common.antt =====
-- The names that every module shares: the libraries', passed on, and those of the children.
-- `Tests` has the Boolean tests, `Eq` the equality of map keys, `Text` the byte strings of Go
-- with the functions of package strings that the code calls, `Map` Go's maps.
mod Tests
mod Keys
mod Lists
pub mod Text
pub mod Map
pub mod Url
pub mod Go
pub mod Slice
pub mod Decimal
pub use Tests.*
pub use Keys.*
pub use Lists.*
pub use Prim.Native.Nat.{ℕ, zero, suc, ◌+◌, ◌-◌, ◌*◌, ◌/◌, ◌%◌, ◌^◌, ◌≤◌, ◌<◌}
pub use mathlib.Core.Path.{◌≡◌, refl, sym, ap, ◌∙◌, ◌≡⟨◌⟩◌, ◌∎}
pub use mathlib.Core.Logic.{◌≢◌, ◌↔◌, ◌⊎◌, inl, inr}
pub use mathlib.Core.Bool.{Bool, true, false, not, ◌&&◌, ◌||◌}
pub use mathlib.Core.Option.{Option, none, some}
pub use mathlib.Core.List.{List, [], ◌∷◌, ◌++◌, map, append_assoc, append-nil}
pub use native.Mathlib.Omega.{arith}
