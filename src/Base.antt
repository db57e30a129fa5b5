-- ===== src/Base.antt =====
-- Shared names: the libraries', passed on, and those of the modules below.
mod Tests
mod Lists
mod Words
mod Strings
mod Control
mod Binary
pub mod Dict
pub mod Sort
pub mod Order
pub use Tests.*
pub use Lists.*
pub use Words.*
unfoldable pub use Strings.*
pub use Control.*
unfoldable pub use Binary.*
pub use Prim.Native.Nat.{ℕ, zero, suc, ◌+◌, ◌-◌, ◌*◌, ◌/◌, ◌%◌, ◌^◌, ◌≤◌, ◌<◌}
pub use Prim.Native.Nat.{bit_and, bit_or, Ordering}
pub use mathlib.Core.Path.{◌≡◌, refl, sym, ap, ◌∙◌, ◌≡⟨◌⟩◌, ◌∎}
pub use mathlib.Core.Logic.{◌≢◌, ◌↔◌, ◌⊎◌, inl, inr}
pub use mathlib.Core.Bool.{Bool, true, false, ◌&&◌, ◌||◌, not}
pub use mathlib.Core.Option.{Option, none, some}
pub use mathlib.Core.List.{List, [], ◌∷◌, ◌++◌, map, append_assoc, append-nil}
pub use native.Mathlib.Omega.{arith}
