-- ===== src/Base.antt =====
-- The names that the modules of the development share: library names passed on, Boolean tests,
-- arrays as lists with native indices, and bytes of text. It models no code of its own.
mod Tests
mod Lists
mod Slices
mod Outcome
mod Text
mod Ranges
mod Unique
mod Xor
mod Every
pub use Tests.*
pub use Lists.*
pub use Slices.*
unfoldable pub use Outcome.*
pub use Text.*
unfoldable pub use Ranges.*
pub use Unique.*
pub use Xor.*
pub use Every.*
pub use Prim.Native.Nat.{ℕ, zero, suc, ◌+◌, ◌-◌, ◌*◌, ◌/◌, ◌%◌, ◌^◌, ◌≤◌, ◌<◌, min, max}
pub use mathlib.Core.Path.{◌≡◌, refl, sym, ap, ap₂, ◌∙◌}
pub use mathlib.Core.Logic.{◌≢◌, ◌↔◌, ◌⊎◌, inl, inr}
pub use mathlib.Core.Bool.{Bool, true, false, not, ◌&&◌, ◌||◌}
pub use mathlib.Core.Option.{Option, none, some}
pub use mathlib.Core.List.{List, [], ◌∷◌, ◌++◌, map, append-nil, append_assoc}
pub use native.Mathlib.Omega.{arith}
