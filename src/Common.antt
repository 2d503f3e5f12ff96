-- ===== src/Common.antt =====
-- Shared names: the libraries', passed on, and those of the children (Boolean tests, arrays as
-- lists with native indices, the numbers of C).
mod Tests
mod Lists
mod Words
mod Texts
mod Reals
mod Every
mod Codes
mod Tables
mod Visits
unfoldable pub use Tests.*
unfoldable pub use Lists.*
unfoldable pub use Words.*
unfoldable pub use Texts.*
pub use Reals.*
unfoldable pub use Every.*
unfoldable pub use Tables.*
unfoldable pub use Visits.*
unfoldable pub use Codes.*
pub use Prim.Native.Nat.{ℕ, zero, suc, ◌+◌, ◌-◌, ◌*◌, ◌/◌, ◌%◌, ◌^◌, ◌≤◌, ◌<◌, min, max}
pub use mathlib.Core.Path.{◌≡◌, refl, sym, ap, subst, subst⁻¹, subst₂, ◌∙◌}
pub use mathlib.Core.Logic.{◌≢◌, ◌↔◌, ◌⊎◌, inl, inr}
pub use mathlib.Core.Bool.{Bool, true, false, not, ◌&&◌, ◌||◌}
pub use mathlib.Core.Option.{Option, none, some}
pub use mathlib.Core.List.{List, [], ◌∷◌, ◌++◌, map}
pub use native.Mathlib.Omega.{arith}
