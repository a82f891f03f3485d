-- ===== src/Prelude.antt =====
-- The names that all the modules share: those of the libraries, passed on, and those of the
-- children, which hold tests on numbers, arrays as lists and C strings as lists of bytes.
mod Tests
mod Lists
mod Strings
pub mod Decimal
pub mod Buffer
pub mod Within
pub use Tests.*
pub use Lists.*
unfoldable pub use Strings.*
unfoldable pub use Decimal.*
pub use Prim.Native.Nat.{ℕ, zero, suc, ◌+◌, ◌-◌, ◌*◌, ◌/◌, ◌%◌, ◌^◌, ◌≤◌, ◌<◌}
pub use mathlib.Core.Path.{◌≡◌, refl, sym, ap, ◌∙◌}
pub use mathlib.Core.Logic.{◌≢◌, ◌↔◌, ◌⊎◌, inl, inr, ⊎_elim}
pub use mathlib.Core.Bool.{Bool, true, false, not, ◌&&◌, ◌||◌}
pub use mathlib.Core.Option.{Option, none, some}
pub use mathlib.Core.List.{List, [], ◌∷◌, ◌++◌, Memᴰ}
pub use native.Mathlib.Omega.{arith}
