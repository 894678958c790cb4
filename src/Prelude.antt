-- ===== src/Prelude.antt =====
-- The names that all modules share: those of the libraries, passed on, and the helpers of the
-- child modules on Boolean tests, lists, texts and fallible results.
mod Tests
mod Lists
mod Results
pub mod Action
pub mod Int
pub mod Strings
pub mod Map
pub use Tests.*
pub use Lists.*
pub use Results.*
unfoldable pub use Results.{collect}
pub use Strings.{Text, codes, text_has_eq}
unfoldable pub use Strings.{text_eq}
pub use Prim.Native.Nat.{ℕ, zero, suc, ◌+◌, ◌-◌, ◌*◌, ◌/◌, ◌%◌, ◌^◌, ◌≤◌, ◌<◌}
pub use mathlib.Core.Path.{◌≡◌, refl, sym, ap, ◌∙◌}
pub use mathlib.Core.Logic.{◌≢◌, ◌↔◌, ◌⊎◌, inl, inr}
pub use mathlib.Core.Bool.{Bool, true, false, not, ◌&&◌, ◌||◌}
pub use mathlib.Core.Option.{Option, none, some}
pub use mathlib.Core.List.{List, [], ◌∷◌, ◌++◌, map, append-nil, append_assoc}
pub use native.Mathlib.Omega.{arith}
