-- ===== src/Prelude.antt =====
-- The names that the other modules share: those of the libraries, passed on, and the texts, the
-- dictionaries and the option helpers of the children.
mod Tests
pub mod Texts
pub mod Dict
pub mod Maybe
pub use Tests.*
unfoldable pub use Texts.{Text, Bytes, codes, text_eq, contains, starts_with, count}
pub use Texts.{text_eq_iff, text_eq_self, text_eq-ne, append-ne, count-append}
pub use Prim.Native.Nat.{ℕ, zero, suc, ◌+◌, ◌-◌, ◌*◌, ◌/◌, ◌%◌, ◌^◌, ◌≤◌, ◌<◌}
pub use mathlib.Core.Path.{◌≡◌, refl, sym, ap, ◌∙◌, subst}
pub use mathlib.Core.Logic.{◌≢◌, ◌↔◌, ◌⊎◌, inl, inr}
pub use mathlib.Core.Bool.{Bool, true, false, not, ◌&&◌, ◌||◌}
pub use mathlib.Core.Option.{Option, none, some}
pub use mathlib.Core.List.{List, [], ◌∷◌, ◌++◌, map}
pub use native.Mathlib.Omega.{arith}
