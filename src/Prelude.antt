-- ===== src/Prelude.antt =====
-- The names that the other modules share: the libraries', passed on, and those of the children.
pub mod Tests
pub mod Lists
pub mod Texts
pub mod Dicts
pub mod Order
pub use Tests.*
pub use Lists.*
unfoldable pub use Texts.{eq_text}
pub use Texts.{Text, text, eq_text_refl, eq_of_eq_text, eq_text_iff}
unfoldable pub use Dicts.{lookup, insert, delete}
pub use Dicts.{Dict, lookup-insert, lookup-delete, length-insert_new, length-insert_old}
pub use Prim.Native.Nat.{ℕ, zero, suc, ◌+◌, ◌-◌, ◌*◌, ◌/◌, ◌%◌, ◌^◌, ◌≤◌, ◌<◌}
pub use mathlib.Core.Path.{◌≡◌, refl, sym, ap, ◌∙◌, subst}
pub use mathlib.Core.Logic.{◌≢◌, ◌↔◌, ◌⊎◌, inl, inr}
pub use mathlib.Core.Bool.{Bool, true, false, not, ◌&&◌, ◌||◌}
pub use mathlib.Core.Option.{Option, none, some, get_or}
pub use mathlib.Core.List.{List, [], ◌∷◌, ◌++◌, map}
pub use native.Mathlib.Omega.{arith}
