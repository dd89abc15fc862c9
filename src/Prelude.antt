-- ===== src/Prelude.antt =====
-- The names that the other modules share: the libraries' and those of three children.
mod Tests
mod Lists
mod Int
pub use Tests.*
pub use Lists.*
pub use Int.{ℤ, pos, negsuc, pos_part, neg_part, sub_ℕ, ltb_ℤ, eqb_ℤ, +ℤ_one, -ℤ_one}
unfoldable pub use Int.{◌+ℤ◌, ◌-ℤ◌, to_int}
pub use Int.{to_int-pos, to_int-negsuc, eqb_ℤ_refl, eqb_ℤ-eq, eqb_ℤ-eq-false, +ℤ-injective}
pub use Prim.Native.Nat.{ℕ, zero, suc, ◌+◌, ◌-◌, ◌*◌, ◌/◌, ◌%◌, ◌^◌, ◌≤◌, ◌<◌}
pub use mathlib.Core.Path.{◌≡◌, refl, sym, ap, ◌∙◌}
pub use mathlib.Core.Logic.{◌≢◌, ◌↔◌, ◌⊎◌, inl, inr}
pub use mathlib.Core.Bool.{Bool, true, false, not, ◌&&◌, ◌||◌}
pub use mathlib.Core.Option.{Option, none, some}
pub use mathlib.Core.List.{List, [], ◌∷◌, ◌++◌, map}
pub use native.Mathlib.Omega.{arith}
