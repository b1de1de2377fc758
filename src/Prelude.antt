-- ===== src/Prelude.antt =====
-- Names shared by every other module: library names passed on, Boolean tests, static arrays as
-- functions of the index, the scan for the first free slot and the count of slots.
mod Tests
mod Store
mod Scan
mod Loop
pub mod Int
pub mod Action
pub mod Bytes
unfoldable pub use Loop.{each}
pub use Loop.{each_inv}
pub use Tests.*
pub use Store.*
unfoldable pub use Scan.{find_from, count_to}
pub use Scan.{
  find_from_hit, find_from_miss, find_from_ext, count_to-le, count_to_ext, count_to_change,
  count_to_pos, count_to_none, count_to_all, count_to_lt,
}
pub use Prim.Native.Nat.{ℕ, zero, suc, ◌+◌, ◌-◌, ◌*◌, ◌/◌, ◌%◌, ◌^◌, ◌≤◌, ◌<◌, min, max}
pub use mathlib.Core.Path.{◌≡◌, refl, sym, ap, subst, fun_ext, ◌∙◌}
pub use mathlib.Core.Logic.{◌≢◌, ◌↔◌, ◌⊎◌, inl, inr}
pub use mathlib.Core.Bool.{Bool, true, false, not, ◌&&◌, ◌||◌}
pub use mathlib.Core.Option.{Option, none, some}
pub use mathlib.Core.List.{List, [], ◌∷◌, ◌++◌, append_assoc, append-nil}
pub use native.Mathlib.Omega.{arith}
unfoldable pub use native.Mathlib.Decide.{ℕ_discrete, dec_lt}
