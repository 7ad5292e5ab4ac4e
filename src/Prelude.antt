-- ===== src/Prelude.antt =====
-- The names that the other modules share: the libraries', passed on, and those of the children.
mod Tests
mod Equality
mod Lists
mod Members
mod Text
mod Tables
mod Integers
pub use Tests.{
  ltb, leb, if◌then◌else◌, ltb→lt, leb→le, Bool-cases, Option-cases, and_true, if_keeps,
}
pub use Equality.{Eq, ◌==◌, nat_eq, text_eq, Endpoint, endpoint_eq, endpoint_beq_iff}
pub use Lists.*
pub use Members.*
pub use Tables.*
pub use Integers.*
unfoldable pub use Text.{
  is_space, is_control, trim_left, trim_right, trim_space, to_lower, has_suffix,
}
pub use Text.{CaseMap, cat, cons-beq-empty, ascii_case, trim_space_idem}
pub use Prim.Native.Nat.{ℕ, zero, suc, ◌+◌, ◌-◌, ◌*◌, ◌/◌, ◌%◌, ◌^◌, ◌≤◌, ◌<◌}
pub use Prim.Native.String.{String, len}
pub use Prim.Native.Char.{Char, code}
pub use mathlib.Core.Path.{◌≡◌, refl, sym, ap, ◌∙◌, subst}
pub use mathlib.Core.Logic.{◌≢◌, ◌↔◌, ◌⊎◌, inl, inr}
pub use mathlib.Core.Bool.{Bool, true, false, not, ◌&&◌, ◌||◌, false≢true, true≢false}
pub use mathlib.Core.Option.{Option, none, some}
pub use mathlib.Core.List.{List, [], ◌∷◌, ◌++◌, map, Mem, Nodup}
pub use native.Mathlib.Omega.{arith}
pub use text.Mathlib.TextEquality.{eq_iff}
