-- ===== src/Prelude.antt =====
-- The names that every module shares: the libraries', passed on, and those of the children below.
mod Tests
mod Lists
mod Maps
mod Text
mod Names
pub use Tests.*
pub use Lists.*
pub use Maps.{
  Dict, lookup-insert, lookup-delete, lookup-nil, dict_laws, keys, Unique, Unique-insert,
  Unique-delete,
}
unfoldable pub use Maps.{lookup, insert, delete}
pub use Text.{codes}
unfoldable pub use Text.{trim_space, is_space}
pub use Text.{trim_space_idem, differ, length-trim_space}
unfoldable pub use Names.{mem, without}
pub use Names.{
  mem-append, mem-single, IsDistinct, IsDistinct-snoc, IsDistinct-append, Within,
  length-le_of_Within, Within-of_length,
}
pub use Prim.Native.Nat.{ℕ, zero, suc, ◌+◌, ◌-◌, ◌*◌, ◌/◌, ◌%◌, ◌^◌, ◌≤◌, ◌<◌}
pub use Prim.Native.String.{String}
pub use mathlib.Core.Path.{◌≡◌, refl, sym, ap, ◌∙◌}
pub use mathlib.Core.Logic.{◌≢◌, ◌↔◌, ◌⊎◌, inl, inr}
pub use mathlib.Core.Bool.{Bool, true, false, not, ◌&&◌, ◌||◌}
pub use mathlib.Core.Option.{Option, none, some}
pub use mathlib.Core.List.{List, [], ◌∷◌, ◌++◌, map}
pub use native.Mathlib.Omega.{arith}
pub use text.Mathlib.Text.{◌==◌}
pub use text.Mathlib.TextEquality.{eq_iff}
pub use text.Mathlib.TextPositions.{eq_refl}
