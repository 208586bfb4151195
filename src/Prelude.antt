-- ===== src/Prelude.antt =====
-- The names that the other modules share: the libraries', passed on, and those of the children.
pub mod Tests
pub mod Lists
pub mod Maps
pub mod Text
pub mod Values
pub mod Int
pub mod Rings
pub mod Raises
pub use Tests.*
pub use Lists.*
pub use Text.*
pub use Int.*
pub use Rings.{last_n, length-drop, drop-nil, append_bounded-last_n}
unfoldable pub use Rings.{append_bounded}
pub use Raises.*
pub use Values.*
unfoldable pub use Text.{
  to_lower, lower, is_prefix, contains, contains_any, is_space, strip_left, strip_right, strip,
  same_codes,
}
unfoldable pub use Maps.{lookup, insert, erase}
pub use Maps.{
  Dict, mem_str, values, lookup-insert, lookup-erase, lookup-insert_self, lookup-insert_ne,
  lookup-nil, str_eq_refl, dict_laws,
}
pub use Prim.Native.Nat.{ℕ, zero, suc, ◌+◌, ◌-◌, ◌*◌, ◌/◌, ◌%◌, ◌≤◌, ◌<◌, min, max}
pub use Prim.Native.String.{String}
pub use mathlib.Core.Path.{◌≡◌, refl, sym, ap, subst, ◌∙◌}
pub use mathlib.Core.Logic.{◌≢◌, ◌↔◌, ◌⊎◌, inl, inr, ite, dite, if_pos, if_neg}
pub use mathlib.Core.Bool.{Bool, true, false, not, ◌&&◌, ◌||◌}
pub use mathlib.Core.Option.{Option, none, some, map as map_option}
pub use mathlib.Core.List.{List, [], ◌∷◌, ◌++◌, map, append-nil, append_assoc}
pub use native.Mathlib.Omega.{arith}
pub use native.Mathlib.Decide.{ℕ_discrete}
pub use text.Mathlib.Text.{◌==◌ as str_eq}
pub use text.Mathlib.TextEquality.{eq_iff}
