-- ===== src/Prelude.antt =====
-- The names that the other modules share: the libraries', passed on, and those of the children.
pub mod Substrings
pub mod Replace
pub mod Split
pub mod Sets
mod Tests
mod Lists
mod Keys
pub mod Map
pub mod Utf8
pub mod Result
pub mod Strings
pub use Tests.*
pub use Lists.*
unfoldable pub use Keys.{text_beq, text_less, ascii_lower}
pub use Keys.{Key, ◌==◌, ==_refl, ==_iff, nat_key, pair_key, Text, text_beq_iff, text_key, codes}
pub use Keys.{to_ascii_lowercase, eq_ignore_ascii_case, ascii_lower_idem}
pub use Prim.Native.Nat.{ℕ, zero, suc, ◌+◌, ◌-◌, ◌*◌, ◌/◌, ◌%◌, ◌^◌, ◌≤◌, ◌<◌}
pub use mathlib.Core.Path.{◌≡◌, refl, sym, ap, ◌∙◌, subst, fun_ext}
pub use mathlib.Core.Logic.{◌≢◌, ◌↔◌, ◌⊎◌, inl, inr}
pub use mathlib.Core.Bool.{Bool, true, false, not, ◌&&◌, ◌||◌}
pub use mathlib.Core.Option.{Option, none, some}
pub use mathlib.Core.List.{List, [], ◌∷◌, ◌++◌, map, append-nil, append_assoc}
pub use native.Mathlib.Omega.{arith}
