-- ===== src/Prelude.antt =====
-- The names that the modules of the development share: the libraries' and those of two children.
mod Tests
mod Lists
mod Bytes
mod Membership
pub use Tests.*
pub use Lists.*
pub use Membership.*
pub use Bytes.{
  IsByte, le_bytes, le_value, range_of, length-le_bytes, le_bytes-IsByte, le_value-le_bytes,
  le_bytes-le_value, le_value-lt, codes, same_text→eq, same_text_self, same_text→ne,
}
unfoldable pub use Bytes.{same_text}
pub use Prim.Native.Nat.{ℕ, zero, suc, ◌+◌, ◌-◌, ◌*◌, ◌/◌, ◌%◌, ◌^◌, ◌≤◌, ◌<◌, min}
pub use mathlib.Core.Path.{◌≡◌, refl, sym, ap, ap₂, subst, ◌∙◌, ◌≡⟨◌⟩◌, ◌∎}
pub use mathlib.Core.Logic.{◌≢◌, ◌↔◌, ◌⊎◌, inl, inr}
pub use mathlib.Core.Bool.{Bool, true, false, not, ◌&&◌, ◌||◌}
pub use mathlib.Core.Option.{Option, none, some}
pub use mathlib.Core.List.{List, [], ◌∷◌, ◌++◌, map, append-nil, append_assoc}
pub use native.Mathlib.Omega.{arith}
