-- ===== src/Prelude.antt =====
-- The names that the modules share: the library's, passed on, and those of the child modules.
mod Tests
mod Lists
mod Maps
mod Int
mod Sort
mod Keys
pub use Tests.*
pub use Lists.*
unfoldable pub use Maps.*
pub use Int.*
unfoldable pub use Sort.*
unfoldable pub use Keys.*
pub use Prim.Native.Nat.{ℕ, zero, suc, ◌+◌, ◌-◌, ◌*◌, ◌/◌, ◌≤◌, ◌<◌}
pub use Prim.Native.String.{String}
pub use text.Mathlib.Text.{◌==◌}
pub use text.Mathlib.TextEquality.{eq_iff}
pub use text.Mathlib.TextPositions.{eq_refl}
pub use mathlib.Core.Path.{◌≡◌, refl, sym, ap, subst, ◌∙◌}
pub use mathlib.Core.Logic.{◌≢◌, ◌↔◌, ◌⊎◌, inl, inr}
pub use mathlib.Core.Bool.{Bool, true, false, not, ◌&&◌, ◌||◌}
pub use mathlib.Core.Option.{Option, none, some}
pub use mathlib.Core.List.{List, [], ◌∷◌, ◌++◌, map}
pub use native.Mathlib.Omega.{arith}

-- A Go result `(value, error)`: exactly one of the two is meaningful.
pub data Result {ℓ κ} (E : Type ℓ) (A : Type κ) : Type (ℓ ⊔ κ) where
  ok : A → Result E A
  err : E → Result E A

pub Result-cases {ℓ} :
    {A B : Type ℓ} (r : Result A B) → ((x : A) × (r ≡ err x)) ⊎ ((y : B) × (r ≡ ok y))
Result-cases (err x) = inl (x, refl)
Result-cases (ok y) = inr (y, refl)

pub apart : (a b : String) → (a == b) ≡ false → a ≢ b
apart a b h q = absurd (ground (arith, eq_iff a b))
