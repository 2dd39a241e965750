-- ===== src/Prelude/Maps.antt =====
-- Go's `map[string]V` as an association list. A missing key reads as `none`; `get_or` gives Go's
-- zero value. The order of the entries stands for the iteration order, which Go leaves open.
use Prim.Native.String.{String, compare}
use Prim.Native.Nat.{Ordering}
use text.Mathlib.Text.{◌==◌}
use text.Mathlib.TextEquality.{eq_iff}
use mathlib.Core.Path.{◌≡◌, refl}
use mathlib.Core.Logic.{◌≢◌}
use mathlib.Core.Bool.{Bool, true, false, ◌||◌}
use mathlib.Core.Option.{Option, none, some}
use mathlib.Core.List.{List, [], ◌∷◌}
use native.Mathlib.Omega.{arith}
use landc_go.Prelude.Tests.{if◌then◌else◌}

abbrev pub Map {ℓ} : Type ℓ → Type ℓ
Map V = List (String × V)

module _ {ℓ} {V : Type ℓ} where
  abbrev pub values : Map V → List V
  values [] = []
  values ((name, value) ∷ rest) = value ∷ values rest

  unfoldable pub lookup : String → Map V → Option V
  lookup key [] = none
  lookup key ((name, value) ∷ rest) = if name == key then some value else lookup key rest

  unfoldable pub get_or : String → Map V → V → V
  unfolding lookup
  get_or key m default = elim (lookup key m) [ none ↦ default | some value ↦ value ]

  unfoldable pub delete : String → Map V → Map V
  delete key [] = []
  delete key ((name, value) ∷ rest) =
      if name == key then delete key rest else (name, value) ∷ delete key rest

  unfoldable pub insert : String → V → Map V → Map V
  insert key new [] = (key, new) ∷ []
  insert key new ((name, old) ∷ rest) =
      if name == key then (key, new) ∷ rest else (name, old) ∷ insert key new rest

  pub lookup-insert :
      (key asked : String) (new : V) (m : Map V)
      → lookup asked (insert key new m) ≡ (if key == asked then some new else lookup asked m)
  unfolding insert lookup
  lookup-insert key asked new [] = refl
  lookup-insert key asked new ((name, old) ∷ rest) = ground (
    arith,
    lookup-insert key asked new rest,
    eq_iff name key,
    eq_iff name asked,
    eq_iff key asked,
  )

  pub lookup-delete :
      (k j : String) (m : Map V) → lookup j (delete k m) ≡ (if k == j then none else lookup j m)
  unfolding lookup delete
  lookup-delete k j [] = ground arith
  lookup-delete k j ((i, w) ∷ m) =
      ground (arith, eq_iff k j, eq_iff i k, eq_iff i j, lookup-delete k j m)

  pub get_or-insert :
      (k j : String) (v d : V) (m : Map V)
      → get_or j (insert k v m) d ≡ (if k == j then v else get_or j m d)
  unfolding get_or
  get_or-insert k j v d m = ground (arith, lookup-insert k j v m)

-- A `map[string]bool` as a set of keys.
abbrev pub Flags : Type 0
Flags = Map Bool

unfoldable pub marked : String → Flags → Bool
unfolding get_or
marked k m = get_or k m false

unfoldable pub mark : String → Flags → Flags
unfolding insert
mark k m = insert k true m

pub unmarked-nil : (k : String) → marked k [] ≡ false
unfolding marked get_or lookup
unmarked-nil k = refl

pub marked-mark : (k j : String) (m : Flags) → marked j (mark k m) ≡ ((k == j) || marked j m)
unfolding marked mark
marked-mark k j m = ground (arith, get_or-insert k j true false m)

pub mark-unmarked :
    (k j : String) (m : Flags) → marked j (mark k m) ≡ false → (k ≢ j) × (marked j m ≡ false)
mark-unmarked k j m h = ground (arith, marked-mark k j m, eq_iff k j)

pub unmarked-mark :
    (k j : String) (m : Flags) → k ≢ j → marked j m ≡ false → marked j (mark k m) ≡ false
unmarked-mark k j m d h = ground (arith, marked-mark k j m, eq_iff k j)

pub mark-marked : (k j : String) (m : Flags) → marked j m ≡ true → marked j (mark k m) ≡ true
mark-marked k j m h = ground (arith, marked-mark k j m)

pub mark_self : (k : String) (m : Flags) → marked k (mark k m) ≡ true
mark_self k m = ground (arith, marked-mark k k m, eq_iff k k)

-- The order of Go's `<` on strings.
abbrev pub text_less : String → String → Bool
text_less a b = elim (compare a b) [ Ordering.lt ↦ true | _ ↦ false ]
