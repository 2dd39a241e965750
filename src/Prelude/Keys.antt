-- ===== src/Prelude/Keys.antt =====
-- The keys of an association list, and lists whose entries are pairwise different.
use Prim.Native.String.{String}
use Prim.Native.Nat.{◌<◌, ◌≤◌}
use text.Mathlib.Text.{◌==◌}
use text.Mathlib.TextEquality.{eq_iff}
use mathlib.Core.Path.{◌≡◌, refl, sym, subst}
use mathlib.Core.Logic.{inl, inr, ◌≢◌}
use mathlib.Core.Option.{none, some, none-ne-some, some-injective}
use mathlib.Core.List.{List, [], ◌∷◌}
use native.Mathlib.Omega.{arith}
use landc_go.Prelude.Tests.{if◌then◌else◌, Bool-cases}
use landc_go.Prelude.Lists.{In, length}
use landc_go.Prelude.Maps.{Map, lookup, delete, values}

module _ {ℓ} {V : Type ℓ} where
  abbrev pub keys : Map V → List String
  keys [] = []
  keys ((name, value) ∷ rest) = name ∷ keys rest

-- No entry of the list occurs again behind itself.
abbrev pub Distinct : List String → Type 0
Distinct [] = Unit
Distinct (x ∷ xs) = (¬ In x xs) × Distinct xs

-- The list without this entry.
abbrev pub without : String → List String → List String
without k [] = []
without k (x ∷ xs) = if x == k then without k xs else x ∷ without k xs

module _ {ℓ} {V : Type ℓ} where
  pub keys-delete : (k : String) (m : Map V) → keys (delete k m) ≡ without k (keys m)
  unfolding delete
  keys-delete k [] = refl
  keys-delete k ((name, value) ∷ rest) = ground (arith, keys-delete k rest)

  pub length-keys : (m : Map V) → length (keys m) ≡ length m
  length-keys [] = refl
  length-keys (e ∷ rest) = ground (arith, length-keys rest)

  -- A key that the list does not hold is not found.
  pub lookup-eq-none : (k : String) (m : Map V) → ¬ In k (keys m) → lookup k m ≡ none
  unfolding lookup
  lookup-eq-none k [] h = refl
  lookup-eq-none k ((name, value) ∷ rest) h = elim (Bool-cases (name == k)) [
    | inl q ↦ absurd (h (inl ((eq_iff name k).0 q)))
    | inr q ↦ rw (lookup, q, if◌then◌else◌) (lookup-eq-none k rest (λ i. h (inr i)))
  ]

  pub not_In_of_lookup : (k : String) (m : Map V) → lookup k m ≡ none → ¬ In k (keys m)
  unfolding lookup
  not_In_of_lookup k [] h i = i
  not_In_of_lookup k ((name, value) ∷ rest) h (inl q) = absurd (ground (arith, eq_iff name k))
  not_In_of_lookup k ((name, value) ∷ rest) h (inr i) = not_In_of_lookup k rest (ground arith) i

pub In-without : (k x : String) (xs : List String) → In x (without k xs) → In x xs
In-without k x [] i = i
In-without k x (y ∷ ys) i = elim (Bool-cases (y == k)) [
  | inl q ↦ inr (In-without k x ys (rw (q, if◌then◌else◌) at i))
  | inr q ↦ elim (rw (q, if◌then◌else◌) at i) [
    | inl same ↦ inl same
    | inr j ↦ inr (In-without k x ys j)
  ]
]

pub not_In-without : (k : String) (xs : List String) → ¬ In k (without k xs)
not_In-without k [] i = i
not_In-without k (y ∷ ys) i = elim (Bool-cases (y == k)) [
  | inl q ↦ not_In-without k ys (rw (q, if◌then◌else◌) at i)
  | inr q ↦ elim (rw (q, if◌then◌else◌) at i) [
    | inl same ↦ absurd (ground (arith, eq_iff y k))
    | inr j ↦ not_In-without k ys j
  ]
]

pub without-Distinct : (k : String) (xs : List String) → Distinct xs → Distinct (without k xs)
without-Distinct k [] h = tt
without-Distinct k (y ∷ ys) h = elim (Bool-cases (y == k)) [
  | inl q ↦ rw (q, if◌then◌else◌) (without-Distinct k ys h.1)
  | inr q ↦ rw (q, if◌then◌else◌) (λ i. h.0 (In-without k y ys i), without-Distinct k ys h.1)
]

pub length-without-le : (k : String) (xs : List String) → length (without k xs) ≤ length xs
length-without-le k [] = omega arith
length-without-le k (y ∷ ys) = ground (arith, length-without-le k ys)

-- A list of different entries loses exactly one.
pub length-without : (k : String) (xs : List String) → In k xs → length (without k xs) < length xs
length-without k (y ∷ ys) (inl same) = ground (arith, eq_iff y k, length-without-le k ys)
length-without k (y ∷ ys) (inr i) = ground (arith, length-without k ys i, length-without-le k ys)
length-without k [] i = absurd i

pub without_absent : (k : String) (xs : List String) → ¬ In k xs → without k xs ≡ xs
without_absent k [] h = refl
without_absent k (y ∷ ys) h = elim (Bool-cases (y == k)) [
  | inl q ↦ absurd (h (inl ((eq_iff y k).0 q)))
  | inr q ↦ rw (q, if◌then◌else◌, without_absent k ys (λ i. h (inr i))) refl
]

pub without-In : (k x : String) (xs : List String) → In x xs → k ≢ x → In x (without k xs)
without-In k x (y ∷ ys) (inl same) d = ground (arith, eq_iff y k)
without-In k x (y ∷ ys) (inr i) d = elim (Bool-cases (y == k)) [
  | inl q ↦ rw (q, if◌then◌else◌) (without-In k x ys i d)
  | inr q ↦ rw (q, if◌then◌else◌) (inr (without-In k x ys i d))
]
without-In k x [] i d = absurd i

-- Entries that are pairwise different and all stand in another list are no more than its entries.
pub length-Distinct :
    (xs ys : List String) → Distinct xs → ((x : String) → In x xs → In x ys) → length xs ≤ length ys
length-Distinct [] ys d h = omega arith
length-Distinct (x ∷ xs) ys d h = omega (
  arith,
  length-without x ys (h x (inl refl)),
  length-Distinct xs (without x ys) d.1
      (λ y i. without-In x y ys (h y (inr i)) (λ q. d.0 (subst (λ z. In z xs) (sym q) i))),
)

-- What a map holds under a key is among its values.
pub lookup-In_values :
    {V : Type 0} (k : String) (m : Map V) (v : V) → lookup k m ≡ some v → In v (values m)
unfolding lookup
lookup-In_values k [] v h = absurd (none-ne-some v h)
lookup-In_values k ((name, u) ∷ m) v h = elim (Bool-cases (name == k)) [
  | inl q ↦ inl (some-injective u v (rw (lookup, q, if◌then◌else◌) at h))
  | inr q ↦ inr (lookup-In_values k m v (rw (lookup, q, if◌then◌else◌) at h))
]
