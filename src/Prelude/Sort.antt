-- ===== src/Prelude/Sort.antt =====
-- `sort.Slice` by a test `less`. Go does not say how elements that neither precede the other are
-- arranged; here they keep their order, and no theorem depends on it.
use mathlib.Core.Path.{◌≡◌}
use mathlib.Core.Logic.{◌⊎◌, inl, inr, ◌↔◌}
use mathlib.Core.Bool.{Bool, true, false}
use mathlib.Core.List.{List, [], ◌∷◌}
use landc_go.Prelude.Tests.{if◌then◌else◌, Bool-cases}
use landc_go.Prelude.Lists.{In}

module _ {A : Type 0} (less : A → A → Bool) where
  unfoldable pub insert_slice : A → List A → List A
  insert_slice n [] = n ∷ []
  insert_slice n (m ∷ ms) = if less m n then m ∷ insert_slice n ms else n ∷ m ∷ ms

  unfoldable pub sort_slice : List A → List A
  unfolding insert_slice
  sort_slice [] = []
  sort_slice (n ∷ ns) = insert_slice n (sort_slice ns)

  -- No element stands directly behind one that it precedes.
  abbrev pub IsSorted : List A → Type 0
  IsSorted [] = Unit
  IsSorted (n ∷ []) = Unit
  IsSorted (n ∷ m ∷ ns) = (less m n ≡ false) × IsSorted (m ∷ ns)

  module _ (a n : A) where
    pub insert-In : (ns : List A) → In a (insert_slice n ns) → (n ≡ a) ⊎ In a ns
    unfolding insert_slice
    insert-In [] i = i
    insert-In (m ∷ ms) i = elim (Bool-cases (less m n)) [
      | inl q ↦ deeper (insert-In ms) (rw (q, if◌then◌else◌) at i)
      | inr q ↦ rw (q, if◌then◌else◌) at i
    ]
      where
        deeper :
            (In a (insert_slice n ms) → (n ≡ a) ⊎ In a ms)
            → (m ≡ a) ⊎ In a (insert_slice n ms)
            → (n ≡ a) ⊎ In a (m ∷ ms)
        deeper ih (inl e) = inr (inl e)
        deeper ih (inr j) = elim (ih j) [ inl e ↦ inl e | inr k ↦ inr (inr k) ]

    In-insert : (ns : List A) → (n ≡ a) ⊎ In a ns → In a (insert_slice n ns)
    unfolding insert_slice
    In-insert [] i = i
    In-insert (m ∷ ms) i = elim (Bool-cases (less m n)) [
      | inl q ↦
          rw (q, if◌then◌else◌)
            (elim i [
              | inl e ↦ inr (In-insert ms (inl e))
              | inr (inl e) ↦ inl e
              | inr (inr j) ↦ inr (In-insert ms (inr j))
            ])
      | inr q ↦ rw (q, if◌then◌else◌) i
    ]

  -- The sort holds the same elements.
  pub In-sort_slice : (a : A) (ns : List A) → In a (sort_slice ns) ↔ In a ns
  unfolding sort_slice
  In-sort_slice a [] = (λ i. i, λ i. i)
  In-sort_slice a (n ∷ ns) =
      let ih = In-sort_slice a ns in
      (
        λ i. elim (insert-In a n (sort_slice ns) i) [ inl e ↦ inl e | inr j ↦ inr (ih.0 j) ],
        λ i. In-insert a n (sort_slice ns) (elim i [ inl e ↦ inl e | inr j ↦ inr (ih.1 j) ]),
      )

  module _ (asym : (x y : A) → less x y ≡ true → less y x ≡ false) where
    insert-IsSorted : (n : A) (ns : List A) → IsSorted ns → IsSorted (insert_slice n ns)
    unfolding insert_slice
    insert-IsSorted n [] s = tt
    insert-IsSorted n (m ∷ []) s = elim (Bool-cases (less m n)) [
      | inl q ↦ rw (q, if◌then◌else◌) (asym m n q, tt)
      | inr q ↦ rw (q, if◌then◌else◌) (q, tt)
    ]
    insert-IsSorted n (m ∷ k ∷ ns) s = elim (Bool-cases (less m n)) [
      | inl q ↦ rw (q, if◌then◌else◌) (insert-under q (insert-IsSorted n (k ∷ ns) s.1))
      | inr q ↦ rw (q, if◌then◌else◌) (q, s)
    ]
      where
        insert-under :
            less m n ≡ true
            → IsSorted (insert_slice n (k ∷ ns))
            → IsSorted (m ∷ insert_slice n (k ∷ ns))
        insert-under q t = elim (Bool-cases (less k n)) [
          | inl p ↦ rw (p, if◌then◌else◌) (s.0, rw (p, if◌then◌else◌) at t)
          | inr p ↦ rw (p, if◌then◌else◌) (asym m n q, rw (p, if◌then◌else◌) at t)
        ]

    pub sort_slice-IsSorted : (ns : List A) → IsSorted (sort_slice ns)
    unfolding sort_slice
    sort_slice-IsSorted [] = tt
    sort_slice-IsSorted (n ∷ ns) = insert-IsSorted n (sort_slice ns) (sort_slice-IsSorted ns)
