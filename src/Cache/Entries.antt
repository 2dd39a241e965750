-- ===== src/Cache/Entries.antt =====
-- The entries of the list behind an eviction, a removal or a cleaning.
use landc_go.Cache.Lru.{CacheItem, drop_back, drop_expired, is_expired}
use landc_go.Prelude.{
  Bool-cases, Distinct, In, Map, String, [], ap, arith, delete, eq_iff, if◌then◌else◌, inl, inr,
  keys, keys-delete, length, length-keys, length-without, length-without-le, lookup, refl, some, ℕ,
  ◌-◌, ◌<◌, ◌==◌, ◌∷◌, ◌≡◌, ◌≤◌,
}

pub In-drop_back : (x : String) (m : Map CacheItem) → In x (keys (drop_back m)) → In x (keys m)
unfolding drop_back
In-drop_back x [] i = i
In-drop_back x (e ∷ []) i = absurd i
In-drop_back x (e ∷ f ∷ m) (inl q) = inl q
In-drop_back x (e ∷ f ∷ m) (inr i) = inr (In-drop_back x (f ∷ m) i)

pub drop_back-Distinct : (m : Map CacheItem) → Distinct (keys m) → Distinct (keys (drop_back m))
unfolding drop_back
drop_back-Distinct [] h = tt
drop_back-Distinct (e ∷ []) h = tt
drop_back-Distinct (e ∷ f ∷ m) h =
    (λ i. h.0 (In-drop_back e.0 (f ∷ m) i), drop_back-Distinct (f ∷ m) h.1)

pub length-drop_back : (m : Map CacheItem) → length (drop_back m) ≡ length m - 1
unfolding drop_back
length-drop_back [] = refl
length-drop_back (e ∷ []) = refl
length-drop_back (e ∷ f ∷ m) = ground (arith, length-drop_back (f ∷ m))

pub In-drop_expired :
    (now : ℕ) (x : String) (m : Map CacheItem) → In x (keys (drop_expired now m)) → In x (keys m)
unfolding drop_expired
In-drop_expired now x [] i = i
In-drop_expired now x ((key, item) ∷ m) i = elim (Bool-cases (is_expired now item)) [
  | inl q ↦ inr (In-drop_expired now x m (rw (drop_expired, q, if◌then◌else◌) at i))
  | inr q ↦ elim (rw (drop_expired, q, if◌then◌else◌) at i) [
    | inl same ↦ inl same
    | inr j ↦ inr (In-drop_expired now x m j)
  ]
]

pub drop_expired-Distinct :
    (now : ℕ) (m : Map CacheItem) → Distinct (keys m) → Distinct (keys (drop_expired now m))
unfolding drop_expired
drop_expired-Distinct now [] h = tt
drop_expired-Distinct now ((key, item) ∷ m) h = elim (Bool-cases (is_expired now item)) [
  | inl q ↦ rw (drop_expired, q, if◌then◌else◌) (drop_expired-Distinct now m h.1)
  | inr q ↦
      rw (drop_expired, q, if◌then◌else◌)
        (λ i. h.0 (In-drop_expired now key m i), drop_expired-Distinct now m h.1)
]

pub length-drop_expired-le : (now : ℕ) (m : Map CacheItem) → length (drop_expired now m) ≤ length m
unfolding drop_expired
length-drop_expired-le now [] = omega arith
length-drop_expired-le now ((key, item) ∷ m) = ground (arith, length-drop_expired-le now m)

pub length-delete-le : (key : String) (m : Map CacheItem) → length (delete key m) ≤ length m
length-delete-le key m = omega (
  arith,
  length-keys (delete key m),
  length-keys m,
  length-without-le key (keys m),
  ap (length {A = String}) (keys-delete key m),
)

pub In-lookup :
    (key : String) (m : Map CacheItem) (item : CacheItem)
    → lookup key m ≡ some item
    → In key (keys m)
unfolding lookup
In-lookup key [] item h = absurd (cc h)
In-lookup key ((name, other) ∷ m) item h = elim (Bool-cases (name == key)) [
  | inl q ↦ inl ((eq_iff name key).0 q)
  | inr q ↦ inr (In-lookup key m item (rw (lookup, q, if◌then◌else◌) at h))
]

pub length-delete-lt :
    (key : String) (m : Map CacheItem) (item : CacheItem)
    → lookup key m ≡ some item
    → length (delete key m) < length m
length-delete-lt key m item h = omega (
  arith,
  length-keys (delete key m),
  length-keys m,
  length-without key (keys m) (In-lookup key m item h),
  ap (length {A = String}) (keys-delete key m),
)
