-- ===== src/Registry/Resolving.antt =====
-- The resolver and its cache.
use landc_go.Registry.{
  ServiceInstance, Resolver, ask, start_watch, resolve_all, ResolveError, String,
}
use landc_go.Prelude.{
  Bool-cases, List, Option-cases, String, inl, inr, lookup, marked, ok, refl, some, ◌∷◌, ◌≡◌,
  Result, [], ap, err, ◌∙◌, arith, eq_iff, insert, lookup-insert,
}

ok_of : {A : Type 0} → A → Result ResolveError A → A
ok_of a (ok b) = b
ok_of a (err e) = a

ok-injective : {A : Type 0} (a b : A) → Path (Result ResolveError A) (ok a) (ok b) → a ≡ b
unfolding ok_of
ok-injective a b h = ap (ok_of a) h

module _ {R B : Type 0} where
  start_watch-cache : (name : String) (r : Resolver R B) → (start_watch name r).cache ≡ r.cache
  unfolding start_watch
  start_watch-cache name r = elim (Bool-cases (marked name r.watchers)) [
    | inl q ↦ rw (start_watch, q) refl
    | inr q ↦ elim (Option-cases (r.registry.watch name r.remote).1) [
      | inl f ↦ rw (start_watch, q, f) refl
      | inr (e, f) ↦ rw (start_watch, q, f) refl
    ]
  ]

  cached :
      (name : String) (r : Resolver R B) (x : ServiceInstance) (xs : List ServiceInstance)
      → lookup name r.cache ≡ some (x ∷ xs)
      → resolve_all name r ≡ (r, ok (x ∷ xs))
  unfolding resolve_all
  cached name r x xs h = rw (resolve_all, h) refl

  asked-cached :
      (name : String) (r : Resolver R B) (x : ServiceInstance) (xs : List ServiceInstance)
      → (ask name r).1 ≡ ok (x ∷ xs)
      → lookup name (ask name r).0.cache ≡ some (x ∷ xs)
  unfolding ask
  asked-cached name r x xs h = go (r.registry.get_service name r.remote) refl
    where
      go :
          (found : Result String (List ServiceInstance))
          → r.registry.get_service name r.remote ≡ found
          → lookup name (ask name r).0.cache ≡ some (x ∷ xs)
      go (err e) q = absurd (ground (arith, rw (ask, q) at h))
      go (ok found) q =
          let same : found ≡ x ∷ xs = ok-injective _ _ (rw (ask, q) at h) in
          rw (ask, q)
            (ap (lookup name)
                (start_watch-cache name (record r { cache = insert name found r.cache }))
              ∙ ground (arith, lookup-insert name name found r.cache, eq_iff name name, same))

  -- The instances that a call has found are in the cache: the next call gives the same ones and
  -- leaves the resolver and the registry as they are.
  pub resolve_all-again :
      (name : String) (r : Resolver R B) (x : ServiceInstance) (xs : List ServiceInstance)
      → (resolve_all name r).1 ≡ ok (x ∷ xs)
      → resolve_all name (resolve_all name r).0 ≡ ((resolve_all name r).0, ok (x ∷ xs))
  unfolding resolve_all
  resolve_all-again name r x xs h = elim (Option-cases (lookup name r.cache)) [
    | inl q ↦ through (rw (resolve_all, q) refl)
    | inr ([], q) ↦ through (rw (resolve_all, q) refl)
    | inr (y ∷ ys, q) ↦
        let same = cached name r y ys q in rw same (same ∙ ap (λ z. (r, z)) (rw same at h))
  ]
    where
      through :
          resolve_all name r ≡ ask name r
          → resolve_all name (resolve_all name r).0 ≡ ((resolve_all name r).0, ok (x ∷ xs))
      through same =
          rw same (cached name (ask name r).0 x xs (asked-cached name r x xs (rw same at h)))
