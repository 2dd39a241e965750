-- ===== src/Di/Starting.antt =====
-- What a call of `Use` starts.
use mathlib.Core.Option.{none-ne-some}
use mathlib.Core.List.{◌++◌, append_assoc, append-nil}
use landc_go.Di.{
  Module, ModuleManager, ModuleState, init, use_one, use_modules, call, first_missing,
  record_module, and_then, enter_module, is_none, List, ℕ, Map, UseError,
}
use landc_go.Prelude.{
  All, Distinct, In, List, Option, Option-cases, String, [], eqb, false, if◌then◌else◌, inl, inr,
  lookup, map, none, refl, some, sym, true, ℕ, ◌||◌, ◌∷◌, ◌≡◌, Map, lookup-insert, subst, ◌==◌, ◌∙◌,
  Bool-cases, In-append_left, In-append_right, ap, eq_iff, eqb→eq, ◌≢◌,
}

module _ {W : Type 0} where
  -- The functions one after the other, up to the first failure.
  abbrev pub run_all : List (Option (W → W × Option String)) → W → W × Option String
  run_all [] w = (w, none)
  run_all (f ∷ fs) w =
      let (w', failure) = call f w in elim failure [ none ↦ run_all fs w' | some e ↦ (w', some e) ]

module _ {W : Type 0} (heap : ℕ → Module W) where
  abbrev pub names : List ℕ → List String
  names ps = map (λ p. (heap p).name) ps

  -- Every module stands behind the ones that it depends on.
  abbrev pub DepsFirst : List String → List ℕ → Type 0
  DepsFirst seen [] = Unit
  DepsFirst seen (p ∷ ps) =
      All (λ d. In d seen) (heap p).deps × DepsFirst (seen ++ ((heap p).name ∷ [])) ps

  -- The modules are new to the manager.
  pub record Fresh (mm : ModuleManager W) (ps : List ℕ) : Type 0 where
    pub distinct : Distinct (names ps)
    pub unstarted : All (λ p. (mm.states p).init_once ≡ false) ps
    pub unused : All (λ p. lookup (heap p).name mm.modules ≡ none) ps
    pub known : (k : String) → ¬ (lookup k mm.modules ≡ none) → In k mm.order

  -- All the modules have been initialised, in their order.
  pub record AllStarted (mm : ModuleManager W) (ps : List ℕ) (mm' : ModuleManager W) : Type 0 where
    pub order : mm'.order ≡ mm.order ++ names ps
    pub deps : DepsFirst mm.order ps
    pub world : run_all (map (λ p. (heap p).init_fn) ps) mm.world ≡ (mm'.world, none)
    pub held : All (λ p. lookup (heap p).name mm'.modules ≡ some p) ps
    pub kept : (k : String) → ¬ In k (names ps) → lookup k mm'.modules ≡ lookup k mm.modules

  -- The manager behind the first call of a module's function.
  abbrev begun : ℕ → ModuleManager W → ModuleManager W
  begun p mm =
      let next : ModuleState = record {
        init_once = true;
        inited = is_none (call (heap p).init_fn mm.world).1 || (mm.states p).inited;
      } in
      record mm {
        world = (call (heap p).init_fn mm.world).0;
        states = λ q. if eqb q p then next else mm.states q;
      }

  use_one-started :
      (p : ℕ) (mm : ModuleManager W)
      → (mm.states p).init_once ≡ false
      → (use_one heap p mm).1 ≡ none
      → (first_missing (heap p).deps mm.modules ≡ none)
        × ((call (heap p).init_fn mm.world).1 ≡ none)
        × (use_one heap p mm ≡ (record_module heap p (begun p mm), none))
  unfolding use_one init enter_module
  use_one-started p mm fresh h =
      let first : init heap p mm ≡ (begun p mm, (call (heap p).init_fn mm.world).1) =
        rw (init, fresh) refl in
      elim (Option-cases (first_missing (heap p).deps mm.modules)) [
        | inr (d, q) ↦ absurd (none-ne-some _ (sym (rw (use_one, q) at h)))
        | inl q ↦ elim (Option-cases (call (heap p).init_fn mm.world).1) [
          | inr (e, r) ↦ absurd (none-ne-some _ (sym (rw (use_one, q, first, r) at h)))
          | inl r ↦ (q, r, rw (use_one, q, first) (ap (λ f. enter_module heap p (begun p mm, f)) r))
        ]
      ]

  missing_none :
      (ds seen : List String) (modules : Map ℕ)
      → first_missing ds modules ≡ none
      → ((k : String) → ¬ (lookup k modules ≡ none) → In k seen)
      → All (λ d. In d seen) ds
  unfolding first_missing
  missing_none [] seen modules h known = tt
  missing_none (d ∷ ds) seen modules h known = elim (Option-cases (lookup d modules)) [
    | inl q ↦ absurd (none-ne-some d (sym (rw (first_missing, q) at h)))
    | inr (p, q) ↦ (
      known d (λ r. none-ne-some p (sym r ∙ q)),
      missing_none ds seen modules (rw (first_missing, q) at h) known,
    )
  ]

  abbrev entered : ℕ → ModuleManager W → ModuleManager W
  entered p mm = record_module heap p (begun p mm)

  entered-order :
      (p : ℕ) (mm : ModuleManager W)
      → lookup (heap p).name mm.modules ≡ none
      → (entered p mm).order ≡ mm.order ++ ((heap p).name ∷ [])
  unfolding record_module
  entered-order p mm h = rw (record_module, h) refl

  entered-lookup :
      (p : ℕ) (mm : ModuleManager W) (k : String)
      → lookup k (entered p mm).modules
        ≡ (if (heap p).name == k then some p else lookup k mm.modules)
  unfolding record_module
  entered-lookup p mm k = lookup-insert (heap p).name k p mm.modules

  entered-states :
      (p : ℕ) (mm : ModuleManager W) (q : ℕ)
      → q ≢ p
      → ((entered p mm).states q).init_once ≡ (mm.states q).init_once
  unfolding record_module
  entered-states p mm q differs = elim (Bool-cases (eqb q p)) [
    | inl e ↦ absurd (differs (eqb→eq q p e))
    | inr e ↦ rw (e, if◌then◌else◌) refl
  ]

  entered-Fresh :
      (p : ℕ) (ps : List ℕ) (mm : ModuleManager W) → Fresh mm (p ∷ ps) → Fresh (entered p mm) ps
  entered-Fresh p ps mm fresh =
      let (new, distinct) = fresh.distinct in
      let (_, unstarted) = fresh.unstarted in
      let (absent, unused) = fresh.unused in
      record {
        distinct = distinct;
        unstarted = unstarted_after ps unstarted new;
        unused = unused_after ps unused new;
        known = λ k found.
            subst (λ (l : List String). In k l) (sym (entered-order p mm absent))
              (elim (Bool-cases ((heap p).name == k)) [
                | inl e ↦ In-append_right k mm.order _ (inl ((eq_iff (heap p).name k).0 e))
                | inr e ↦
                    In-append_left k mm.order _
                      (fresh.known k (λ r. found (entered-lookup p mm k ∙ rw (e, if◌then◌else◌) r)))
              ]);
      }
    where
      unstarted_after :
          (qs : List ℕ)
          → All (λ q. (mm.states q).init_once ≡ false) qs
          → ¬ In (heap p).name (names qs)
          → All (λ q. ((entered p mm).states q).init_once ≡ false) qs
      unstarted_after [] h new = tt
      unstarted_after (q ∷ qs) (h, hs) new = (
        entered-states p mm q (λ e. new (inl (ap (λ r. (heap r).name) e))) ∙ h,
        unstarted_after qs hs (λ i. new (inr i)),
      )

      unused_after :
          (qs : List ℕ)
          → All (λ q. lookup (heap q).name mm.modules ≡ none) qs
          → ¬ In (heap p).name (names qs)
          → All (λ q. lookup (heap q).name (entered p mm).modules ≡ none) qs
      unused_after [] h new = tt
      unused_after (q ∷ qs) (h, hs) new = (
        entered-lookup p mm (heap q).name ∙ elim (Bool-cases ((heap p).name == (heap q).name)) [
          | inl e ↦ absurd (new (inl (sym ((eq_iff (heap p).name (heap q).name).0 e))))
          | inr e ↦ rw (e, if◌then◌else◌) h
        ],
        unused_after qs hs (λ i. new (inr i)),
      )

  use_one-none :
      (p : ℕ) (ps : List ℕ) (mm : ModuleManager W)
      → (use_modules heap (p ∷ ps) mm).1 ≡ none
      → (use_one heap p mm).1 ≡ none
  unfolding use_modules
  use_one-none p ps mm h = elim (Option-cases (use_one heap p mm).1) [
    | inl q ↦ q
    | inr (e, q) ↦ absurd (stops (use_one heap p mm) e q h)
  ]
    where
      stops :
          (r : ModuleManager W × Option UseError) (e : UseError)
          → r.1 ≡ some e
          → ¬ ((and_then r (λ mm'. use_modules heap ps mm')).1 ≡ none)
      stops (mm', none) e q h = none-ne-some e q
      stops (mm', some x) e q h = none-ne-some x (sym h)

  AllStarted-cons :
      (p : ℕ) (ps : List ℕ) (mm mm' : ModuleManager W)
      → Fresh mm (p ∷ ps)
      → first_missing (heap p).deps mm.modules ≡ none
      → (call (heap p).init_fn mm.world).1 ≡ none
      → AllStarted (entered p mm) ps mm'
      → AllStarted mm (p ∷ ps) mm'
  unfolding record_module
  AllStarted-cons p ps mm mm' fresh met runs rest =
      let place = entered-order p mm fresh.unused.0 in
      record {
        order =
            rest.order ∙ ap (λ (l : List String). l ++ names ps) place ∙ append_assoc mm.order _ _;
        deps = (
          missing_none (heap p).deps mm.order mm.modules met fresh.known,
          subst (λ (l : List String). DepsFirst l ps) place rest.deps,
        );
        world = rw (run_all, runs) rest.world;
        held = (
          rest.kept (heap p).name fresh.distinct.0
              ∙ entered-lookup p mm (heap p).name
              ∙ rw ((eq_iff (heap p).name (heap p).name).1 refl, if◌then◌else◌) refl,
          rest.held,
        );
        kept = λ k new.
            rest.kept k (λ i. new (inr i))
            ∙ entered-lookup p mm k
            ∙ (elim (Bool-cases ((heap p).name == k)) [
              | inl e ↦ absurd (new (inl ((eq_iff (heap p).name k).0 e)))
              | inr e ↦ rw (e, if◌then◌else◌) refl
            ]);
      }

  pub use_modules-AllStarted :
      (ps : List ℕ) (mm : ModuleManager W)
      → Fresh mm ps
      → (use_modules heap ps mm).1 ≡ none
      → AllStarted mm ps (use_modules heap ps mm).0
  unfolding use_modules
  use_modules-AllStarted [] mm fresh h = record {
    order = sym (append-nil mm.order);
    deps = tt;
    world = refl;
    held = tt;
    kept = λ k new. refl;
  }
  use_modules-AllStarted (p ∷ ps) mm fresh h =
      let (met, runs, one) = use_one-started p mm fresh.unstarted.0 (use_one-none p ps mm h) in
      let same : use_modules heap (p ∷ ps) mm ≡ use_modules heap ps (entered p mm) =
        rw (use_modules, one) refl in
      subst (AllStarted mm (p ∷ ps)) (ap (λ r. r.0) (sym same)) (
        AllStarted-cons p ps mm _ fresh met runs (
          use_modules-AllStarted ps (entered p mm) (entered-Fresh p ps mm fresh)
            (ap (λ r. r.1) (sym same) ∙ h)))
