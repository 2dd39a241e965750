-- ===== src/Di/Closing.antt =====
-- `Close` against the modules that a call of `Use` has started.
use mathlib.Core.List.{reverse, ◌++◌, reverse-cons}
use landc_go.Di.{Module, ModuleManager, use_modules, call, close, close_names, close_one, ℕ}
use landc_go.Di.Starting.{names, run_all, Fresh, DepsFirst, use_modules-AllStarted}
use landc_go.Prelude.{
  All, Distinct, List, Option, Option-cases, String, [], ap, false, inl, inr, lookup, map, none,
  refl, some, subst, sym, ℕ, ◌∙◌, ◌∷◌, ◌≡◌,
}

module _ {W : Type 0} (heap : ℕ → Module W) where
  abbrev pub closers : List ℕ → List (Option (W → W × Option String))
  closers ps = map (λ p. (heap p).close_fn) ps

  -- The loop calls the functions of the modules that it finds.
  close_names-run_all :
      (ps : List ℕ) (mm : ModuleManager W)
      → All (λ p. lookup (heap p).name mm.modules ≡ some p) ps
      → (close_names heap (names heap ps) mm).0.world ≡ (run_all (closers ps) mm.world).0
  unfolding close_names close_one
  close_names-run_all [] mm held = refl
  close_names-run_all (p ∷ ps) mm (q, held) =
      elim (Option-cases (call (heap p).close_fn mm.world).1) [
        | inl r ↦
            let next : ModuleManager W = record mm {
              world = (call (heap p).close_fn mm.world).0;
            } in
            rw (close_names, q, run_all, r) (close_names-run_all ps next held)
        | inr (e, r) ↦ rw (close_names, q, run_all, r) refl
      ]

  names-append : (ps qs : List ℕ) → names heap (ps ++ qs) ≡ names heap ps ++ names heap qs
  names-append [] qs = refl
  names-append (p ∷ ps) qs = rw (names-append ps qs) refl

  names-reverse : (ps : List ℕ) → reverse (names heap ps) ≡ names heap (reverse ps)
  names-reverse [] = refl
  names-reverse (p ∷ ps) =
      reverse-cons (heap p).name (names heap ps)
      ∙ ap (λ (l : List String). l ++ ((heap p).name ∷ [])) (names-reverse ps)
      ∙ sym (names-append (reverse ps) (p ∷ []))
      ∙ sym (ap (names heap) (reverse-cons p ps))

  All-snoc : (P : ℕ → Type 0) (ps : List ℕ) (q : ℕ) → All P ps → P q → All P (ps ++ (q ∷ []))
  All-snoc P [] q h t = (t, tt)
  All-snoc P (p ∷ ps) q (h, hs) t = (h, All-snoc P ps q hs t)

  All-reverse : (P : ℕ → Type 0) (ps : List ℕ) → All P ps → All P (reverse ps)
  All-reverse P [] h = tt
  All-reverse P (p ∷ ps) (h, hs) =
      subst (All P) (sym (reverse-cons p ps)) (All-snoc P (reverse ps) p (All-reverse P ps hs) h)

  -- Modules of different names, none of them initialised before, are handed to a manager without
  -- modules, and the call succeeds. Then each module stands behind those that it depends on, the
  -- functions have run in the order of the modules, and `Close` runs the closing functions in the
  -- opposite order, up to the first that fails.
  pub close-use_modules :
      (ps : List ℕ) (mm : ModuleManager W)
      → mm.modules ≡ []
      → mm.order ≡ []
      → Distinct (names heap ps)
      → All (λ p. (mm.states p).init_once ≡ false) ps
      → (use_modules heap ps mm).1 ≡ none
      → DepsFirst heap [] ps
        × (run_all (map (λ p. (heap p).init_fn) ps) mm.world
            ≡ ((use_modules heap ps mm).0.world, none))
        × ((close heap (use_modules heap ps mm).0).0.world
            ≡ (run_all (closers (reverse ps)) (use_modules heap ps mm).0.world).0)
  unfolding close
  close-use_modules ps mm empty no_order distinct unstarted h =
      let fresh : Fresh heap mm ps = record {
        distinct = distinct;
        unstarted = unstarted;
        unused = absent ps;
        known = λ k found. absurd (found (rw (lookup, empty) refl));
      } in
      let started = use_modules-AllStarted heap ps mm fresh h in
      let order = started.order ∙ ap (λ (l : List String). l ++ names heap ps) no_order in
      (
        subst (λ (l : List String). DepsFirst heap l ps) no_order started.deps,
        started.world,
        ap (λ (l : List String). (close_names heap l (use_modules heap ps mm).0).0.world)
              (ap reverse order ∙ names-reverse ps)
            ∙ close_names-run_all (reverse ps) (use_modules heap ps mm).0 (
                All-reverse (λ p. lookup (heap p).name (use_modules heap ps mm).0.modules ≡ some p)
                  ps started.held),
      )
    where
      absent : (qs : List ℕ) → All (λ q. lookup (heap q).name mm.modules ≡ none) qs
      absent [] = tt
      absent (q ∷ qs) = (ap (lookup (heap q).name) empty, absent qs)
