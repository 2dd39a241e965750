-- ===== src/Di/Retry.antt =====
-- A module whose initialisation has failed, used again.
use landc_go.Di.{
  Module, ModuleManager, init, enter_module, use_one, use_modules, init_failed, call, first_missing,
  record_module, ℕ, true, eqb,
}
use landc_go.Prelude.{
  String, [], false, lookup, none, some, ℕ, ◌∷◌, ◌≡◌, arith, eqb, if◌then◌else◌, refl, true, eq_iff,
  lookup-insert,
}

module _ {W : Type 0} (heap : ℕ → Module W) (p : ℕ) where
  -- The manager behind a call of the module's function that fails.
  abbrev pub refused : ModuleManager W → W → ModuleManager W
  refused mm w = record mm {
    world = w;
    states = λ q.
        if eqb q p then record { init_once = true; inited = (mm.states p).inited } else mm.states q;
  }

  refuses :
      (mm : ModuleManager W) (w : W) (e : String)
      → first_missing (heap p).deps mm.modules ≡ none
      → (mm.states p).init_once ≡ false
      → call (heap p).init_fn mm.world ≡ (w, some e)
      → use_modules heap (p ∷ []) mm ≡ (refused mm w, some (init_failed (heap p).name e))
  unfolding use_modules use_one init enter_module
  refuses mm w e met fresh fails =
      let first : init heap p mm ≡ (refused mm w, some e) = rw (init, fails, fresh) refl in
      let one : use_one heap p mm ≡ (refused mm w, some (init_failed (heap p).name e)) =
        rw (use_one, met, first) refl in
      rw (use_modules, one) refl

  accepts :
      (mm : ModuleManager W)
      → first_missing (heap p).deps mm.modules ≡ none
      → (mm.states p).init_once ≡ true
      → use_modules heap (p ∷ []) mm ≡ (record_module heap p mm, none)
  unfolding use_modules use_one init enter_module
  accepts mm met done =
      let first : init heap p mm ≡ (mm, none) = rw (init, done) refl in
      let one : use_one heap p mm ≡ (record_module heap p mm, none) =
        rw (use_one, met, first) refl in
      rw (use_modules, one) refl

-- A module that has not been initialised, whose dependencies are registered and whose function fails,
-- is refused at first, and the
-- same call made again registers it without an error, though it is still not initialised.
pub use_modules-again :
    {W : Type 0} (heap : ℕ → Module W) (p : ℕ) (mm : ModuleManager W) (w : W) (e : String)
    → first_missing (heap p).deps mm.modules ≡ none
    → (mm.states p).init_once ≡ false
    → (mm.states p).inited ≡ false
    → call (heap p).init_fn mm.world ≡ (w, some e)
    → let one = use_modules heap (p ∷ []) mm in
      let two = use_modules heap (p ∷ []) one.0 in
      (one.1 ≡ some (init_failed (heap p).name e))
      × (two.1 ≡ none)
      × (lookup (heap p).name two.0.modules ≡ some p)
      × ((two.0.states p).inited ≡ false)
unfolding use_modules use_one init enter_module record_module
use_modules-again heap p mm w e met fresh not_yet fails =
    let mm' = refused heap p mm w in
    let one = refuses heap p mm w e met fresh fails in
    let self : eqb p p ≡ true = ground arith in
    let two = accepts heap p mm' met (rw (self, if◌then◌else◌) refl) in
    rw (one, two)
      (
        refl,
        refl,
        ground (
          arith,
          lookup-insert (heap p).name (heap p).name p mm.modules,
          eq_iff (heap p).name (heap p).name,
        ),
        rw (self, if◌then◌else◌) not_yet,
      )
