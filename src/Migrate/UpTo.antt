-- ===== src/Migrate/UpTo.antt =====
-- `UpTo` with a version that is applied already.
use landc_go.Migrate.{
  Db, Migration, MigrationRecord, sorted_migrations, applied_versions, pending_migrations, apply_up,
  run_up, run_up_to, with_pending, up, up_to, String,
}
use landc_go.Migrate.Laws.{IsDb}
use landc_go.Migrate.Up.{marked-applied_versions}
use landc_go.Prelude.{
  Bool, In, In-select, List, Option-cases, Result-cases, String, [], arith, eq_iff, false, inl, inr,
  marked, not, ok, refl, true, ℕ, ◌==◌, ◌∷◌, ◌≡◌,
}

module _ {S : Type 0} (recorded : S → String → Bool) (db : Db S) (lawful : IsDb db recorded)
    (now : ℕ) where
  run_up_to-run_up :
      (version : String) (ms : List (Migration S)) (s : S)
      → ((m : Migration S) → In m ms → (m.version == version) ≡ false)
      → run_up_to db now version ms s ≡ run_up db now ms s
  unfolding run_up_to run_up
  run_up_to-run_up version [] s h = refl
  run_up_to-run_up version (m ∷ ms) s h = elim (Option-cases (apply_up db now m s).1) [
    | inr (e, q) ↦ rw (run_up_to, run_up, q) refl
    | inl q ↦
        rw (run_up_to, run_up, q, h m (inl refl))
          (run_up_to-run_up version ms (apply_up db now m s).0 (λ n i. h n (inr i)))
  ]

  not_pending :
      (ms : List (Migration S)) (version : String) (s : S) (rs : List MigrationRecord)
      → db.find_all (db.auto_migrate s).0 ≡ ok rs
      → recorded s version ≡ true
      → (m : Migration S) → In m (pending_migrations ms (applied_versions rs))
      → (m.version == version) ≡ false
  unfolding pending_migrations
  not_pending ms version s rs p known m i =
      let (_, fresh) =
        In-select (λ x. not (marked x.version (applied_versions rs))) (sorted_migrations ms) m i in
      ground (
        arith,
        fresh,
        known,
        eq_iff m.version version,
        marked-applied_versions rs version,
        lawful.finds (db.auto_migrate s).0 rs p version,
        lawful.migrates s version,
      )

  -- `UpTo` with a version that has a record already, which it might be thought to stop at, applies
  -- every pending migration, as `Up` does.
  pub up_to-recorded :
      (ms : List (Migration S)) (version : String) (s : S)
      → recorded s version ≡ true
      → up_to db now ms version s ≡ up db now ms s
  unfolding up_to up with_pending
  up_to-recorded ms version s known = elim (Option-cases (db.auto_migrate s).1) [
    | inr (e, q) ↦ rw (with_pending, q) refl
    | inl q ↦ elim (Result-cases (db.find_all (db.auto_migrate s).0)) [
      | inl (e, p) ↦ rw (with_pending, q, p) refl
      | inr (rs, p) ↦
          rw (with_pending, q, p)
            (run_up_to-run_up version (pending_migrations ms (applied_versions rs))
              (db.auto_migrate s).0 (not_pending ms version s rs p known))
    ]
  ]
