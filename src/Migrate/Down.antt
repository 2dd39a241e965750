-- ===== src/Migrate/Down.antt =====
-- What `Down` rolls back, and what it leaves in the table of the records.
use landc_go.Migrate.{
  Db, Migration, MigrationRecord, MigrateError, rollback_failed, not_registered, no_down,
  versions_of, find_migration, apply_down, down_one, run_down, down, later_record, steps_of, String,
  ℤ,
}
use landc_go.Migrate.Laws.{IsDb, IsTame}
use landc_go.Prelude.{
  All, All-In, Bool, Bool-cases, In, List, Option, Option-cases, Result, Result-cases, String, [],
  any, arith, eq_iff, err, if◌then◌else◌, inl, inr, length, none, not, ok, refl, some, subst, suc,
  zero, ℕ, ◌&&◌, ◌++◌, ◌==◌, ◌∙◌, ◌∷◌, ◌≡◌, ◌≤◌, ◌⊎◌, all, ap, sort_slice, sym, ℤ,
}

module _ {S : Type 0} where
  find_migration-found :
      (version : String) (ms : List (Migration S)) (m : Migration S)
      → find_migration version ms ≡ some m
      → In m ms × (m.version ≡ version)
  unfolding find_migration
  find_migration-found version (n ∷ ms) m h = elim (Bool-cases (n.version == version)) [
    | inl q ↦
        let same : n ≡ m = cc (rw (find_migration, q, if◌then◌else◌) at h) in
        (
          inl same,
          subst (λ (x : Migration S). x.version ≡ version) same ((eq_iff n.version version).0 q),
        )
    | inr q ↦
        let (i, p) =
          find_migration-found version ms m (rw (find_migration, q, if◌then◌else◌) at h) in
        (inr i, p)
  ]
  find_migration-found version [] m h = absurd (cc)

  module _ (recorded : S → String → Bool) (db : Db S) (lawful : IsDb db recorded) (now : ℕ)
      (ms : List (Migration S)) (tame : All (IsTame recorded) ms) where
    -- The record of this version is gone, and no other.
    abbrev Drops : String → S → S → Type 0
    Drops version s t = (v : String) → recorded t v ≡ (not (version == v) && recorded s v)

    -- The registered migrations of these versions have been rolled back in this order, and behind each
    -- its record was deleted.
    abbrev pub RolledBack : List String → S → S → Type 0
    RolledBack [] s t = s ≡ t
    RolledBack (version ∷ rest) s t =
        (m : Migration S) × (f : S → Result String S) × (u v : S) × (find_migration version ms
          ≡ some m)
        × (m.down ≡ some f)
        × (f s ≡ ok u)
        × (db.delete_version version u ≡ ok v)
        × RolledBack rest v t

    abbrev down_body : String → (S → Result String S) → S → Result String S
    down_body version f t = elim (f t) [ err e ↦ err e | ok t' ↦ db.delete_version version t' ]

    apply_down-cases :
        (m : Migration S) (f : S → Result String S) (s : S)
        → IsTame recorded m
        → m.down ≡ some f
        → ((t : S) × (apply_down db now m.version f s ≡ (t, none))
            × ((u : S) × (f s ≡ ok u) × (db.delete_version m.version u ≡ ok t))
            × Drops m.version s t)
          ⊎ ((e : String) × (apply_down db now m.version f s ≡ (s, some e)))
    unfolding apply_down
    apply_down-cases m f s t h = elim (Result-cases (f s)) [
      | inl (e, q) ↦ inr (e, lawful.rolls_back (down_body m.version f) s e (rw (down_body, q) refl))
      | inr (s', q) ↦ elim (Result-cases (db.delete_version m.version s')) [
        | inl (e, p) ↦ inr (e, lawful.rolls_back (down_body m.version f) s e (rw (down_body, q) p))
        | inr (t', p) ↦ elim (lawful.commits (down_body m.version f) s t' (rw (down_body, q) p)) [
          | inr (e, o) ↦ inr (e, o)
          | inl o ↦ inl (
            t',
            o,
            (s', q, p),
            λ v. lawful.deletes m.version s' t' p v ∙ rw (t.down_keeps f s s' h q v) refl,
          )
        ]
      ]
    ]

    abbrev after_down : Migration S → S × Option String → S × Option MigrateError
    after_down m p = elim p.1 [
      | some e ↦ (p.0, some (rollback_failed m.version m.name e))
      | none ↦ (p.0, none)
    ]

    down_one-cases :
        (version : String) (s : S)
        → ((t : S) × (down_one db now ms version s ≡ (t, none))
            × RolledBack (version ∷ []) s t
            × Drops version s t)
          ⊎ ((e : MigrateError) × (down_one db now ms version s ≡ (s, some e)))
    unfolding down_one
    down_one-cases version s = elim (Option-cases (find_migration version ms)) [
      | inl q ↦ inr (not_registered version, rw (down_one, q) refl)
      | inr (m, q) ↦ elim (Option-cases m.down) [
        | inl p ↦ inr (no_down m.version m.name, rw (down_one, q, p) refl)
        | inr (f, p) ↦
            let (i, named) = find_migration-found version ms m q in
            elim (apply_down-cases m f s (All-In (IsTame recorded) ms m tame i) p) [
              | inr (e, o) ↦
                  inr
                    (rollback_failed m.version m.name e, rw (down_one, q, p) (ap (after_down m) o))
              | inl (t, o, (u, back, gone), drops) ↦ inl (
                t,
                rw (down_one, q, p) (ap (after_down m) o),
                (
                  m,
                  f,
                  u,
                  t,
                  q,
                  p,
                  back,
                  subst (λ x. db.delete_version x u ≡ ok t) named gone,
                  refl,
                ),
                subst (λ x. Drops x s t) named drops,
              )
            ]
      ]
    ]

    -- What a run over the records `rs`, with `left` steps, leaves: the first of them are gone.
    abbrev pub Removes : List MigrationRecord → ℕ → S → S × Option MigrateError → Type 0
    Removes rs left s end =
        (gone kept : List String) × (versions_of rs ≡ gone ++ kept)
        × (length gone ≤ left)
        × RolledBack gone s end.0
        × ((v : String) → recorded end.0 v ≡ (not (any (λ x. x == v) gone) && recorded s v))
        × (end.1 ≡ none → (length gone ≡ left) ⊎ (kept ≡ []))

    abbrev after_step : ℕ → List MigrationRecord → S × Option MigrateError → S × Option MigrateError
    after_step left rs p = elim p.1 [
      | some e ↦ (p.0, some e)
      | none ↦ run_down db now ms left rs p.0
    ]

    went_on :
        (left : ℕ) (r : MigrationRecord) (rs : List MigrationRecord) (s t : S)
        (end : S × Option MigrateError)
        → RolledBack (r.version ∷ []) s t
        → Drops r.version s t
        → Removes rs left t end
        → Removes (r ∷ rs) (suc left) s end
    went_on left r rs s t end (m, f, u, v, found, down_fn, back, deleted, same) drops
          (gone, kept, split, few, ran, recs, all) =
        (
          r.version ∷ gone,
          kept,
          ap (λ l. r.version ∷ l) split,
          omega (arith, few),
          (
            m,
            f,
            u,
            v,
            found,
            down_fn,
            back,
            deleted,
            subst (λ z. RolledBack gone z end.0) (sym same) ran,
          ),
          λ k. ground (arith, recs k, drops k),
          λ h. elim (all h) [
            | inl long ↦ inl (omega (arith, long))
            | inr none_kept ↦ inr none_kept
          ],
        )

    run_down-Removes :
        (left : ℕ) (rs : List MigrationRecord) (s : S)
        → Removes rs left s (run_down db now ms left rs s)
    unfolding run_down
    run_down-Removes zero rs s =
        ([], versions_of rs, refl, omega arith, refl, λ v. refl, λ h. inl refl)
    run_down-Removes (suc left) [] s = ([], [], refl, omega arith, refl, λ v. refl, λ h. inr refl)
    run_down-Removes (suc left) (r ∷ rs) s = elim (down_one-cases r.version s) [
      | inr (e, q) ↦
          subst (λ end. Removes (r ∷ rs) (suc left) s end) (sym (ap (after_step left rs) q))
            ([], versions_of (r ∷ rs), refl, omega arith, refl, λ v. refl, λ h. absurd (cc))
      | inl (t, q, back, drops) ↦
          subst (λ end. Removes (r ∷ rs) (suc left) s end) (sym (ap (after_step left rs) q))
            (went_on left r rs s t (run_down db now ms left rs t) back drops
              (run_down-Removes left rs t))
    ]

    -- On a database that keeps the laws, with migrations that leave the table of the records alone,
    -- where that table can be made and read: behind its creation, the changes that `Down` leaves are
    -- those of the `Down` functions of the first records' migrations, the latest version first, each
    -- with the record deleted behind it, at most `steps` of them, one where `steps` is not
    -- positive; no other record is lost, and without an error it is that many, or all.
    pub down-Removes :
        (steps : ℤ) (s : S) (rs : List MigrationRecord)
        → (db.auto_migrate s).1 ≡ none
        → db.find_descending (db.auto_migrate s).0 ≡ ok rs
        → Removes
            (sort_slice later_record rs)
            (steps_of steps)
            (db.auto_migrate s).0
            (down db now ms steps s)
    unfolding down
    down-Removes steps s rs q p =
        rw (down, q, p)
          (run_down-Removes (steps_of steps) (sort_slice later_record rs) (db.auto_migrate s).0)
