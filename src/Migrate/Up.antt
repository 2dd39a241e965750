-- ===== src/Migrate/Up.antt =====
-- What `Up` and `UpTo` run, and what they leave in the table of the records.
use landc_go.Migrate.{
  Db, Migration, MigrationRecord, MigrateError, init_failed, query_failed, migration_failed,
  sorted_migrations, applied_versions, pending_migrations, apply_up, run_up, with_pending, up, List,
  String, Result, earlier,
}
use landc_go.Migrate.Laws.{IsDb, IsTame}
use landc_go.Prelude.{
  All, Bool, List, Option, String, [], all, any, ap, arith, inl, inr, marked, marked-mark, none,
  not, refl, select, some, ℕ, ◌++◌, ◌==◌, ◌||◌, ◌∷◌, ◌≡◌, ◌⊎◌, Result, Result-cases, err, ok, subst,
  sym, ◌∙◌, All-In, In-All, In-select, In-sort_slice, select-same, unmarked-nil, Option-cases,
}

pub marked-applied_versions :
    (rs : List MigrationRecord) (v : String)
    → marked v (applied_versions rs) ≡ any (λ r. r.version == v) rs
unfolding applied_versions
marked-applied_versions [] v = unmarked-nil v
marked-applied_versions (r ∷ rs) v =
    ground (arith, marked-mark r.version v (applied_versions rs), marked-applied_versions rs v)

module _ {S : Type 0} (recorded : S → String → Bool) where
  abbrev pub names_one : List (Migration S) → String → Bool
  names_one ms v = any (λ m. m.version == v) ms

  -- The sorted migrations whose version has no record.
  abbrev pub unrecorded : List (Migration S) → S → List (Migration S)
  unrecorded ms s = select (λ m. not (recorded s m.version)) (sorted_migrations ms)

  module _ (db : Db S) (lawful : IsDb db recorded) (now : ℕ) where
    abbrev pub record_of : Migration S → MigrationRecord
    record_of m = record { version = m.version; name = m.name; applied_at = now }

    -- These migrations have changed the state in this order, each behind its change recorded.
    abbrev pub Ran : List (Migration S) → S → S → Type 0
    Ran [] s t = s ≡ t
    Ran (m ∷ ms) s t = (u v : S) × (m.up s ≡ ok u) × (db.create (record_of m) u ≡ ok v) × Ran ms v t

    -- What a run of `pend` from `s` leaves: the first ones have run and have records, all of them
    -- without an error.
    abbrev pub Applies : List (Migration S) → S → S × Option MigrateError → Type 0
    Applies pend s end =
        (done rest : List (Migration S)) × (pend ≡ done ++ rest)
        × Ran done s end.0
        × ((v : String) → recorded end.0 v ≡ (names_one done v || recorded s v))
        × (end.1 ≡ none → rest ≡ [])

    abbrev up_body : Migration S → S → Result String S
    up_body m t = elim (m.up t) [ err e ↦ err e | ok t' ↦ db.create (record_of m) t' ]

    -- A migration is applied with its record, or leaves the state as it was.
    apply_up-cases :
        (m : Migration S) (s : S)
        → IsTame recorded m
        → ((t : S) × (apply_up db now m s ≡ (t, none))
            × Ran (m ∷ []) s t
            × ((v : String) → recorded t v ≡ ((m.version == v) || recorded s v)))
          ⊎ ((e : String) × (apply_up db now m s ≡ (s, some e)))
    unfolding apply_up
    apply_up-cases m s tame = elim (Result-cases (m.up s)) [
      | inl (e, q) ↦ inr (e, lawful.rolls_back (up_body m) s e (rw (up_body, q) refl))
      | inr (t', q) ↦ elim (Result-cases (db.create (record_of m) t')) [
        | inl (e, p) ↦ inr (e, lawful.rolls_back (up_body m) s e (rw (up_body, q) p))
        | inr (t, p) ↦ elim (lawful.commits (up_body m) s t (rw (up_body, q) p)) [
          | inr (e, o) ↦ inr (e, o)
          | inl o ↦ inl (
            t,
            o,
            (t', t, q, p, refl),
            λ v. lawful.creates (record_of m) t' t p v ∙ rw (tame.up_keeps s t' q v) refl,
          )
        ]
      ]
    ]

    abbrev after_one :
        Migration S → (S → S × Option MigrateError) → S × Option String → S × Option MigrateError
    after_one m next p = elim p.1 [
      | some e ↦ (p.0, some (migration_failed m.version m.name e))
      | none ↦ next p.0
    ]

    run_up-after_one :
        (m : Migration S) (ms : List (Migration S)) (s : S)
        → run_up db now (m ∷ ms) s ≡ after_one m (run_up db now ms) (apply_up db now m s)
    unfolding run_up
    run_up-after_one m ms s = refl

    stopped :
        (m : Migration S) (ms : List (Migration S)) (s : S) (e : MigrateError)
        → Applies (m ∷ ms) s (s, some e)
    stopped m ms s e = ([], m ∷ ms, refl, refl, λ v. refl, λ h. absurd (cc))

    went_on :
        (m : Migration S) (ms : List (Migration S)) (s t : S) (r : S × Option MigrateError)
        → Ran (m ∷ []) s t
        → ((v : String) → recorded t v ≡ ((m.version == v) || recorded s v))
        → Applies ms t r
        → Applies (m ∷ ms) s r
    went_on m ms s t r (u, v, changed, made, same) here (done, rest, split, ran, recs, all) = (
      m ∷ done,
      rest,
      ap (λ l. m ∷ l) split,
      (u, v, changed, made, subst (λ z. Ran done z r.0) (sym same) ran),
      λ k. ground (arith, recs k, here k),
      all,
    )

    run_up-Applies :
        (ms : List (Migration S)) (s : S)
        → All (IsTame recorded) ms
        → Applies ms s (run_up db now ms s)
    unfolding run_up
    run_up-Applies [] s tame = ([], [], refl, refl, λ v. refl, λ q. refl)
    run_up-Applies (m ∷ ms) s (t, tame) = elim (apply_up-cases m s t) [
      | inr (e, q) ↦
          subst (λ r. Applies (m ∷ ms) s r)
            (sym (run_up-after_one m ms s ∙ ap (after_one m (run_up db now ms)) q))
            (stopped m ms s (migration_failed m.version m.name e))
      | inl (s', q, ran, here) ↦
          subst (λ r. Applies (m ∷ ms) s r)
            (sym (run_up-after_one m ms s ∙ ap (after_one m (run_up db now ms)) q))
            (went_on m ms s s' (run_up db now ms s') ran here (run_up-Applies ms s' tame))
    ]

    pending-unrecorded :
        (ms : List (Migration S)) (rs : List MigrationRecord) (s : S)
        → ((v : String) → any (λ r. r.version == v) rs ≡ recorded s v)
        → pending_migrations ms (applied_versions rs) ≡ unrecorded ms s
    unfolding pending_migrations
    pending-unrecorded ms rs s same =
        select-same (λ m. not (marked m.version (applied_versions rs)))
          (λ m. not (recorded s m.version)) (sorted_migrations ms)
          (λ m. rw (marked-applied_versions rs m.version, same m.version) refl)

    unrecorded-Tame :
        (ms : List (Migration S)) (s : S)
        → All (IsTame recorded) ms
        → All (IsTame recorded) (unrecorded ms s)
    unfolding sorted_migrations
    unrecorded-Tame ms s tame = In-All (unrecorded ms s) λ m i.
        let (j, _) = In-select (λ x. not (recorded s x.version)) (sorted_migrations ms) m i in
        All-In (IsTame recorded) ms m tame ((In-sort_slice earlier m ms).0 j)

    -- The table is as before the call when the loop begins.
    unrecorded-auto_migrate :
        (ms : List (Migration S)) (s : S) → unrecorded ms (db.auto_migrate s).0 ≡ unrecorded ms s
    unrecorded-auto_migrate ms s =
        select-same (λ m. not (recorded (db.auto_migrate s).0 m.version))
          (λ m. not (recorded s m.version)) (sorted_migrations ms)
          (λ m. rw (lawful.migrates s m.version) refl)

    untouched : (ms : List (Migration S)) (s : S) (e : MigrateError) → Applies ms s (s, some e)
    untouched ms s e = ([], ms, refl, refl, λ v. refl, λ h. absurd (cc))

    with_pending-Applies :
        (ms : List (Migration S)) (loop : List (Migration S) → S → S × Option MigrateError) (s : S)
        → ((t : S) → Applies (unrecorded ms s) t (loop (unrecorded ms s) t))
        → Applies (unrecorded ms s) (db.auto_migrate s).0 (with_pending db now ms loop s)
    unfolding with_pending
    with_pending-Applies ms loop s h =
        let t = (db.auto_migrate s).0 in
        elim (Option-cases (db.auto_migrate s).1) [
          | inr (e, q) ↦ rw (with_pending, q) (untouched (unrecorded ms s) t (init_failed e))
          | inl q ↦ elim (Result-cases (db.find_all t)) [
            | inl (e, p) ↦ rw (with_pending, q, p) (untouched (unrecorded ms s) t (query_failed e))
            | inr (rs, p) ↦
                let same =
                  pending-unrecorded ms rs t (lawful.finds t rs p) ∙ unrecorded-auto_migrate ms s in
                rw (with_pending, q, p, same) (h t)
          ]
        ]

    -- On a database that keeps the laws, with migrations that leave the table of the records alone,
    -- and whatever errors come: behind the creation of that table, the changes that are left are
    -- those of the first of the registered migrations without a record, in the order of their
    -- versions, each with its record made behind it; no other record is made, a migration that
    -- fails leaves nothing, and without an error all of them have run.
    pub up-Applies :
        (ms : List (Migration S)) (s : S)
        → All (IsTame recorded) ms
        → Applies (unrecorded ms s) (db.auto_migrate s).0 (up db now ms s)
    unfolding up
    up-Applies ms s tame =
        with_pending-Applies ms (run_up db now) s
          (λ t. run_up-Applies (unrecorded ms s) t (unrecorded-Tame ms s tame))
