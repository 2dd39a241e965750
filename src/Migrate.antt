-- ===== src/Migrate.antt =====
-- frame/pkg/db/migration.go: the migrator. The database, behind gorm, is a parameter: a state `S` and
-- the calls that the migrator makes. An error is its text.
pub mod Laws
pub mod Up
pub mod UpTo
pub mod Down
use landc_go.Prelude.{
  Bool, Flags, List, Option, Result, String, [], err, false, if◌then◌else◌, length, ltb_ℤ, map,
  mark, marked, none, not, ok, pos, select, some, sort_slice, suc, text_less, to_ℕ, true, zero, ℕ,
  ℤ, ◌==◌, ◌∷◌,
}

pub record MigrationRecord : Type 0 where
  pub version : String
  pub name : String
  pub applied_at : ℕ

-- `find_all` and `find_descending` read the table of records, `transaction` runs a body.
pub record Db (S : Type 0) : Type 0 where
  pub auto_migrate : S → S × Option String
  pub find_all : S → Result String (List MigrationRecord)
  pub find_descending : S → Result String (List MigrationRecord)
  pub create : MigrationRecord → S → Result String S
  pub delete_version : String → S → Result String S
  pub transaction : (S → Result String S) → S → S × Option String

pub record Migration (S : Type 0) : Type 0 where
  pub version : String
  pub name : String
  pub up : S → Result String S
  pub down : Option (S → Result String S)

pub data MigrateError : Type 0 where
  init_failed query_failed : (cause : String) → MigrateError
  migration_failed rollback_failed : (version name cause : String) → MigrateError
  not_registered : (version : String) → MigrateError
  no_down : (version name : String) → MigrateError

abbrev pub versions_of : List MigrationRecord → List String
versions_of rs = map (λ r. r.version) rs

abbrev pub later_record : MigrationRecord → MigrationRecord → Bool
later_record r q = text_less q.version r.version

-- `steps <= 0` means one step.
abbrev pub steps_of : ℤ → ℕ
steps_of steps = if ltb_ℤ (pos 0) steps then to_ℕ steps else 1

-- The map that `getAppliedVersions` makes of the records.
unfoldable pub applied_versions : List MigrationRecord → Flags
unfolding mark
applied_versions [] = []
applied_versions (r ∷ rs) = mark r.version (applied_versions rs)

module _ {S : Type 0} where
  abbrev pub earlier : Migration S → Migration S → Bool
  earlier m n = text_less m.version n.version

  unfoldable pub sorted_migrations : List (Migration S) → List (Migration S)
  unfolding sort_slice
  sorted_migrations ms = sort_slice earlier ms

  unfoldable pub pending_migrations : List (Migration S) → Flags → List (Migration S)
  unfolding sorted_migrations marked
  pending_migrations ms applied =
      select (λ m. not (marked m.version applied)) (sorted_migrations ms)

  unfoldable pub find_migration : String → List (Migration S) → Option (Migration S)
  find_migration version [] = none
  find_migration version (m ∷ ms) =
      if m.version == version then some m else find_migration version ms

module _ {S : Type 0} (db : Db S) (now : ℕ) where
  unfoldable pub apply_up : Migration S → S → S × Option String
  apply_up m s =
      db.transaction
        (λ t. elim (m.up t) [
          | err e ↦ err e
          | ok t' ↦ db.create (record { version = m.version; name = m.name; applied_at = now }) t'
        ])
        s

  unfoldable pub apply_down : String → (S → Result String S) → S → S × Option String
  apply_down version down s =
      db.transaction (λ t. elim (down t) [ err e ↦ err e | ok t' ↦ db.delete_version version t' ]) s

  -- The loop of `Up`.
  unfoldable pub run_up : List (Migration S) → S → S × Option MigrateError
  unfolding apply_up
  run_up [] s = (s, none)
  run_up (m ∷ ms) s =
      let (s', failure) = apply_up m s in
      elim failure [
        | some e ↦ (s', some (migration_failed m.version m.name e))
        | none ↦ run_up ms s'
      ]

  -- The loop of `UpTo`.
  unfoldable pub run_up_to : String → List (Migration S) → S → S × Option MigrateError
  unfolding apply_up
  run_up_to version [] s = (s, none)
  run_up_to version (m ∷ ms) s =
      let (s', failure) = apply_up m s in
      elim failure [
        | some e ↦ (s', some (migration_failed m.version m.name e))
        | none ↦ elim (m.version == version) [ true ↦ (s', none) | false ↦ run_up_to version ms s' ]
      ]

  -- What `Up` and `UpTo` do in front of their loops, and then the loop on the pending migrations.
  unfoldable pub with_pending :
      List (Migration S)
      → (List (Migration S) → S → S × Option MigrateError)
      → S
      → S × Option MigrateError
  unfolding pending_migrations applied_versions
  with_pending ms loop s =
      let (s', failure) = db.auto_migrate s in
      elim failure [
        | some e ↦ (s', some (init_failed e))
        | none ↦ elim (db.find_all s') [
          | err e ↦ (s', some (query_failed e))
          | ok rs ↦ loop (pending_migrations ms (applied_versions rs)) s'
        ]
      ]

  unfoldable pub up : List (Migration S) → S → S × Option MigrateError
  unfolding with_pending run_up
  up ms s = with_pending ms run_up s

  unfoldable pub up_to : List (Migration S) → String → S → S × Option MigrateError
  unfolding with_pending run_up_to
  up_to ms version s = with_pending ms (run_up_to version) s

  -- One round of the loop of `Down`.
  unfoldable pub down_one : List (Migration S) → String → S → S × Option MigrateError
  unfolding find_migration apply_down
  down_one ms version s = elim (find_migration version ms) [
    | none ↦ (s, some (not_registered version))
    | some m ↦ elim m.down [
      | none ↦ (s, some (no_down m.version m.name))
      | some f ↦
          let (s', failure) = apply_down m.version f s in
          elim failure [
            | some e ↦ (s', some (rollback_failed m.version m.name e))
            | none ↦ (s', none)
          ]
    ]
  ]

  -- The loop of `Down`, with the number of steps that are left.
  unfoldable pub run_down :
      List (Migration S) → ℕ → List MigrationRecord → S → S × Option MigrateError
  unfolding down_one
  run_down ms zero rs s = (s, none)
  run_down ms (suc left) [] s = (s, none)
  run_down ms (suc left) (r ∷ rs) s =
      let (s', failure) = down_one ms r.version s in
      elim failure [ some e ↦ (s', some e) | none ↦ run_down ms left rs s' ]

  unfoldable pub down : List (Migration S) → (steps : ℤ) → S → S × Option MigrateError
  unfolding run_down sort_slice
  down ms steps s =
      let (s', failure) = db.auto_migrate s in
      elim failure [
        | some e ↦ (s', some (init_failed e))
        | none ↦ elim (db.find_descending s') [
          | err e ↦ (s', some (query_failed e))
          | ok rs ↦ run_down ms (steps_of steps) (sort_slice later_record rs) s'
        ]
      ]

  unfoldable pub reset : List (Migration S) → S → S × Option MigrateError
  unfolding down
  reset ms s =
      let (s', failure) = db.auto_migrate s in
      elim failure [
        | some e ↦ (s', some (init_failed e))
        | none ↦ elim (db.find_descending s') [
          | err e ↦ (s', some (query_failed e))
          | ok rs ↦ down ms (pos (length rs)) s'
        ]
      ]

  -- `Pending`: how many migrations are left to apply.
  unfoldable pub count_pending : List (Migration S) → S → S × Result MigrateError ℕ
  unfolding pending_migrations applied_versions
  count_pending ms s =
      let (s', failure) = db.auto_migrate s in
      elim failure [
        | some e ↦ (s', err (init_failed e))
        | none ↦ elim (db.find_all s') [
          | err e ↦ (s', err (query_failed e))
          | ok rs ↦ (s', ok (length (pending_migrations ms (applied_versions rs))))
        ]
      ]
