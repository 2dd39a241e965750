-- ===== src/Migrate/Laws.antt =====
-- What the migrator relies on: gorm's transactions, and the table of the records.
use landc_go.Migrate.{Db, Migration, MigrationRecord, String}
use landc_go.Prelude.{
  Bool, List, Result, String, any, err, none, not, ok, some, ◌&&◌, ◌==◌, ◌||◌, ◌≡◌, ◌⊎◌,
}

-- `recorded s v`: the table holds a record of the version `v`.
pub record IsDb {S : Type 0} (db : Db S) (recorded : S → String → Bool) : Type 0 where
  pub migrates : (s : S) (v : String) → recorded (db.auto_migrate s).0 v ≡ recorded s v
  pub finds :
      (s : S) (rs : List MigrationRecord)
      → db.find_all s ≡ ok rs
      → (v : String) → any (λ r. r.version == v) rs ≡ recorded s v
  pub finds_descending :
      (s : S) (rs : List MigrationRecord)
      → db.find_descending s ≡ ok rs
      → (v : String) → any (λ r. r.version == v) rs ≡ recorded s v
  pub creates :
      (r : MigrationRecord) (s t : S)
      → db.create r s ≡ ok t
      → (v : String) → recorded t v ≡ ((r.version == v) || recorded s v)
  pub deletes :
      (gone : String) (s t : S)
      → db.delete_version gone s ≡ ok t
      → (v : String) → recorded t v ≡ (not (gone == v) && recorded s v)
  -- A body that fails leaves nothing behind.
  pub rolls_back :
      (body : S → Result String S) (s : S) (e : String)
      → body s ≡ err e
      → db.transaction body s ≡ (s, some e)
  -- A body that succeeds is kept, or the commit fails and leaves nothing behind.
  pub commits :
      (body : S → Result String S) (s t : S)
      → body s ≡ ok t
      → (db.transaction body s ≡ (t, none)) ⊎ ((e : String) × (db.transaction body s ≡ (s, some e)))

-- The changes of a migration leave the table of the records alone.
pub record IsTame {S : Type 0} (recorded : S → String → Bool) (m : Migration S) : Type 0 where
  pub up_keeps : (s t : S) → m.up s ≡ ok t → (v : String) → recorded t v ≡ recorded s v
  pub down_keeps :
      (f : S → Result String S) (s t : S)
      → m.down ≡ some f
      → f s ≡ ok t
      → (v : String) → recorded t v ≡ recorded s v
