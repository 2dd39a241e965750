-- ===== src/Examples/Migrations.antt =====
-- Migrations, on a database in memory: examples.
use landc_go.Migrate.{Db, Migration, later_record, steps_of, MigrationRecord, up, up_to, down}
use landc_go.Migrate.Laws.{IsDb, IsTame}
use landc_go.Migrate.Up.{Applies, unrecorded, up-Applies}
use landc_go.Migrate.UpTo.{up_to-recorded}
use landc_go.Migrate.Down.{Removes, down-Removes}
use landc_go.Prelude.{
  All, Bool, List, Option, Result, String, [], any, arith, eq_iff, err, inl, none, not, ok, pos,
  refl, select, some, ◌&&◌, ◌==◌, ◌∷◌, ◌≡◌, ap, sort_slice, sym, ◌∙◌,
}

-- The records, and the tables that the migrations have made.
record Tables : Type 0 where
  records : List MigrationRecord
  tables : List String

abbrev drop_version : String → List MigrationRecord → List MigrationRecord
drop_version v rs = select (λ r. not (r.version == v)) rs

abbrev recorded : Tables → String → Bool
recorded s v = any (λ r. r.version == v) s.records

abbrev keep_or_not : Tables → Result String Tables → Tables × Option String
keep_or_not s (ok t) = (t, none)
keep_or_not s (err e) = (s, some e)

abbrev db : Db Tables
db = record {
  auto_migrate = λ s. (s, none);
  find_all = λ s. ok s.records;
  find_descending = λ s. ok s.records;
  create = λ r s. ok (record s { records = r ∷ s.records });
  delete_version = λ v s. ok (record s { records = drop_version v s.records });
  transaction = λ body s. keep_or_not s (body s);
}

recorded-drop_version :
    (gone v : String) (rs : List MigrationRecord)
    → any (λ r. r.version == v) (drop_version gone rs)
      ≡ (not (gone == v) && any (λ r. r.version == v) rs)
recorded-drop_version gone v [] = ground arith
recorded-drop_version gone v (r ∷ rs) = ground (
  arith,
  recorded-drop_version gone v rs,
  eq_iff r.version gone,
  eq_iff r.version v,
  eq_iff gone v,
)

db-IsDb : IsDb db recorded
db-IsDb = record {
  migrates = λ s v. refl;
  finds = λ s rs q v.
      let same : s.records ≡ rs = cc in
      sym (ap (λ (l : List MigrationRecord). any (λ r. r.version == v) l) same);
  finds_descending = λ s rs q v.
      let same : s.records ≡ rs = cc in
      sym (ap (λ (l : List MigrationRecord). any (λ r. r.version == v) l) same);
  creates = λ r s t q v.
      let same : record s { records = r ∷ s.records } ≡ t = cc in
      sym (ap (λ (x : Tables). recorded x v) same);
  deletes = λ gone s t q v.
      let same : record s { records = drop_version gone s.records } ≡ t = cc in
      sym (ap (λ (x : Tables). recorded x v) same) ∙ recorded-drop_version gone v s.records;
  rolls_back = λ body s e q. ap (keep_or_not s) q;
  commits = λ body s t q. inl (ap (keep_or_not s) q);
}

abbrev drop_table_of : String → Tables → Tables
drop_table_of name s = record s { tables = select (λ x. not (x == name)) s.tables }

abbrev drop_table : String → Tables → Result String Tables
drop_table name s = ok (drop_table_of name s)

abbrev adds : String → Migration Tables
adds name = record {
  version = name;
  name = name;
  up = λ s. ok (record s { tables = name ∷ s.tables });
  down = some (drop_table name);
}

adds-IsTame : (name : String) → IsTame recorded (adds name)
adds-IsTame name = record {
  up_keeps = λ s t q v.
      let same : record s { tables = name ∷ s.tables } ≡ t = cc in
      sym (ap (λ (x : Tables). recorded x v) same);
  down_keeps = λ f s t q p v.
      let same : drop_table name ≡ f = cc in
      let done : ok (drop_table_of name s) ≡ f s =
        ap (λ (h : Tables → Result String Tables). h s) same in
      let last : drop_table_of name s ≡ t = cc in sym (ap (λ (x : Tables). recorded x v) last);
}

abbrev two : List (Migration Tables)
two = adds "2" ∷ adds "1" ∷ []

abbrev one_applied : Tables
one_applied = record {
  records = record { version = "1"; name = "1"; applied_at = 5 } ∷ [];
  tables = "1" ∷ [];
}

two-IsTame : All (IsTame recorded) two
two-IsTame = (adds-IsTame "2", (adds-IsTame "1", tt))

up-Applies_example :
    Applies recorded db db-IsDb 9
      (unrecorded recorded two one_applied)
      one_applied
      (up db 9 two one_applied)
up-Applies_example = up-Applies recorded db db-IsDb 9 two one_applied two-IsTame

up_to-recorded_example : up_to db 9 two "1" one_applied ≡ up db 9 two one_applied
up_to-recorded_example = up_to-recorded recorded db db-IsDb 9 two "1" one_applied refl

down-Removes_example :
    Removes recorded db db-IsDb 9 two two-IsTame
      (sort_slice later_record one_applied.records)
      (steps_of (pos 1))
      one_applied
      (down db 9 two (pos 1) one_applied)
down-Removes_example =
    down-Removes recorded db db-IsDb 9 two two-IsTame (pos 1) one_applied one_applied.records refl
      refl
