-- ===== src/Idempotent/Keys.antt =====
-- The checker in memory: what it remembers, and for how long.
use landc_go.Idempotent.{Checker, is_processed, mark_processed}
use landc_go.Prelude.{
  String, arith, eq_iff, if◌then◌else◌, leb, lookup, lookup-delete, lookup-insert, ℕ, ◌+◌, ◌≡◌, ◌≢◌,
  eqb, eq_refl,
}

-- The time for which `MarkProcessed` keeps a key: the checker's own when it is asked for 0.
abbrev pub kept : ℕ → Checker → ℕ
kept ttl c = if eqb ttl 0 then c.ttl else ttl

-- A key that is marked counts as processed until its time has run out, and no longer: a test at
-- `later`, with no other call between, says so exactly when `later` is at most the marking's instant
-- and its time to live.
pub is_processed-mark_processed :
    (now later ttl : ℕ) (key : String) (c : Checker)
    → (is_processed later key (mark_processed now key ttl c)).1 ≡ leb later (now + kept ttl c)
unfolding is_processed mark_processed
is_processed-mark_processed now later ttl key c =
    ground (arith, lookup-insert key key (now + kept ttl c) c.seen, eq_refl key)

-- A test drops a key that has run out, and changes no other.
pub is_processed-others :
    (now : ℕ) (key other : String) (c : Checker)
    → other ≢ key
    → lookup other (is_processed now key c).0.seen ≡ lookup other c.seen
unfolding is_processed
is_processed-others now key other c apart =
    ground (arith, lookup-delete key other c.seen, eq_iff key other)

-- Marking one key leaves the verdict on another as it was.
pub mark_processed-others :
    (now later ttl : ℕ) (key other : String) (c : Checker)
    → other ≢ key
    → (is_processed later other (mark_processed now key ttl c)).1 ≡ (is_processed later other c).1
unfolding is_processed mark_processed
mark_processed-others now later ttl key other c apart =
    ground (arith, lookup-insert key other (now + kept ttl c) c.seen, eq_iff key other)
