-- ===== src/Idempotent.antt =====
-- workflow/pkg/idempotent/idempotent.go: the checker in memory. The digest of `GenerateKey` (SHA-256)
-- is a parameter; instants are numbers, and a call takes the instant at which it is made.
pub mod Keys
use Prim.Native.String.{◌++◌}
use landc_go.Prelude.{
  Bool, List, Map, String, [], delete, false, if◌then◌else◌, insert, lookup, ltb, none, some, true,
  ℕ, ◌+◌, ◌∷◌, eqb, eqb, ◌∷◌,
}

pub record Checker : Type 0 where
  pub seen : Map ℕ
  pub ttl : ℕ

-- `NewMemoryIdempotencyChecker`, with the length of a day in the unit of the instants.
unfoldable pub new_checker : (day ttl : ℕ) → Checker
new_checker day ttl = record { seen = []; ttl = if eqb ttl 0 then day else ttl }

unfoldable pub is_processed : ℕ → String → Checker → Checker × Bool
is_processed now key c = elim (lookup key c.seen) [
  | none ↦ (record c { seen = delete key c.seen }, false)
  | some expires ↦
      if ltb expires now then (record c { seen = delete key c.seen }, false) else (c, true)
]

unfoldable pub mark_processed : ℕ → String → ℕ → Checker → Checker
mark_processed now key ttl c = record c {
  seen = insert key (now + (if eqb ttl 0 then c.ttl else ttl)) c.seen;
}

-- `join`, which Go calls with at least one part.
unfoldable pub join : List String → String
join [] = ""
join (p ∷ []) = p
join (p ∷ q ∷ ps) = join ((p ++ ":" ++ q) ∷ ps)

unfoldable pub generate_key : (digest : String → String) → List String → String
unfolding join
generate_key digest parts = digest (join parts)
