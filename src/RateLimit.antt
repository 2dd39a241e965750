-- ===== src/RateLimit.antt =====
-- tools/ratelimit/cache_limiter.go: the interface `Cache` that the limiters and the verification
-- codes stand on, and the two limiters. An operation takes the instant of the call and the state of
-- the cache; `false` and `none` for a result stand for an error.
pub mod Windows
use landc_go.Prelude.{
  Bool, Option, String, false, leb, ltb_ℤ, none, not, some, true, ℕ, ℤ, ◌+◌, ◌<◌, ◌≡◌, ◌≤◌,
}

pub record CacheOps (S : Type 0) : Type 0 where
  pub fetch : (now : ℕ) → String → S → S × Option String
  pub store : (now : ℕ) → (key value : String) → (ttl : ℕ) → S → S × Bool
  pub drop_key : (now : ℕ) → String → S → S × Bool
  pub exists : (now : ℕ) → String → S → S × Option Bool
  pub count_up : (now : ℕ) → String → (ttl : ℕ) → S → S × Option ℤ

-- What a client of the cache relies on: a stored text is found until its time to live has run out,
-- and a removed key is not.
pub record IsCache {S : Type 0} (ops : CacheOps S) : Type 0 where
  pub stores :
      (now : ℕ) (key value : String) (ttl : ℕ) (s : S) → (ops.store now key value ttl s).1 ≡ true
  pub finds :
      (now later : ℕ) (key value : String) (ttl : ℕ) (s : S)
      → 0 < ttl
      → later ≤ now + ttl
      → (ops.fetch later key (ops.store now key value ttl s).0).1 ≡ some value
  pub forgets :
      (now later : ℕ) (key : String) (s : S)
      → (ops.fetch later key (ops.drop_key now key s).0).1 ≡ none
  pub sees :
      (now later : ℕ) (key value : String) (ttl : ℕ) (s : S)
      → 0 < ttl
      → (ops.exists later key (ops.store now key value ttl s).0).1 ≡ some (leb later (now + ttl))

module _ {S : Type 0} (ops : CacheOps S) where
  -- `IntervalLimiter.Allow`
  unfoldable pub interval_allow : (now : ℕ) → String → (interval : ℕ) → S → S × Bool
  interval_allow now key interval s =
      let (s', found) = ops.exists now key s in
      elim found [
        | none ↦ (s', true)
        | some true ↦ (s', false)
        | some false ↦ ((ops.store now key "1" interval s').0, true)
      ]

  -- `CountLimiter.Allow`
  unfoldable pub count_allow : (now : ℕ) → String → (limit : ℤ) → (window : ℕ) → S → S × Bool
  count_allow now key limit window s =
      let (s', count) = ops.count_up now key window s in
      elim count [ none ↦ (s', true) | some n ↦ (s', not (ltb_ℤ limit n)) ]
