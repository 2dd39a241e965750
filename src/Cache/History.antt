-- ===== src/Cache/History.antt =====
-- The cache over histories of calls.
use landc_go.Cache.Bounds.{
  IsBounded, set_with_expiration-IsBounded, get-IsBounded, remove-IsBounded, incr-IsBounded,
  cleanup_expired-IsBounded, set_capacity-IsBounded, cleaner-IsBounded,
}
use landc_go.Cache.Lru.{
  Value, Codec, Cleaner, unstarted, stopped, cleaning, LruCache, set_with_expiration, get, remove,
  incr, clear, cleanup_expired, start_cleanup, stop_cleanup, cleanup_tick, set_capacity, cleaning,
  new_lru_cache, stopped,
}
use landc_go.Prelude.{List, String, [], arith, inr, refl, ℕ, ◌∷◌, ◌≡◌}

-- The calls on a cache, each at an instant.
pub data Call : Type 0 where
  sets : (now : ℕ) (key : String) (value : Value) (ttl : ℕ) → Call
  gets : (now : ℕ) (key : String) → Call
  incrs : (now : ℕ) (key : String) (ttl : ℕ) → Call
  removes : (key : String) → Call
  clears starts stops : Call
  cleans ticks : (now : ℕ) → Call
  resizes : (capacity : ℕ) → Call

pub step : Codec → LruCache → Call → LruCache
step codec c (sets now key value ttl) = set_with_expiration now key value ttl c
step codec c (gets now key) = (get now key c).0
step codec c (incrs now key ttl) = (incr codec now key ttl c).0
step codec c (removes key) = remove key c
step codec c clears = clear c
step codec c starts = start_cleanup c
step codec c stops = stop_cleanup c
step codec c (cleans now) = cleanup_expired now c
step codec c (ticks now) = cleanup_tick now c
step codec c (resizes capacity) = set_capacity capacity c

pub run : Codec → LruCache → List Call → LruCache
run codec c [] = c
run codec c (a ∷ calls) = run codec (step codec c a) calls

new_lru_cache-IsBounded : (capacity : ℕ) → IsBounded (new_lru_cache capacity)
unfolding new_lru_cache
new_lru_cache-IsBounded capacity = record { distinct = tt; bounded = inr (omega arith) }

step-IsBounded :
    (codec : Codec) (c : LruCache) (a : Call) → IsBounded c → IsBounded (step codec c a)
unfolding step clear start_cleanup stop_cleanup cleanup_tick
step-IsBounded codec c (sets now key value ttl) h =
    set_with_expiration-IsBounded now key value ttl c h
step-IsBounded codec c (gets now key) h = get-IsBounded now key c h
step-IsBounded codec c (incrs now key ttl) h = incr-IsBounded codec now key ttl c h
step-IsBounded codec c (removes key) h = remove-IsBounded key c h
step-IsBounded codec c clears h = record { distinct = tt; bounded = inr (omega arith) }
step-IsBounded codec c starts h = cleaner-IsBounded c cleaning h
step-IsBounded codec c stops h = by_cleaner c.cleaner refl
  where
    by_cleaner : (s : Cleaner) → c.cleaner ≡ s → IsBounded (stop_cleanup c)
    by_cleaner cleaning q = rw (stop_cleanup, q) (cleaner-IsBounded c stopped h)
    by_cleaner unstarted q = rw (stop_cleanup, q) h
    by_cleaner stopped q = rw (stop_cleanup, q) h
step-IsBounded codec c (cleans now) h = cleanup_expired-IsBounded now c h
step-IsBounded codec c (ticks now) h = by_cleaner c.cleaner refl
  where
    by_cleaner : (s : Cleaner) → c.cleaner ≡ s → IsBounded (cleanup_tick now c)
    by_cleaner cleaning q = rw (cleanup_tick, q) (cleanup_expired-IsBounded now c h)
    by_cleaner unstarted q = rw (cleanup_tick, q) h
    by_cleaner stopped q = rw (cleanup_tick, q) h
step-IsBounded codec c (resizes capacity) h = set_capacity-IsBounded capacity c h

run-IsBounded :
    (codec : Codec) (c : LruCache) (calls : List Call) → IsBounded c → IsBounded (run codec c calls)
unfolding run
run-IsBounded codec c [] h = h
run-IsBounded codec c (a ∷ calls) h =
    run-IsBounded codec (step codec c a) calls (step-IsBounded codec c a h)

-- Whatever calls are made on a new cache, changes of its capacity among them, no key stands in it
-- twice, and where its capacity is positive it holds no more entries than that.
pub run-new_lru_cache-IsBounded :
    (codec : Codec) (capacity : ℕ) (calls : List Call)
    → IsBounded (run codec (new_lru_cache capacity) calls)
run-new_lru_cache-IsBounded codec capacity calls =
    run-IsBounded codec (new_lru_cache capacity) calls (new_lru_cache-IsBounded capacity)
