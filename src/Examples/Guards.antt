-- ===== src/Examples/Guards.antt =====
-- The locks and the circuit breaker: examples.
use landc_go.Lock.{MemoryLock, try_lock}
use landc_go.Lock.Exclusion.{tries, unlocks, run, try_lock-excludes}
use landc_go.Breaker.{CircuitBreaker, opened, closed, record_failure, allow}
use landc_go.Breaker.Opening.{run as breaker_run, asks, fails, succeeds, record_failure-shuts}
use landc_go.Prelude.{
  String, [], arith, false, length, refl, true, ◌↔◌, ◌∷◌, ◌≡◌, ◌≢◌, ◌≤◌, ◌⊎◌, apart,
}

abbrev handle : String → MemoryLock
handle value = record {
  name = "job";
  value = value;
  ttl = 30;
  auto_renew = false;
  stopped = false;
  locked = false;
}

granted : (try_lock 10 (handle "p") []).granted ≡ true
unfolding try_lock landc_go.Prelude.lookup
granted = refl

try_lock-excludes_example :
    ((try_lock 39 (handle "q") (
        run
          (try_lock 10 (handle "p") []).registry
          (tries 20 (handle "q") ∷ unlocks (handle "q") ∷ []))).granted
      ≡ false)
    × ((try_lock 39 (handle "q") (
          run
            (try_lock 10 (handle "p") []).registry
            (tries 20 (handle "q") ∷ unlocks (handle "q") ∷ []))).registry
        ≡ run
            (try_lock 10 (handle "p") []).registry
            (tries 20 (handle "q") ∷ unlocks (handle "q") ∷ []))
try_lock-excludes_example =
    try_lock-excludes 10 39 (handle "p") (handle "q") []
      (tries 20 (handle "q") ∷ unlocks (handle "q") ∷ []) granted
      ((apart "q" "p" refl, omega arith), (apart "q" "p" refl, tt)) refl (omega arith)

abbrev breaker : CircuitBreaker
breaker = record {
  config = record { threshold = 2; window = 60; cool_down = 30 };
  state = closed;
  failures = 70 ∷ [];
  last_open = 0;
}

trips : (record_failure 100 breaker).state ≡ opened
unfolding record_failure
trips = refl

record_failure-shuts_example :
    (allow 130 (breaker_run (record_failure 100 breaker) (asks 110 ∷ fails 115 ∷ succeeds ∷ []))).1
    ≡ false
record_failure-shuts_example =
    record_failure-shuts breaker 100 130 (asks 110 ∷ fails 115 ∷ succeeds ∷ []) trips (λ q. cc)
      (omega arith, (omega arith, (tt, tt))) (omega arith)
