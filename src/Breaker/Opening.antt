-- ===== src/Breaker/Opening.antt =====
-- When the circuit breaker opens, and how long it stays so.
use landc_go.Breaker.{
  closed, opened, half_open, CircuitBreaker, allow, record_success, record_failure, recent, ℕ, List,
  BreakerState,
}
use landc_go.Prelude.{
  All, List, [], arith, false, length, ltb, ℕ, ◌+◌, ◌↔◌, ◌∷◌, ◌≡◌, ◌≢◌, ◌≤◌, ◌⊎◌, inl, inr, refl,
  sym, ◌∙◌,
}

pub data BreakerCall : Type 0 where
  asks fails : ℕ → BreakerCall
  succeeds : BreakerCall

pub step : CircuitBreaker → BreakerCall → CircuitBreaker
step cb (asks now) = (allow now cb).0
step cb (fails now) = record_failure now cb
step cb succeeds = record_success cb

pub run : CircuitBreaker → List BreakerCall → CircuitBreaker
run cb [] = cb
run cb (c ∷ cs) = run (step cb c) cs

-- The call is made between the two instants.
abbrev pub IsWithin : ℕ → ℕ → BreakerCall → Type 0
IsWithin first last (asks now) = now ≤ last
IsWithin first last (fails now) = first ≤ now
IsWithin first last succeeds = Unit

-- The breaker is open, and has been opened at this instant or later.
record IsOpen (first cool_down : ℕ) (cb : CircuitBreaker) : Type 0 where
  is_open : cb.state ≡ opened
  since : first ≤ cb.last_open
  cools : cb.config.cool_down ≡ cool_down

step-IsOpen :
    (first cool_down : ℕ) (cb : CircuitBreaker) (c : BreakerCall)
    → IsWithin first (first + cool_down) c
    → IsOpen first cool_down cb
    → IsOpen first cool_down (step cb c)
unfolding step allow record_success record_failure
step-IsOpen first cool_down cb (asks now) w o =
    let shut : ltb (cb.last_open + cb.config.cool_down) now ≡ false =
      ground (arith, o.since, o.cools) in
    record {
      is_open = ground (arith, o.is_open);
      since = ground (arith, o.is_open, o.since);
      cools = ground (arith, o.is_open, o.cools);
    }
step-IsOpen first cool_down cb (fails now) w o = record {
  is_open = ground (arith, o.is_open);
  since = ground (arith, o.is_open, o.since);
  cools = ground (arith, o.is_open, o.cools);
}
step-IsOpen first cool_down cb succeeds w o = record {
  is_open = ground (arith, o.is_open);
  since = ground (arith, o.is_open, o.since);
  cools = ground (arith, o.is_open, o.cools);
}

run-IsOpen :
    (first cool_down : ℕ) (cb : CircuitBreaker) (cs : List BreakerCall)
    → All (IsWithin first (first + cool_down)) cs
    → IsOpen first cool_down cb
    → IsOpen first cool_down (run cb cs)
unfolding run
run-IsOpen first cool_down cb [] w o = o
run-IsOpen first cool_down cb (c ∷ cs) w o =
    run-IsOpen first cool_down (step cb c) cs w.1 (step-IsOpen first cool_down cb c w.0 o)

-- A breaker that a failure has opened lets nothing through while it cools down: whatever requests
-- ask until then, and whatever successes and later failures are recorded, a request is refused.
pub record_failure-shuts :
    (cb : CircuitBreaker) (now later : ℕ) (cs : List BreakerCall)
    → (record_failure now cb).state ≡ opened
    → cb.state ≢ opened
    → All (IsWithin now (now + cb.config.cool_down)) cs
    → later ≤ now + cb.config.cool_down
    → (allow later (run (record_failure now cb) cs)).1 ≡ false
unfolding allow record_failure
record_failure-shuts cb now later cs trips was within soon =
    let start : IsOpen now cb.config.cool_down (record_failure now cb) = record {
      is_open = trips;
      since = ground arith;
      cools = ground arith;
    } in
    let o = run-IsOpen now cb.config.cool_down (record_failure now cb) cs within start in
    ground (arith, o.is_open, o.since, o.cools)

opened_by :
    (s : BreakerState) (cb : CircuitBreaker) (now : ℕ)
    → cb.state ≡ s
    → (record_failure now cb).state ≡ opened
    → (cb.state ≢ closed) ⊎ (cb.config.threshold ≤ length (recent now cb))
unfolding record_failure
opened_by closed cb now q h = inr (ground (arith, q, h))
opened_by opened cb now q h = inl (λ p. cc (sym q ∙ p))
opened_by half_open cb now q h = inl (λ p. cc (sym q ∙ p))

opens :
    (s : BreakerState) (cb : CircuitBreaker) (now : ℕ)
    → cb.state ≡ s
    → (cb.state ≢ closed) ⊎ (cb.config.threshold ≤ length (recent now cb))
    → (record_failure now cb).state ≡ opened
unfolding record_failure
opens closed cb now q (inl p) = absurd (p q)
opens closed cb now q (inr l) = ground (arith, q, l)
opens opened cb now q h = ground (arith, q)
opens half_open cb now q h = ground (arith, q)

-- After a failure the breaker is open exactly if it was not closed before, or the failures left in
-- the window, this one among them, reach the threshold.
pub record_failure_iff :
    (cb : CircuitBreaker) (now : ℕ)
    → ((record_failure now cb).state ≡ opened)
      ↔ ((cb.state ≢ closed) ⊎ (cb.config.threshold ≤ length (recent now cb)))
record_failure_iff cb now = (opened_by cb.state cb now refl, opens cb.state cb now refl)
