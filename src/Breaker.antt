-- ===== src/Breaker.antt =====
-- frame/pkg/middleware/ratelimit.go: the circuit breaker. Its mutex makes each call one step; a call
-- takes the instant at which it is made, as a number.
pub mod Opening
use landc_go.Prelude.{
  Bool, List, [], false, if◌then◌else◌, leb, length, ltb, select, true, ℕ, ◌++◌, ◌+◌, ◌∷◌,
}

pub data BreakerState : Type 0 where
  closed opened half_open : BreakerState

-- `CircuitBreakerConfig` without the two callbacks.
pub record BreakerConfig : Type 0 where
  pub threshold : ℕ
  pub window : ℕ
  pub cool_down : ℕ

pub record CircuitBreaker : Type 0 where
  pub config : BreakerConfig
  pub state : BreakerState
  pub failures : List ℕ
  pub last_open : ℕ

-- `lastOpen` is not read before the breaker opens.
unfoldable pub new_circuit_breaker : BreakerConfig → CircuitBreaker
new_circuit_breaker config = record {
  config = config;
  state = closed;
  failures = [];
  last_open = 0;
}

unfoldable pub allow : ℕ → CircuitBreaker → CircuitBreaker × Bool
allow now cb = elim cb.state [
  | closed ↦ (cb, true)
  | opened ↦
      if ltb (cb.last_open + cb.config.cool_down) now
      then (record cb { state = half_open }, true)
      else (cb, false)
  | half_open ↦ (cb, true)
]

unfoldable pub record_success : CircuitBreaker → CircuitBreaker
record_success cb = elim cb.state [
  | half_open ↦ record cb { state = closed; failures = [] }
  | _ ↦ cb
]

-- The failures that are left in the window: `t.After(now - window)`.
unfoldable pub recent : ℕ → CircuitBreaker → List ℕ
recent now cb = select (λ t. ltb now (t + cb.config.window)) (cb.failures ++ now ∷ [])

unfoldable pub record_failure : ℕ → CircuitBreaker → CircuitBreaker
unfolding recent
record_failure now cb =
    let kept : CircuitBreaker = record cb { failures = recent now cb } in
    let trip : CircuitBreaker = record kept { state = opened; last_open = now } in
    elim cb.state [
      | half_open ↦ trip
      | _ ↦ if leb cb.config.threshold (length kept.failures) then trip else kept
    ]
