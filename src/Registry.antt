-- ===== src/Registry.antt =====
-- frame/pkg/registry/registry.go: service instances, the two balancers and the resolver. The registry
-- of etcd is a parameter with a state `R`; what its watchers report is a call.
pub mod Weights
pub mod Rounds
pub mod Resolving
use landc_go.Num.{to_int, word, magnitude}
use Prim.Native.Nat.{◌%◌}
use landc_go.Prelude.{
  Flags, List, Map, Option, Result, String, [], err, if◌then◌else◌, insert, length, lookup, ltb,
  ltb_ℤ, mark, marked, none, ok, pos, some, suc, to_ℕ, zero, ℕ, ℤ, ◌+◌, ◌∷◌, is_zero_ℤ,
}

pub record ServiceInstance : Type 0 where
  pub id : String
  pub name : String
  pub version : String
  pub address : String
  pub port : ℤ
  pub metadata : Map String
  pub weight : ℤ

-- The interface, without `Close`. A watcher that is refused is an error.
pub record Registry (R : Type 0) : Type 0 where
  pub register : ServiceInstance → R → R × Option String
  pub deregister : ServiceInstance → R → R × Option String
  pub get_service : String → R → Result String (List ServiceInstance)
  pub watch : String → R → R × Option String

unfoldable pub get_elem? : List ServiceInstance → ℕ → Option ServiceInstance
get_elem? [] i = none
get_elem? (x ∷ xs) zero = some x
get_elem? (x ∷ xs) (suc i) = get_elem? xs i

abbrev pub counter_end : ℕ
counter_end = 18446744073709551616

-- `RoundRobinBalancer.Pick`, with its counter of 64 bits; Go's nil is `none`.
unfoldable pub round_robin_pick : ℕ → List ServiceInstance → ℕ × Option ServiceInstance
unfolding get_elem?
round_robin_pick counter [] = (counter, none)
round_robin_pick counter (x ∷ xs) =
    ((counter + 1) % counter_end, get_elem? (x ∷ xs) (counter % length (x ∷ xs)))

-- A weight that is not positive counts as 1.
unfoldable pub weight_of : ServiceInstance → ℕ
weight_of inst = if ltb_ℤ (pos 0) inst.weight then to_ℕ inst.weight else 1

-- The loop that adds up the weights, in Go's `int`.
unfoldable pub sum_weights : ℕ → List ServiceInstance → ℕ
unfolding weight_of
sum_weights total [] = total
sum_weights total (x ∷ xs) = sum_weights ((total + weight_of x) % word) xs

-- The loop that adds up the weights until they pass the target.
unfoldable pub pick_target : (target cumulative : ℕ) → List ServiceInstance → Option ServiceInstance
unfolding weight_of to_int
pick_target target cumulative [] = none
pick_target target cumulative (x ∷ xs) =
    let next = (cumulative + weight_of x) % word in
    let rest = pick_target target next xs in
    if ltb_ℤ (pos target) (to_int next) then some x else rest

-- Where the sum of the weights wraps to zero, the remainder panics.
pub data Pick : Type 0 where
  panics : Pick
  picks : (inst : Option ServiceInstance) → Pick

-- The part of `Pick` behind the sum. The remainder of a positive number does not depend on the sign of
-- the divisor.
unfoldable pub pick_with : (now : ℕ) → (total : ℤ) → ServiceInstance → List ServiceInstance → Pick
unfolding pick_target
pick_with now total x xs =
    if is_zero_ℤ total then panics else (elim (pick_target (now % magnitude total) 0 (x ∷ xs)) [
      | some inst ↦ picks (some inst)
      | none ↦ picks (some x)
    ])

-- `WeightedBalancer.Pick` at an instant, in nanoseconds.
unfoldable pub weighted_pick : ℕ → List ServiceInstance → Pick
unfolding sum_weights pick_with to_int
weighted_pick now [] = picks none
weighted_pick now (x ∷ xs) = pick_with now (to_int (sum_weights 0 (x ∷ xs))) x xs

pub data ResolveError : Type 0 where
  unavailable : (cause : String) → ResolveError
  no_instances : (name : String) → ResolveError

-- The resolver: `balance` is the balancer with its state `B`.
pub record Resolver (R B : Type 0) : Type 0 where
  pub registry : Registry R
  pub balance : B → List ServiceInstance → B × Option ServiceInstance
  pub balancer : B
  pub cache : Map (List ServiceInstance)
  pub watchers : Flags
  pub remote : R

module _ {R B : Type 0} where
  unfoldable pub start_watch : String → Resolver R B → Resolver R B
  unfolding marked mark
  start_watch name r =
      if marked name r.watchers
      then r
      else (let (s, failure) = r.registry.watch name r.remote in
          let watched : Resolver R B = record r { remote = s; watchers = mark name r.watchers } in
          elim failure [ some e ↦ record r { remote = s } | none ↦ watched ])

  -- `ResolveAll` where the cache does not answer.
  unfoldable pub ask :
      String → Resolver R B → Resolver R B × Result ResolveError (List ServiceInstance)
  unfolding start_watch insert
  ask name r = elim (r.registry.get_service name r.remote) [
    | err e ↦ (r, err (unavailable e))
    | ok found ↦ (start_watch name (record r { cache = insert name found r.cache }), ok found)
  ]

  unfoldable pub resolve_all :
      String → Resolver R B → Resolver R B × Result ResolveError (List ServiceInstance)
  unfolding ask lookup
  resolve_all name r = elim (lookup name r.cache) [
    | none ↦ ask name r
    | some [] ↦ ask name r
    | some (x ∷ xs) ↦ (r, ok (x ∷ xs))
  ]

  -- `none` in the place of the instance is the nil of a balancer that picks nothing.
  abbrev pub choose :
      String
      → Resolver R B × Result ResolveError (List ServiceInstance)
      → Resolver R B × Result ResolveError (Option ServiceInstance)
  choose name (r, err e) = (r, err e)
  choose name (r, ok []) = (r, err (no_instances name))
  choose name (r, ok (x ∷ xs)) =
      let (b, inst) = r.balance r.balancer (x ∷ xs) in (record r { balancer = b }, ok inst)

  unfoldable pub resolve :
      String → Resolver R B → Resolver R B × Result ResolveError (Option ServiceInstance)
  unfolding resolve_all
  resolve name r = choose name (resolve_all name r)

  -- What the goroutine of a watcher does with a report.
  unfoldable pub report : String → List ServiceInstance → Resolver R B → Resolver R B
  unfolding insert
  report name found r = record r { cache = insert name found r.cache }
