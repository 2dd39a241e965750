-- ===== src/Examples/Services.antt =====
-- The balancers and the resolver: examples.
use Prim.Native.Nat.{◌%◌}
use landc_go.Num.{half}
use landc_go.Registry.{Pick, weight_of, panics, ServiceInstance, weighted_pick, weight_of}
use landc_go.Registry.Weights.{weighted_pick-share, total_weight}
use landc_go.Registry.Rounds.{picks, round_robin_pick-round}
use landc_go.Prelude.{String, [], arith, pos, refl, some, ℕ, ◌∷◌, ◌≡◌, ◌+◌, ◌<◌, ◌≤◌}

abbrev instance' : String → ℕ → ServiceInstance
instance' id weight = record {
  id = id;
  name = "orders";
  version = "";
  address = id;
  port = pos 80;
  metadata = [];
  weight = pos weight;
}

abbrev one : ServiceInstance
one = instance' "one" 2

abbrev two : ServiceInstance
two = instance' "two" 3

fits : total_weight (one ∷ two ∷ []) < half
unfolding total_weight weight_of
fits = omega arith

-- Four weights of 2 ^ 62 sum to zero.
overflows :
    weighted_pick 13 (
      instance' "a" 4611686018427387904
      ∷ instance' "b" 4611686018427387904
      ∷ instance' "c" 4611686018427387904
      ∷ instance' "d" 4611686018427387904
      ∷ [])
    ≡ panics
unfolding weighted_pick
overflows = refl

low : total_weight (one ∷ []) ≤ 13 % total_weight (one ∷ two ∷ [])
unfolding total_weight weight_of
low = omega arith

high : 13 % total_weight (one ∷ two ∷ []) < total_weight (one ∷ []) + weight_of two
unfolding total_weight weight_of
high = omega arith

weighted_pick-share_example : weighted_pick 13 (one ∷ two ∷ []) ≡ Pick.picks (some two)
weighted_pick-share_example = weighted_pick-share (one ∷ []) [] two 13 fits low high

round_robin_pick-round_example : picks 2 7 (one ∷ two ∷ []) ≡ some two ∷ some one ∷ []
round_robin_pick-round_example =
    round_robin_pick-round (one ∷ two ∷ []) 7 (one ∷ []) (two ∷ []) refl refl (omega arith)
