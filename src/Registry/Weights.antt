-- ===== src/Registry/Weights.antt =====
-- The weighted balancer.
use mathlib.Core.List.{◌++◌}
use mathlib.Core.Option.{none-ne-some}
use Prim.Native.Nat.{◌%◌}
use landc_go.Num.{to_int, word, half}
use landc_go.Registry.{
  ServiceInstance, weight_of, sum_weights, pick_target, weighted_pick, pick_with, picks, List,
}
use landc_go.Prelude.{
  List, [], arith, false, if◌then◌else◌, ltb, ltb_ℤ, pos, refl, some, true, ℕ, ◌+◌, ◌<◌, ◌∙◌, ◌∷◌,
  ◌≡◌, ◌≤◌, ap, negsuc, suc, to_ℕ, zero, ℤ,
}

-- The sum of the weights, as a number without a bound.
unfoldable pub total_weight : List ServiceInstance → ℕ
total_weight [] = 0
total_weight (x ∷ xs) = weight_of x + total_weight xs

to_int-small : (n : ℕ) → n < half → to_int n ≡ pos n
unfolding to_int
to_int-small n h =
    let same : n % word ≡ n = omega (arith, h) in
    let low : ltb n half ≡ true = ground (arith, h) in rw (to_int, same, low, if◌then◌else◌) refl

wrap-small : (n : ℕ) → n < half → n % word ≡ n
wrap-small n h = omega (arith, h)

sum_weights-total_weight :
    (xs : List ServiceInstance) (total : ℕ)
    → total + total_weight xs < half
    → sum_weights total xs ≡ total + total_weight xs
unfolding sum_weights total_weight
sum_weights-total_weight [] total h = omega arith
sum_weights-total_weight (x ∷ xs) total h =
    let here = wrap-small (total + weight_of x) (omega (arith, h)) in
    rw here (sum_weights-total_weight xs (total + weight_of x) (omega (arith, h)) ∙ omega arith)

positive_weight : (z : ℤ) → 0 < (if ltb_ℤ (pos 0) z then to_ℕ z else 1)
positive_weight (pos zero) = omega arith
positive_weight (pos (suc n)) = ground arith
positive_weight (negsuc n) = omega arith

weight_of-positive : (x : ServiceInstance) → 0 < weight_of x
unfolding weight_of
weight_of-positive x = positive_weight x.weight

pick_target-share :
    (before after : List ServiceInstance) (inst : ServiceInstance) (target cumulative : ℕ)
    → cumulative + total_weight (before ++ (inst ∷ after)) < half
    → cumulative + total_weight before ≤ target
    → target < cumulative + total_weight before + weight_of inst
    → pick_target target cumulative (before ++ (inst ∷ after)) ≡ some inst
unfolding pick_target total_weight
pick_target-share [] after inst target cumulative fits low high =
    let small : cumulative + weight_of inst < half = omega (arith, fits) in
    let test : ltb_ℤ (pos target) (pos (cumulative + weight_of inst)) ≡ true =
      ground (arith, high) in
    rw (wrap-small (cumulative + weight_of inst) small, to_int-small _ small, test, if◌then◌else◌)
      refl
pick_target-share (x ∷ xs) after inst target cumulative fits low high =
    let small : cumulative + weight_of x < half = omega (arith, fits) in
    let test : ltb_ℤ (pos target) (pos (cumulative + weight_of x)) ≡ false = ground (arith, low) in
    rw (wrap-small (cumulative + weight_of x) small, to_int-small _ small, test, if◌then◌else◌)
      (pick_target-share xs after inst target (cumulative + weight_of x) (omega (arith, fits))
        (omega (arith, low)) (omega (arith, high)))

picks_nothing : (target : ℕ) {inst : ServiceInstance} → ¬ (pick_target target 0 [] ≡ some inst)
unfolding pick_target
picks_nothing target {inst} h = none-ne-some inst h

pick_with-picked :
    (now t : ℕ) (x inst : ServiceInstance) (xs : List ServiceInstance)
    → 0 < t
    → pick_target (now % t) 0 (x ∷ xs) ≡ some inst
    → pick_with now (pos t) x xs ≡ picks (some inst)
unfolding pick_with
pick_with-picked now zero x inst xs positive h = absurd (omega arith)
pick_with-picked now (suc t) x inst xs positive h = rw (pick_with, h) refl

-- Where the sum of the weights stays in Go's `int`, the instants, counted modulo that sum, are shared
-- out among the instances in their order: an instance is picked where the residue lies between the
-- weights before it and these with its own added, so in as many residues as its weight says.
pub weighted_pick-share :
    (before after : List ServiceInstance) (inst : ServiceInstance) (now : ℕ)
    → total_weight (before ++ (inst ∷ after)) < half
    → total_weight before ≤ now % total_weight (before ++ (inst ∷ after))
    → now % total_weight (before ++ (inst ∷ after)) < total_weight before + weight_of inst
    → weighted_pick now (before ++ (inst ∷ after)) ≡ picks (some inst)
unfolding weighted_pick total_weight
weighted_pick-share before after inst now fits low high = first_of (before ++ (inst ∷ after)) fits (
    pick_target-share before after inst (now % total_weight (before ++ (inst ∷ after))) 0
      (omega (arith, fits)) (omega (arith, low)) (omega (arith, high)))
  where
    first_of :
        (xs : List ServiceInstance)
        → total_weight xs < half
        → pick_target (now % total_weight xs) 0 xs ≡ some inst
        → weighted_pick now xs ≡ picks (some inst)
    first_of [] fit h = absurd (picks_nothing (now % 0) h)
    first_of (x ∷ xs) fit h =
        let sum : sum_weights 0 (x ∷ xs) ≡ total_weight (x ∷ xs) =
          sum_weights-total_weight (x ∷ xs) 0 (omega (arith, fit)) ∙ omega arith in
        let read = ap to_int sum ∙ to_int-small (total_weight (x ∷ xs)) fit in
        ap (λ total. pick_with now total x xs) read
        ∙ pick_with-picked now (total_weight (x ∷ xs)) x inst xs
            (omega (arith, weight_of-positive x)) h
