-- ===== src/Num/Trial.antt =====
-- The loop of `IsPrime`, and its answer.
use Prim.Native.Nat.{◌%◌, ◌*◌, ◌∣◌}
use native.Mathlib.Nat
use landc_go.Num.{half, square_within, trial_fueled, is_prime, ltb}
use landc_go.Num.Primes.{
  Prime, square_within-small, Sieved, Sieved-Prime, Sieved-six, Answers, dvd_test, not_dvd_test,
  not-Prime,
}
use landc_go.Prelude.{
  Bool-cases, arith, eqb, false, inl, inr, leb, pos, refl, some, subst, suc, sym, true, zero,
  ||-eq-true, ℕ, ◌+◌, ◌<◌, ◌||◌, ◌≡◌, ◌≤◌, eqb→eq, ltb, ltb_false→le, ltb→lt,
}

-- A trial divisor below this is followed by one whose square stays in the type.
abbrev pub limit : ℕ
limit = 3037000494

below_limit : (i n : ℕ) → i * i ≤ n → n < limit * limit → i < limit
below_limit i n within small = elim (Bool-cases (ltb i limit)) [
  | inl q ↦ ltb→lt i limit q
  | inr q ↦
      let high = ltb_false→le i limit q in
      let squares : limit * limit ≤ i * i = Nat.mul-le-mul high high in
      absurd (omega (arith, squares, within, small))
]

-- The next trial divisor may be squared within the type.
next_fits : (i n : ℕ) → i * i ≤ n → n < limit * limit → (i + 6) * (i + 6) < half
next_fits i n within small =
    let low = below_limit i n within small in
    let next : i + 6 ≤ limit + 5 = omega (arith, low) in
    let squares : (i + 6) * (i + 6) ≤ (limit + 5) * (limit + 5) = Nat.mul-le-mul next next in
    omega (arith, squares)

five_times : (i : ℕ) → 5 ≤ i → 5 * i ≤ i * i
five_times i h = Nat.mul-le-mul_right i h

module _ (n : ℕ) (small : n < limit * limit) (big : 3 < n) (odd : ¬ (2 ∣ n))
    (three : ¬ (3 ∣ n)) where
  -- A round of the trial division that finds no divisor.
  trial_next :
      (fuel i : ℕ)
      → i * i < half
      → i * i ≤ n
      → (eqb (n % i) 0 || eqb (n % (i + 2)) 0) ≡ false
      → trial_fueled (suc fuel) i n ≡ trial_fueled fuel (i + 6) n
  unfolding trial_fueled
  trial_next fuel i fits within none_found =
      let test : square_within i n ≡ true = ground (arith, square_within-small i n fits) in
      rw (trial_fueled, test, none_found) refl

  trial_found :
      (fuel i : ℕ)
      → i * i < half
      → i * i ≤ n
      → (eqb (n % i) 0 || eqb (n % (i + 2)) 0) ≡ true
      → trial_fueled (suc fuel) i n ≡ some false
  unfolding trial_fueled
  trial_found fuel i fits within found =
      let test : square_within i n ≡ true = ground (arith, square_within-small i n fits) in
      rw (trial_fueled, test, found) refl

  trial_over : (fuel i : ℕ) → i * i < half → n < i * i → trial_fueled (suc fuel) i n ≡ some true
  unfolding trial_fueled
  trial_over fuel i fits over =
      let test : square_within i n ≡ false = ground (arith, square_within-small i n fits) in
      rw (trial_fueled, test) refl

  found-not-Prime :
      (i : ℕ) → 5 ≤ i → i * i ≤ n → (eqb (n % i) 0 || eqb (n % (i + 2)) 0) ≡ true → ¬ Prime n
  found-not-Prime i five within found = elim (||-eq-true (eqb (n % i) 0) _ found) [
    | inl q ↦
        not-Prime i n (omega (arith, five)) (omega (arith, five, within, five_times i five))
          (dvd_test i n q)
    | inr q ↦
        not-Prime (i + 2) n (omega arith) (omega (arith, five, within, five_times i five))
          (dvd_test (i + 2) n q)
  ]

  neither : (i : ℕ) → (eqb (n % i) 0 || eqb (n % (i + 2)) 0) ≡ false → (¬ (i ∣ n)) × (¬ (i + 2 ∣ n))
  neither i h = (not_dvd_test i n (ground (arith, h)), not_dvd_test (i + 2) n (ground (arith, h)))

  trial_fueled-Answers :
      (fuel j : ℕ)
      → n + 7 ≤ fuel * 6 + (6 * j + 5)
      → 6 * j + 5 ≤ n + 6
      → (6 * j + 5) * (6 * j + 5) < half
      → Sieved (6 * j + 5) n
      → Answers n (trial_fueled fuel (6 * j + 5) n)
  trial_fueled-Answers zero j enough near fits below = absurd (omega (arith, enough, near))
  trial_fueled-Answers (suc fuel) j enough near fits below =
      let i = 6 * j + 5 in
      elim (Bool-cases (leb (i * i) n)) [
        | inr over ↦
            let above : n < i * i = ground (arith, over) in
            inl (trial_over fuel i fits above, Sieved-Prime i n (omega (arith, big)) above below)
        | inl q ↦
            let within : i * i ≤ n = ground (arith, q) in
            elim (Bool-cases (eqb (n % i) 0 || eqb (n % (i + 2)) 0)) [
              | inl found ↦ inr (
                trial_found fuel i fits within found,
                found-not-Prime i (omega arith) within found,
              )
              | inr none_found ↦
                  let next_i : i + 6 ≡ 6 * suc j + 5 = omega arith in
                  let (no_first, no_second) = neither i none_found in
                  let fits_next = next_fits i n within small in
                  subst (λ x. Answers n x) (sym (trial_next fuel i fits within none_found))
                    (subst (λ y. Answers n (trial_fueled fuel y n)) (sym next_i)
                      (trial_fueled-Answers fuel (suc j) (omega (arith, enough))
                        (omega (arith, within, five_times i (omega arith)))
                        (subst (λ y. y * y < half) next_i fits_next)
                        (subst (λ y. Sieved y n) next_i
                          (Sieved-six j n odd three no_first no_second below))))
            ]
      ]

Prime-small : (n : ℕ) → 1 < n → n ≤ 3 → Prime n
Prime-small n big small =
    (big, λ d above divides. decide d above (Nat.le_of_dvd (omega (arith, big)) divides) divides)
  where
    decide : (d : ℕ) → 1 < d → d ≤ n → d ∣ n → d ≡ n
    decide d above under divides =
        let none_left = Nat.mod-eq-zero_of_dvd d divides in
        elim (Bool-cases (eqb d n)) [
          | inl q ↦ eqb→eq d n q
          | inr q ↦
              let two : d ≡ 2 = ground (arith, q, above, under, small) in
              let of_three : n ≡ 3 = ground (arith, q, above, under, small) in
              let left : 3 % 2 ≡ 0 =
                subst (λ x. 3 % x ≡ 0) two (subst (λ y. y % d ≡ 0) of_three none_left) in
              absurd (omega (arith, left))
        ]

Sieved-five : (n : ℕ) → ¬ (2 ∣ n) → ¬ (3 ∣ n) → Sieved 5 n
Sieved-five n odd three zero above below divides = absurd (omega (arith, above))
Sieved-five n odd three (suc zero) above below divides = absurd (omega (arith, above))
Sieved-five n odd three (suc (suc zero)) above below divides = odd divides
Sieved-five n odd three (suc (suc (suc zero))) above below divides = three divides
Sieved-five n odd three (suc (suc (suc (suc zero)))) above below divides =
    odd (Nat.dvd_trans 2 (Nat.dvd-mul_right 2 2) divides)
Sieved-five n odd three (suc (suc (suc (suc (suc d))))) above below divides =
    absurd (omega (arith, below))

-- The part of `IsPrime` that is left for numbers above 3.
is_prime_large : (n : ℕ) → n < limit * limit → 3 < n → Answers n (is_prime (pos n))
unfolding is_prime
is_prime_large n small big =
    let over_one : leb n 1 ≡ false = ground (arith, big) in
    let over_three : leb n 3 ≡ false = ground (arith, big) in
    elim (Bool-cases (eqb (n % 2) 0 || eqb (n % 3) 0)) [
      | inl found ↦ inr (
        rw (is_prime, over_one, over_three, found) refl,
        elim (||-eq-true (eqb (n % 2) 0) _ found) [
          | inl q ↦ not-Prime 2 n (omega arith) (omega (arith, big)) (dvd_test 2 n q)
          | inr q ↦ not-Prime 3 n (omega arith) big (dvd_test 3 n q)
        ],
      )
      | inr none_found ↦
          let odd = not_dvd_test 2 n (ground (arith, none_found)) in
          let three = not_dvd_test 3 n (ground (arith, none_found)) in
          let reduced : is_prime (pos n) ≡ trial_fueled n 5 n =
            rw (is_prime, over_one, over_three, none_found) refl in
          subst (λ x. Answers n x) (sym reduced)
            (trial_fueled-Answers n small big odd three n 0 (omega (arith, big)) (omega arith)
              (omega arith) (Sieved-five n odd three))
    ]

-- `IsPrime` decides whether a number below the square of 3037000494, which is 2 ^ 63 less about
-- 3.6 * 10 ^ 10, is prime: the loop ends, with `true` on the primes and `false` on the others.
pub is_prime-Answers : (n : ℕ) → n < limit * limit → Answers n (is_prime (pos n))
unfolding is_prime
is_prime-Answers n small = elim (Bool-cases (leb n 1)) [
  | inl q ↦ inr (rw (is_prime, q) refl, λ p. absurd (ground (arith, q, p.0)))
  | inr q ↦ elim (Bool-cases (leb n 3)) [
    | inl r ↦ inl (rw (is_prime, q, r) refl, Prime-small n (ground (arith, q)) (ground (arith, r)))
    | inr r ↦ is_prime_large n small (ground (arith, r))
  ]
]
