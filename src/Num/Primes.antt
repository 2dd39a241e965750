-- ===== src/Num/Primes.antt =====
-- `IsPrime` against the definition of a prime.
use Prim.Native.Nat.{◌%◌, ◌/◌, ◌*◌, ◌∣◌}
use native.Mathlib.Nat
use landc_go.Num.{half, word, square_within, eqb}
use landc_go.Prelude.{
  Bool, Option, false, leb, some, true, ℕ, ◌+◌, ◌<◌, ◌≡◌, ◌⊎◌, Bool-cases, arith, eqb, eqb→eq, inl,
  inr, ltb, ltb_false→le, ltb→lt, subst, suc, sym, zero, ◌-◌, ◌≢◌, ◌≤◌,
}

-- A number of at least 2 whose divisors above 1 are itself only.
abbrev pub Prime : ℕ → Type 0
Prime n = (1 < n) × ((d : ℕ) → 1 < d → d ∣ n → d ≡ n)

mod-small : (m : ℕ) → m < half → m % word ≡ m
mod-small m h = omega (arith, h)

pub square_within-small : (i num : ℕ) → i * i < half → square_within i num ≡ leb (i * i) num
unfolding square_within
square_within-small i num h = ground (arith, mod-small (i * i) h)

-- No number from 2 up to `i` divides `n`.
abbrev pub Sieved : ℕ → ℕ → Type 0
Sieved i n = (d : ℕ) → 1 < d → d < i → ¬ (d ∣ n)

quotient : (d n : ℕ) → d ∣ n → n ≡ d * (n / d)
quotient d n h =
    let whole = Nat.div-add-mod n d in
    let none_left = Nat.mod-eq-zero_of_dvd d h in omega (arith, whole, none_left)

-- Two factors that are not below `i` make a product that is not below the square of `i`.
pub Sieved-Prime : (i n : ℕ) → 1 < n → n < i * i → Sieved i n → Prime n
Sieved-Prime i n big h none_below = (big, λ d above divides. decide d above divides)
  where
    cofactor : (d k : ℕ) → 1 < d → n ≡ d * k → d ≢ n → 1 < k
    cofactor d zero above q differs = omega (arith, q, big)
    cofactor d (suc zero) above q differs = absurd (differs (omega (arith, q)))
    cofactor d (suc (suc k)) above q differs = omega arith

    above_i : (d : ℕ) → 1 < d → d ∣ n → i ≤ d
    above_i d above divides = elim (Bool-cases (ltb d i)) [
      | inl q ↦ absurd (none_below d above (ltb→lt d i q) divides)
      | inr q ↦ ltb_false→le d i q
    ]

    decide : (d : ℕ) → 1 < d → d ∣ n → d ≡ n
    decide d above divides = elim (Bool-cases (eqb d n)) [
      | inl q ↦ eqb→eq d n q
      | inr q ↦
          let whole = quotient d n divides in
          let k_big = cofactor d (n / d) above whole (ground (arith, q)) in
          let k_divides : (n / d) ∣ n =
            subst (◌∣◌ (n / d)) (sym whole) (Nat.dvd-mul_left (n / d) d) in
          let too_big =
            Nat.mul-le-mul (above_i d above divides) (above_i (n / d) k_big k_divides) in
          absurd (omega (arith, too_big, whole, h))
    ]

abbrev pub Answers : ℕ → Option Bool → Type 0
Answers n answer = ((answer ≡ some true) × Prime n) ⊎ ((answer ≡ some false) × (¬ Prime n))

pub Sieved-six :
    (j n : ℕ)
    → ¬ (2 ∣ n)
    → ¬ (3 ∣ n)
    → ¬ (6 * j + 5 ∣ n)
    → ¬ (6 * j + 5 + 2 ∣ n)
    → Sieved (6 * j + 5) n
    → Sieved (6 * j + 5 + 6) n
Sieved-six j n odd three first second below d big h divides =
    elim (Bool-cases (ltb d (6 * j + 5))) [
      | inl q ↦ below d big (ltb→lt d (6 * j + 5) q) divides
      | inr q ↦
          let at_least = ltb_false→le d (6 * j + 5) q in
          place (d - (6 * j + 5)) (omega (arith, at_least)) (omega (arith, h, at_least))
    ]
  where
    by_two : (e : ℕ) → d ≡ 2 * e → ⊥
    by_two e q = odd (Nat.dvd_trans 2 (subst (◌∣◌ 2) (sym q) (Nat.dvd-mul_right 2 e)) divides)

    by_three : (e : ℕ) → d ≡ 3 * e → ⊥
    by_three e q = three (Nat.dvd_trans 3 (subst (◌∣◌ 3) (sym q) (Nat.dvd-mul_right 3 e)) divides)

    place : (r : ℕ) → d ≡ 6 * j + 5 + r → r < 6 → ⊥
    place zero q l = first (subst (λ x. x ∣ n) (omega (arith, q)) divides)
    place (suc zero) q l = by_two (3 * j + 3) (omega (arith, q))
    place (suc (suc zero)) q l = second (subst (λ x. x ∣ n) (omega (arith, q)) divides)
    place (suc (suc (suc zero))) q l = by_two (3 * j + 4) (omega (arith, q))
    place (suc (suc (suc (suc zero)))) q l = by_three (2 * j + 3) (omega (arith, q))
    place (suc (suc (suc (suc (suc zero))))) q l = by_two (3 * j + 5) (omega (arith, q))
    place (suc (suc (suc (suc (suc (suc r)))))) q l = absurd (omega arith)

pub dvd_test : (d n : ℕ) → eqb (n % d) 0 ≡ true → d ∣ n
dvd_test d n h = Nat.dvd_of_mod-eq-zero d (eqb→eq (n % d) 0 h)

pub not_dvd_test : (d n : ℕ) → eqb (n % d) 0 ≡ false → ¬ (d ∣ n)
not_dvd_test d n h divides = absurd (ground (arith, h, Nat.mod-eq-zero_of_dvd d divides))

-- A divisor above 1 and below `n` leaves no prime.
pub not-Prime : (d n : ℕ) → 1 < d → d < n → d ∣ n → ¬ Prime n
not-Prime d n above below divides (big, only) = absurd (omega (arith, only d above divides, below))
