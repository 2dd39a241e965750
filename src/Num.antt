-- ===== src/Num.antt =====
-- tools/num/number.go: functions on Go's `int`, of 64 bits. Products and sums that may leave the type
-- are wrapped.
use Prim.Native.Nat.{◌%◌, ◌/◌, ◌*◌}
pub mod Primes
pub mod Trial
pub mod Divisors
pub mod Sequences
use landc_go.Prelude.{
  Bool, Option, eqb, false, if◌then◌else◌, is_zero_ℤ, leb, ltb, negsuc, none, pos, some, suc, true,
  zero, ℕ, ℤ, ◌+◌, ◌-◌, ◌||◌,
}

abbrev pub half : ℕ
half = 9223372036854775808

abbrev pub word : ℕ
word = 18446744073709551616

-- The 64-bit integer of a number that is not negative.
unfoldable pub to_int : ℕ → ℤ
to_int n = let m = n % word in if ltb m half then pos m else negsuc (word - 1 - m)

abbrev pub magnitude : ℤ → ℕ
magnitude (pos n) = n
magnitude (negsuc n) = suc n

abbrev pub negate : ℕ → ℤ
negate zero = pos zero
negate (suc n) = negsuc n

-- Go's `%`: the sign is that of the left operand.
unfoldable pub rem_ℤ : ℤ → ℤ → ℤ
rem_ℤ (pos a) b = pos (a % magnitude b)
rem_ℤ (negsuc a) b = negate (suc a % magnitude b)

-- The loop of `GCD`; `none` stands for fuel that has run out.
unfoldable pub gcd_fueled : ℕ → ℤ → ℤ → Option ℤ
unfolding rem_ℤ
gcd_fueled zero a b = none
gcd_fueled (suc fuel) a b = elim (is_zero_ℤ b) [
  | true ↦ some a
  | false ↦ gcd_fueled fuel b (rem_ℤ a b)
]

unfoldable pub gcd : ℤ → ℤ → Option ℤ
unfolding gcd_fueled
gcd a b = gcd_fueled (suc (magnitude b)) a b

-- The test `i*i <= num`, with a product that may wrap to a negative integer.
unfoldable pub square_within : (i num : ℕ) → Bool
square_within i num = let m = i * i % word in leb half m || leb m num

-- The loop of `IsPrime`.
unfoldable pub trial_fueled : ℕ → (i num : ℕ) → Option Bool
unfolding square_within
trial_fueled zero i num = none
trial_fueled (suc fuel) i num = elim (square_within i num) [
  | false ↦ some true
  | true ↦ elim (eqb (num % i) 0 || eqb (num % (i + 2)) 0) [
    | true ↦ some false
    | false ↦ trial_fueled fuel (i + 6) num
  ]
]

unfoldable pub is_prime : ℤ → Option Bool
unfolding trial_fueled
is_prime (negsuc n) = some false
is_prime (pos n) =
    if leb n 1
    then some false
    else (if leb n 3
        then some true
        else (if eqb (n % 2) 0 || eqb (n % 3) 0 then some false else trial_fueled n 5 n))

-- The loop of `Fibonacci`, with the rounds that are left: `a, b = b, a+b`.
unfoldable pub fibonacci_loop : ℕ → (a b : ℕ) → ℕ
fibonacci_loop zero a b = b
fibonacci_loop (suc left) a b = fibonacci_loop left b ((a + b) % word)

unfoldable pub fibonacci : ℤ → ℤ
unfolding fibonacci_loop to_int
fibonacci (negsuc n) = pos 0
fibonacci (pos zero) = pos 0
fibonacci (pos (suc zero)) = pos 1
fibonacci (pos (suc (suc left))) = to_int (fibonacci_loop left 1 1)

-- The loop of `Factorial`.
unfoldable pub factorial_loop : ℕ → (i result : ℕ) → ℕ
factorial_loop zero i result = result
factorial_loop (suc left) i result = factorial_loop left (suc i) (result * i % word)

unfoldable pub factorial : ℤ → ℤ
unfolding factorial_loop to_int
factorial (negsuc n) = pos 0
factorial (pos zero) = pos 1
factorial (pos (suc left)) = to_int (factorial_loop left 2 1)
