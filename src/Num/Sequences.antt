-- ===== src/Num/Sequences.antt =====
-- `Fibonacci` and `Factorial` against their recursive definitions.
use Prim.Native.Nat.{◌%◌, ◌*◌, ◌/◌}
use native.Mathlib.Nat
use landc_go.Num.{word, to_int, fibonacci, fibonacci_loop, factorial, factorial_loop}
use landc_go.Prelude.{pos, refl, suc, sym, zero, ℕ, ◌+◌, ◌≡◌, ap, arith, ◌∙◌}

unfoldable pub fib : ℕ → ℕ
fib zero = 0
fib (suc zero) = 1
fib (suc (suc n)) = fib n + fib (suc n)

unfoldable pub fact : ℕ → ℕ
fact zero = 1
fact (suc n) = suc n * fact n

to_int-mod : (n : ℕ) → to_int (n % word) ≡ to_int n
unfolding to_int
to_int-mod n = rw (Nat.mod-mod n word) refl

-- The loop, from two consecutive terms modulo the word.
fibonacci_loop-fib :
    (left n : ℕ)
    → fibonacci_loop left (fib n % word) (fib (suc n) % word) ≡ fib (left + suc n) % word
unfolding fibonacci_loop fib
fibonacci_loop-fib zero n = rw (Nat.zero-add (suc n)) refl
fibonacci_loop-fib (suc left) n =
    let next : (fib n % word + fib (suc n) % word) % word ≡ fib (suc (suc n)) % word =
      sym (Nat.add-mod (fib n) (fib (suc n)) word) in
    rw (next, fibonacci_loop-fib left (suc n)) (ap (λ k. fib k % word) (omega arith))

-- `Fibonacci` is the Fibonacci number, wrapped to 64 bits.
pub fibonacci-fib : (n : ℕ) → fibonacci (pos n) ≡ to_int (fib n)
unfolding fibonacci fib
fibonacci-fib zero = refl
fibonacci-fib (suc zero) = refl
fibonacci-fib (suc (suc left)) =
    rw (fibonacci_loop-fib left 1, Nat.add-suc left 1, Nat.add-suc left 0, Nat.add-zero left)
      (to_int-mod (fib (suc (suc left))))

mod-mul : (n k : ℕ) → n % word * k % word ≡ n * k % word
mod-mul n k =
    let multiple = word * (n / word) in
    let apart : n * k ≡ multiple * k + n % word * k =
      ap (λ x. x * k) (sym (Nat.div-add-mod n word)) ∙ Nat.add-mul multiple (n % word) k in
    sym (
      rw
        (
          apart,
          Nat.mul_assoc word (n / word) k,
          Nat.add_comm (word * (n / word * k)) (n % word * k),
        )
        (Nat.add-mul-mod_self_left (n % word * k) word (n / word * k)))

factorial_loop-fact :
    (left n : ℕ) → factorial_loop left (suc n) (fact n % word) ≡ fact (left + n) % word
unfolding factorial_loop fact
factorial_loop-fact zero n = rw (Nat.zero-add n) refl
factorial_loop-fact (suc left) n =
    rw (mod-mul (fact n) (suc n), Nat.mul_comm (fact n) (suc n), factorial_loop-fact left (suc n))
      (ap (λ k. fact k % word) (omega arith))

-- `Factorial` is the factorial, wrapped to 64 bits.
pub factorial-fact : (n : ℕ) → factorial (pos n) ≡ to_int (fact n)
unfolding factorial fact
factorial-fact zero = refl
factorial-fact (suc left) =
    rw (factorial_loop-fact left 1, Nat.add-suc left 0, Nat.add-zero left)
      (to_int-mod (fact (suc left)))
