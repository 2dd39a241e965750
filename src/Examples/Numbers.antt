-- ===== src/Examples/Numbers.antt =====
-- The integer functions: examples.
use landc_go.Num.{is_prime, gcd}
use landc_go.Num.Primes.{Answers}
use landc_go.Num.Trial.{is_prime-Answers}
use landc_go.Num.Divisors.{FoundGreatest, gcd-FoundGreatest}
use landc_go.Prelude.{arith, negsuc, pos}

is_prime-Answers_example : Answers 91 (is_prime (pos 91))
is_prime-Answers_example = is_prime-Answers 91 (omega arith)

gcd-FoundGreatest_example : FoundGreatest (pos 12) (negsuc 17) (gcd (pos 12) (negsuc 17))
gcd-FoundGreatest_example = gcd-FoundGreatest (pos 12) (negsuc 17)
