-- ===== src/Num/Divisors.antt =====
-- The greatest common divisor of `GCD`.
use Prim.Native.Nat.{◌%◌, ◌∣◌}
use native.Mathlib.Nat
use landc_go.Num.{gcd_fueled, gcd, magnitude, negate, rem_ℤ, ℤ}
use landc_go.Prelude.{Option, arith, negsuc, pos, refl, some, subst, suc, sym, zero, ℕ, ℤ, ◌<◌, ◌≡◌}

magnitude-negate : (n : ℕ) → magnitude (negate n) ≡ n
magnitude-negate zero = refl
magnitude-negate (suc n) = refl

magnitude-rem_ℤ : (a b : ℤ) → magnitude (rem_ℤ a b) ≡ magnitude a % magnitude b
unfolding rem_ℤ
magnitude-rem_ℤ (pos a) b = refl
magnitude-rem_ℤ (negsuc a) b = magnitude-negate (suc a % magnitude b)

-- `g` divides both numbers, and whatever divides both divides `g`.
pub record Greatest (a b g : ℤ) : Type 0 where
  pub first : magnitude g ∣ magnitude a
  pub second : magnitude g ∣ magnitude b
  pub top : (c : ℕ) → c ∣ magnitude a → c ∣ magnitude b → c ∣ magnitude g

abbrev pub FoundGreatest : ℤ → ℤ → Option ℤ → Type 0
FoundGreatest a b result = (g : ℤ) × (result ≡ some g) × Greatest a b g

Greatest-zero : (a : ℤ) → Greatest a (pos 0) a
Greatest-zero a = record {
  first = Nat.dvd_refl (magnitude a);
  second = Nat.dvd-zero (magnitude a);
  top = λ c l r. l;
}

-- A round of the loop keeps the common divisors.
Greatest-rem_ℤ : (a b g : ℤ) → Greatest b (rem_ℤ a b) g → Greatest a b g
Greatest-rem_ℤ a b g found =
    let step = magnitude-rem_ℤ a b in
    record {
      first =
          (Nat.dvd-mod_iff (magnitude g) found.first).0
            (subst (◌∣◌ (magnitude g)) step found.second);
      second = found.first;
      top = λ c l r. found.top c r (subst (◌∣◌ c) (sym step) ((Nat.dvd-mod_iff c r).1 l));
    }

smaller :
    (a b : ℤ) (fuel : ℕ) → 0 < magnitude b → magnitude b < suc fuel → magnitude (rem_ℤ a b) < fuel
smaller a b fuel positive enough =
    let below = Nat.mod-lt (magnitude a) positive in
    let step = magnitude-rem_ℤ a b in omega (arith, below, step, enough)

gcd_fueled-FoundGreatest :
    (fuel : ℕ) (a b : ℤ) → magnitude b < fuel → FoundGreatest a b (gcd_fueled fuel a b)
unfolding gcd_fueled
gcd_fueled-FoundGreatest zero a b enough = absurd (omega (arith, enough))
gcd_fueled-FoundGreatest (suc fuel) a (pos zero) enough = (a, refl, Greatest-zero a)
gcd_fueled-FoundGreatest (suc fuel) a (pos (suc n)) enough =
    let (g, q, found) =
      gcd_fueled-FoundGreatest fuel (pos (suc n)) (rem_ℤ a (pos (suc n)))
        (smaller a (pos (suc n)) fuel (omega arith) enough) in
    (g, q, Greatest-rem_ℤ a (pos (suc n)) g found)
gcd_fueled-FoundGreatest (suc fuel) a (negsuc n) enough =
    let (g, q, found) =
      gcd_fueled-FoundGreatest fuel (negsuc n) (rem_ℤ a (negsuc n))
        (smaller a (negsuc n) fuel (omega arith) enough) in
    (g, q, Greatest-rem_ℤ a (negsuc n) g found)

-- `GCD` ends, with a common divisor of its arguments that every common divisor divides. Divisors are
-- compared without their signs.
pub gcd-FoundGreatest : (a b : ℤ) → FoundGreatest a b (gcd a b)
unfolding gcd
gcd-FoundGreatest a b = gcd_fueled-FoundGreatest (suc (magnitude b)) a b (omega arith)
