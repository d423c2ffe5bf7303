-- ===== src/Lotto/Select/Binomial.antt =====
-- `MselectN` is the binomial coefficient as long as the factorials fit an `int64_t`.
use native.Mathlib.Nat.{le_trans, mul-le-mul, mul_comm, pow-suc, pow-le-pow_right, mul-div_cancel}
use dsvalue.Prelude.{
  ℕ, zero, suc, ◌+◌, ◌-◌, ◌*◌, ◌/◌, ◌≤◌, ◌<◌, ◌^◌, ◌≡◌, refl, ap, ok, ◌>>=◌, arith,
}
use dsvalue.Prelude.Int.{pos, mul64, div64, wrap32, mul64-pos, div64-pos, wrap32-pos}
use dsvalue.Lotto.Select.{factorial_ℕ, factorial, select_ℕ, m_select_n}

-- Pascal's triangle.
unfoldable pub binom : ℕ → ℕ → ℕ
binom n zero = 1
binom zero (suc k) = 0
binom (suc n) (suc k) = binom n k + binom n (suc k)

fact : ℕ → ℕ
fact zero = 1
fact (suc n) = suc n * fact n

pub binom_above : (n k : ℕ) → n < k → binom n k ≡ 0
unfolding binom
binom_above n zero h = absurd (omega arith)
binom_above zero (suc k) h = refl
binom_above (suc n) (suc k) h =
    omega (arith, binom_above n k (omega arith), binom_above n (suc k) (omega arith))

pub binom_all : (n : ℕ) → binom n n ≡ 1
unfolding binom
binom_all zero = refl
binom_all (suc n) = omega (arith, binom_all n, binom_above n (suc n) (omega arith))

pub binom_pos : (n k : ℕ) → k ≤ n → 0 < binom n k
unfolding binom
binom_pos n zero h = omega arith
binom_pos zero (suc k) h = absurd (omega arith)
binom_pos (suc n) (suc k) h = omega (arith, binom_pos n k (omega arith))

pub binom_one : (n : ℕ) → binom n 1 ≡ n
unfolding binom
binom_one zero = refl
binom_one (suc n) = omega (arith, binom_one n)

binom_two-le : (n : ℕ) → binom n 2 ≤ n * n
unfolding binom
binom_two-le zero = omega arith
binom_two-le (suc n) = omega (arith, binom_two-le n, binom_one n)

-- Choices of two out of at most eleven.
pub binom_pairs : (n : ℕ) → n ≤ 11 → binom n 2 ≤ 121
binom_pairs n h = le_trans (binom_two-le n) (mul-le-mul h h)

binom-fact : (n k d : ℕ) → n ≡ k + d → binom n k * (fact k * fact d) ≡ fact n
unfolding binom fact
binom-fact n zero d e = let e' : d ≡ n = omega arith in rw e' (omega arith)
binom-fact zero (suc k) d e = absurd (omega arith)
binom-fact (suc n) (suc k) zero e =
    let e' : n ≡ k = omega arith in
    rw e' (rw (binom_all k, binom_above k (suc k) (omega arith)) (omega arith))
binom-fact (suc n) (suc k) (suc d) e =
    let b1 = binom-fact n k (suc d) (omega arith) in
    let b2 = binom-fact n (suc k) d (omega arith) in
    let e' : suc n ≡ suc k + suc d = omega arith in
    omega (
      arith,
      ap (λ (t : ℕ). suc k * t) b1,
      ap (λ (t : ℕ). suc d * t) b2,
      ap (λ (t : ℕ). t * fact n) e',
    )

fact_pos : (n : ℕ) → 0 < fact n
unfolding fact
fact_pos zero = omega arith
fact_pos (suc n) = grind (arith, fact_pos n)

fact_mono : (n d m : ℕ) → n + d ≡ m → fact n ≤ fact m
unfolding fact
fact_mono n zero m e = let e' : n ≡ m = omega arith in rw e' (omega arith)
fact_mono n (suc d) zero e = absurd (omega arith)
fact_mono n (suc d) (suc m) e = grind (arith, fact_mono n d m (omega arith))

fact_limit : (m : ℕ) → m ≤ 20 → fact m ≤ 2432902008176640000
unfolding fact
fact_limit m h = fact_mono m (20 - m) 20 (omega arith)

pub binom-le : (n k : ℕ) → binom n k ≤ 2 ^ n
unfolding binom
binom-le zero zero = omega arith
binom-le (suc n) zero = omega (arith, binom-le n zero, pow-suc 2 n)
binom-le zero (suc k) = omega arith
binom-le (suc n) (suc k) = omega (arith, binom-le n k, binom-le n (suc k), pow-suc 2 n)

pub binom_million : (m k : ℕ) → m ≤ 20 → binom m k ≤ 2 ^ 20
binom_million m k h = le_trans (binom-le m k) (pow-le-pow_right {n = 2} (omega arith) h)

pub binom_limit : (m k : ℕ) → m ≤ 20 → binom m k < 2 ^ 31
binom_limit m k h = omega (arith, binom-le m k, pow-le-pow_right {n = 2} (omega arith) h)

-- The factorials of 0 to 20 fit an `int64_t`.
factorial_exact : (m : ℕ) → m ≤ 20 → factorial (pos m) ≡ pos (fact m)
unfolding factorial factorial_ℕ fact
factorial_exact zero h = refl
factorial_exact (suc n) h =
    rw (factorial_exact n (omega arith), factorial_ℕ)
      (ground (arith, mul64-pos (suc n) (fact n), fact_limit (suc n) h))

factor-le : (b p f : ℕ) → b * p ≡ f → 0 < f → p ≤ f
factor-le zero p f e h = omega arith
factor-le (suc b) p f e h = omega arith

factor-pos : (b p f : ℕ) → b * p ≡ f → 0 < f → 0 < p
factor-pos b zero f e h = omega arith
factor-pos b (suc p) f e h = omega arith

-- The division of MselectN where nothing overflows.
select_quotient :
    (m n : ℕ)
    → m ≤ 20
    → n ≤ m
    → (div64 (factorial (pos m)) (mul64 (factorial (pos (m - n))) (factorial (pos n))) >>= λ q.
        ok (wrap32 q))
      ≡ ok (pos (binom m n))
select_quotient m n h k =
    rw (factorial_exact m h, factorial_exact n (omega arith), factorial_exact (m - n) (omega arith))
      (rw (mul64-pos (fact (m - n)) (fact n) (omega (arith, small, fact_limit m h))) (
        rw (div64-pos (fact m) (fact (m - n) * fact n) positive (omega (arith, fact_limit m h)))
          (rw (quotient, wrap32-pos (binom m n) (binom_limit m n h)))))
  where
    product : binom m n * (fact (m - n) * fact n) ≡ fact m
    product = rw (mul_comm (fact (m - n)) (fact n)) (binom-fact m n (m - n) (omega arith))

    small : fact (m - n) * fact n ≤ fact m
    small = factor-le (binom m n) (fact (m - n) * fact n) (fact m) product (fact_pos m)

    positive : 0 < fact (m - n) * fact n
    positive = factor-pos (binom m n) (fact (m - n) * fact n) (fact m) product (fact_pos m)

    quotient : fact m / (fact (m - n) * fact n) ≡ binom m n
    quotient = rw (← product) (mul-div_cancel (binom m n) positive)

-- MselectN(m, n) is C(m, n), also at n above m, as long as m is at most 20.
pub m_select_n-binom : (m n : ℕ) → m ≤ 20 → m_select_n (pos m) (pos n) ≡ ok (pos (binom m n))
unfolding m_select_n select_ℕ binom
m_select_n-binom m zero h = refl
m_select_n-binom m (suc n) h =
    let q = select_quotient m (suc n) h in ground (arith, binom_above m (suc n), binom_all m, q)
