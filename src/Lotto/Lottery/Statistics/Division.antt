-- ===== src/Lotto/Lottery/Statistics/Division.antt =====
-- The chain of divisions that makes an entry of the scheme.
use native.Mathlib.Nat.{div-eq_of_lt, div-le_self}
use dsvalue.Prelude.{ℕ, zero, suc, ◌/◌, ◌^◌, ◌<◌, ◌≡◌, refl, ap, ◌∙◌, ok, arith}
use dsvalue.Prelude.Int.{
  ℤ, pos, negsuc, neg_part, ◌<ℤ◌, mul64, div64, wrap64, ◌*ℤ◌, div64-pos, neg_ℕ,
}
use dsvalue.Lotto.Lottery.Statistics.{scheme_value}

-- An integer that is not negative.
abbrev pub NonNeg : ℤ → Type 0
NonNeg z = neg_part z ≡ 0

zero_times : (v : ℤ) → mul64 (pos 0) v ≡ pos 0
unfolding mul64 ◌*ℤ◌ wrap64
zero_times (pos n) = ground arith
zero_times (negsuc n) = ground arith

-- A quotient with a greater divisor, on both sides of 0.
div64_small : (q t : ℕ) → q < t → q < 2 ^ 63 → div64 (pos q) (pos t) ≡ ok (pos 0)
div64_small q t l h = div64-pos q t (omega arith) h ∙ ap (λ n. ok (pos n)) (div-eq_of_lt l)

wrap64-neg_ℕ : (q : ℕ) → q < 2 ^ 63 → wrap64 (neg_ℕ q) ≡ neg_ℕ q
unfolding wrap64
wrap64-neg_ℕ zero h = refl
wrap64-neg_ℕ (suc q) h = ground arith

div64_small_neg : (q t : ℕ) → q < t → q < 2 ^ 63 → div64 (neg_ℕ q) (pos t) ≡ ok (pos 0)
div64_small_neg zero t l h = div64_small 0 t l h
div64_small_neg (suc q) (suc t) l h =
    unfold div64 in rw (div-eq_of_lt l) (ap ok (wrap64-neg_ℕ 0 (omega arith)))
div64_small_neg (suc q) zero l h = absurd (omega arith)

div64-negsuc : (m c : ℕ) → m < 2 ^ 60 → div64 (pos m) (negsuc c) ≡ ok (neg_ℕ (m / suc c))
unfolding div64
div64-negsuc m c h = ap ok (wrap64-neg_ℕ (m / suc c) (omega (arith, div-le_self m (suc c))))

pub NonNeg-pos : (z : ℤ) → NonNeg z → (n : ℕ) × (z ≡ pos n)
NonNeg-pos (pos n) h = (n, refl)
NonNeg-pos (negsuc n) h = absurd (omega arith)

-- The limit of a level, divided by the coins of a type and then by the greater total, is 0.
pub scheme_value-zero :
    (m : ℕ) (coin total value entry : ℤ)
    → m < 2 ^ 60
    → pos m <ℤ total
    → scheme_value (pos m) coin total value ≡ ok entry
    → entry ≡ pos 0
unfolding scheme_value
scheme_value-zero m coin (negsuc t) value entry h l e = absurd (omega arith)
scheme_value-zero m (pos zero) (pos t) value entry h l e = unfold div64 in cc
scheme_value-zero m (pos (suc c)) (pos t) value entry h l e =
    let le = div-le_self m (suc c) in
    let first = div64-pos m (suc c) (omega arith) (omega arith) in
    let second = div64_small (m / suc c) t (omega arith) (omega arith) in
    let third = zero_times value in ground (arith, first, second, third)
scheme_value-zero m (negsuc c) (pos t) value entry h l e =
    let le = div-le_self m (suc c) in
    let first = div64-negsuc m c h in
    let second = div64_small_neg (m / suc c) t (omega arith) (omega arith) in
    let third = zero_times value in ground (arith, first, second, third)
