-- ===== src/Prelude/Double.antt =====
-- Whole numbers as `double`: 53 bits, rounded to the nearest, a tie to the even neighbour.
use Prim.Native.Nat.{ℕ, zero, suc, ◌+◌, ◌*◌, ◌/◌, ◌%◌, ◌^◌, ◌<◌}
use mathlib.Core.Path.{◌≡◌, refl, ap, ◌∙◌}
use native.Mathlib.Omega.{arith}
use dsvalue.Prelude.Tests.{ltb, ◌==◌, if◌then◌else◌}
use dsvalue.Prelude.Results.{Result, ok, err, undefined}
use dsvalue.Prelude.Int.{ℤ, pos, negsuc, neg_ℕ, ◌+ℤ◌, ◌*ℤ◌}

-- How many low bits do not fit; the fuel is the most that is looked at.
excess_bits : ℕ → ℕ → ℕ
excess_bits zero n = 0
excess_bits (suc fuel) n =
    let rest = excess_bits fuel (n / 2) in if ltb n (2 ^ 53) then 0 else suc rest

-- The nearest multiple of `unit`.
nearest : ℕ → ℕ → ℕ
nearest unit n =
    let q = n / unit in
    let r = n % unit in
    if ltb (2 * r) unit
    then q * unit
    else if ltb unit (2 * r)
    then suc q * unit
    else if q % 2 == 0
    then q * unit
    else suc q * unit

-- 75 bits above the 53 are more than a product of two `int64_t` has.
round53 : ℕ → ℕ
unfolding excess_bits nearest
round53 n = nearest (2 ^ excess_bits 75 n) n

unfoldable pub to_double : ℤ → ℤ
unfolding round53
to_double (pos n) = pos (round53 n)
to_double (negsuc n) = neg_ℕ (round53 (suc n))

unfoldable pub add_double : ℤ → ℤ → ℤ
unfolding to_double
add_double a b = to_double (a +ℤ b)

unfoldable pub mul_double : ℤ → ℤ → ℤ
unfolding to_double
mul_double a b = to_double (a *ℤ b)

-- The conversion to `int64_t`, undefined out of its range.
unfoldable pub to_int64 : ℤ → Result ℤ
to_int64 (pos n) = if ltb n (2 ^ 63) then ok (pos n) else err undefined
to_int64 (negsuc n) = if ltb n (2 ^ 63) then ok (negsuc n) else err undefined

no_excess : (fuel n : ℕ) → n < 2 ^ 53 → excess_bits (suc fuel) n ≡ 0
unfolding excess_bits
no_excess fuel n h = ground arith

nearest_one : (n : ℕ) → nearest 1 n ≡ n
unfolding nearest
nearest_one n = ground arith

-- Up to 53 bits nothing is lost.
pub to_double-pos : (n : ℕ) → n < 2 ^ 53 → to_double (pos n) ≡ pos n
unfolding to_double round53
to_double-pos n h = rw (no_excess 74 n h) (ap pos (nearest_one n))

pub add_double-pos : (a b : ℕ) → a + b < 2 ^ 53 → add_double (pos a) (pos b) ≡ pos (a + b)
unfolding add_double ◌+ℤ◌
add_double-pos a b h = ap to_double plus ∙ to_double-pos (a + b) h
  where
    plus : pos a +ℤ pos b ≡ pos (a + b)
    plus = ground arith

pub mul_double-pos : (a b : ℕ) → a * b < 2 ^ 53 → mul_double (pos a) (pos b) ≡ pos (a * b)
unfolding mul_double ◌*ℤ◌
mul_double-pos a b h = ap to_double times ∙ to_double-pos (a * b) h
  where
    times : pos a *ℤ pos b ≡ pos (a * b)
    times = ground arith

pub to_int64-pos : (n : ℕ) → n < 2 ^ 53 → to_int64 (pos n) ≡ ok (pos n)
unfolding to_int64
to_int64-pos n h = ground arith

-- What is not negative stays so.
pub to_double-NonNeg : (n : ℕ) → (m : ℕ) × (to_double (pos n) ≡ pos m)
unfolding to_double
to_double-NonNeg n = (round53 n, refl)

pub add_double-NonNeg : (a b : ℕ) → (m : ℕ) × (add_double (pos a) (pos b) ≡ pos m)
unfolding add_double ◌+ℤ◌
add_double-NonNeg a b =
    let plus : pos a +ℤ pos b ≡ pos (a + b) = ground arith in
    let (m, e) = to_double-NonNeg (a + b) in (m, ap to_double plus ∙ e)

pub mul_double-NonNeg : (a b : ℕ) → (m : ℕ) × (mul_double (pos a) (pos b) ≡ pos m)
unfolding mul_double ◌*ℤ◌
mul_double-NonNeg a b =
    let times : pos a *ℤ pos b ≡ pos (a * b) = ground arith in
    let (m, e) = to_double-NonNeg (a * b) in (m, ap to_double times ∙ e)
