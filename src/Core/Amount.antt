-- ===== src/Core/Amount.antt =====
-- The compression of amounts can be undone.
use native.Mathlib.Nat.{mul_assoc}
use dsvalue.Prelude.{
  ℕ, zero, suc, ◌+◌, ◌-◌, ◌*◌, ◌/◌, ◌%◌, ◌^◌, ◌≤◌, ◌<◌, ◌≡◌, refl, true, false, sym, ap, ◌∙◌, ok,
  arith, Bool-cases, inl, inr, ◌==◌, ltb,
}
use dsvalue.Core.{
  strip_zeros, encode_stripped, compress_amount, times_ten, decode_parts, decompress_amount,
}

ten_to : ℕ → ℕ
ten_to zero = 1
ten_to (suc e) = 10 * ten_to e

ten_to-pos : (e : ℕ) → 0 < ten_to e
unfolding ten_to
ten_to-pos zero = omega arith
ten_to-pos (suc e) = omega (arith, ten_to-pos e)

le_times : (n k : ℕ) → 0 < k → n ≤ n * k
le_times n (suc k) h = omega arith
le_times n zero h = absurd (omega arith)

shift_ten : (n q s p : ℕ) → n ≡ 10 * q → q ≡ s * p → n ≡ s * (10 * p)
shift_ten n q s p e f = rw (e, f) (omega arith)

-- What the loop strips.
strip_zeros-value : (left n : ℕ) → n ≡ (strip_zeros left n).0 * ten_to (strip_zeros left n).1
unfolding strip_zeros ten_to
strip_zeros-value zero n = omega arith
strip_zeros-value (suc left) n = elim (Bool-cases (n % 10 == 0)) [
  | inl e ↦
      let tens : n ≡ 10 * (n / 10) = ground arith in
      rw e (shift_ten n (n / 10) _ _ tens (strip_zeros-value left (n / 10)))
  | inr e ↦ rw e (omega arith)
]

strip_zeros-digit :
    (left n : ℕ) → (strip_zeros left n).1 < left → ((strip_zeros left n).0 % 10 == 0) ≡ false
unfolding strip_zeros
strip_zeros-digit zero n h = absurd (omega arith)
strip_zeros-digit (suc left) n h = elim (Bool-cases (n % 10 == 0)) [
  | inl e ↦ ground (arith, strip_zeros-digit left (n / 10))
  | inr e ↦ ground arith
]

strip_zeros-le : (left n : ℕ) → (strip_zeros left n).1 ≤ left
unfolding strip_zeros
strip_zeros-le zero n = omega arith
strip_zeros-le (suc left) n = ground (arith, strip_zeros-le left (n / 10))

times_ten-ten_to : (e n : ℕ) → n * ten_to e < 2 ^ 64 → times_ten e n ≡ n * ten_to e
unfolding times_ten ten_to
times_ten-ten_to zero n h = omega arith
times_ten-ten_to (suc e) n h =
    ap (times_ten e) (omega (arith, small))
    ∙ times_ten-ten_to e (n * 10) (omega (arith, same))
    ∙ same
  where
    same : n * 10 * ten_to e ≡ n * (10 * ten_to e)
    same = mul_assoc n 10 (ten_to e)

    small : n * 10 < 2 ^ 64
    small = omega (arith, same, le_times (n * 10) (ten_to e) (ten_to-pos e))

factor-pos : (n m k : ℕ) → 0 < n → n ≡ m * k → 0 < m
factor-pos n zero k h e = absurd (omega arith)
factor-pos n (suc m) k h e = omega arith

decompress-parts : (y e : ℕ) → e ≤ 9 → decompress_amount (suc (10 * y + e)) ≡ decode_parts e y
unfolding decompress_amount
decompress-parts y e h =
    let digit : (10 * y + e) % 10 ≡ e = omega arith in
    let front : (10 * y + e) / 10 ≡ y = omega arith in rw (digit, front) refl

decode-few :
    (m e : ℕ)
    → ltb e 9 ≡ true
    → (m % 10 == 0) ≡ false
    → m < 2 ^ 60
    → decode_parts e (9 * (m / 10) + (m % 10 - 1)) ≡ times_ten e m
unfolding decode_parts
decode-few m e l d h = rw l (ap (times_ten e) number)
  where
    digit : 1 ≤ m % 10
    digit = ground arith

    number :
        ((9 * (m / 10) + (m % 10 - 1)) / 9 * 10 + ((9 * (m / 10) + (m % 10 - 1)) % 9 + 1)) % 2 ^ 64
        ≡ m
    number = omega (arith, digit)

decode-nine : (m e : ℕ) → 0 < m → ltb e 9 ≡ false → e ≤ 9 → decode_parts 9 (m - 1) ≡ times_ten e m
decode-nine m e p l le =
    let nine : e ≡ 9 = ground arith in
    let back : m - 1 + 1 ≡ m = omega arith in rw nine (unfold decode_parts in ap (times_ten 9) back)

-- The two halves of the compression, on a number without trailing zeros.
decode-encode_stripped :
    (m e : ℕ)
    → 0 < m
    → m < 2 ^ 60
    → e ≤ 9
    → (e < 9 → (m % 10 == 0) ≡ false)
    → (x : ℕ) × (encode_stripped m e ≡ ok x) × (decompress_amount x ≡ times_ten e m)
decode-encode_stripped m e p h le digit = elim (Bool-cases (ltb e 9)) [
  | inl l ↦
      let d = digit (ground arith) in
      (
        suc (10 * (9 * (m / 10) + (m % 10 - 1)) + e),
        unfold encode_stripped in ground arith,
        decompress-parts (9 * (m / 10) + (m % 10 - 1)) e le ∙ decode-few m e l d h,
      )
  | inr l ↦ (
    suc (10 * (m - 1) + 9),
    unfold encode_stripped in ground arith,
    decompress-parts (m - 1) 9 (omega arith) ∙ decode-nine m e p l le,
  )
]

compress_amount-shape :
    (n : ℕ)
    → (n == 0) ≡ false
    → compress_amount n ≡ encode_stripped (strip_zeros 9 n).0 (strip_zeros 9 n).1
compress_amount-shape n e = unfold compress_amount in rw e refl

-- CompressAmount takes every amount below 2^60, which is far above the greatest amount of money, to a
-- number that DecompressAmount takes back to it.
pub decompress_amount-compress_amount :
    (n : ℕ) → n < 2 ^ 60 → (x : ℕ) × (compress_amount n ≡ ok x) × (decompress_amount x ≡ n)
decompress_amount-compress_amount zero h =
    (0, unfold compress_amount in refl, unfold decompress_amount in refl)
decompress_amount-compress_amount (suc k) h =
    stripped (strip_zeros 9 (suc k)).0 (strip_zeros 9 (suc k)).1
      (compress_amount-shape (suc k) (ground arith)) (strip_zeros-value 9 (suc k))
      (strip_zeros-le 9 (suc k)) (strip_zeros-digit 9 (suc k))
  where
    stripped :
        (m e : ℕ)
        → compress_amount (suc k) ≡ encode_stripped m e
        → suc k ≡ m * ten_to e
        → e ≤ 9
        → (e < 9 → (m % 10 == 0) ≡ false)
        → (x : ℕ) × (compress_amount (suc k) ≡ ok x) × (decompress_amount x ≡ suc k)
    stripped m e shape value le digit =
        let less = le_times m (ten_to e) (ten_to-pos e) in
        let (x, f, g) =
          decode-encode_stripped m e (factor-pos (suc k) m (ten_to e) (omega arith) value)
            (omega arith) le digit in
        (x, shape ∙ f, g ∙ times_ten-ten_to e m (omega arith) ∙ sym value)
