-- ===== src/Serialize/CompactSize.antt =====
-- Sizes in a stream (src/serialize.h): ReadCompactSize takes exactly what WriteCompactSize writes.
use dsvalue.Prelude.{
  ℕ, zero, suc, ◌+◌, ◌*◌, ◌/◌, ◌%◌, ◌^◌, ◌<◌, ◌≤◌, ◌≡◌, refl, List, [], ◌∷◌, ◌++◌, ok, ltb, ◌==◌,
  length, arith, Bool-cases, inl, inr, All, ap, >>=-eq-ok, ◌∙◌,
}
use dsvalue.Serialize.{
  write_bytes, read_bytes, write_compact_size, read_compact_size, get_size_of_compact_size,
  max_size, read_long, read_size_form,
}
use native.Mathlib.Nat.{div-add-mod}

abbrev pub AreBytes : List ℕ → Type 0
AreBytes = All (λ x. x < 256)

-- A number of `size` bytes reads back.
pub read_bytes-write_bytes :
    (size n : ℕ) (rest : List ℕ)
    → n < 256 ^ size
    → read_bytes size (write_bytes size n ++ rest) ≡ ok (n, rest)
unfolding write_bytes read_bytes
read_bytes-write_bytes zero n rest h = ground arith
read_bytes-write_bytes (suc size) n rest h =
    ground (arith, read_bytes-write_bytes size (n / 256) rest (omega arith), div-add-mod n 256)

pub length-write_bytes : (size n : ℕ) → length (write_bytes size n) ≡ size
unfolding write_bytes
length-write_bytes zero n = refl
length-write_bytes (suc size) n = omega (arith, length-write_bytes size (n / 256))

-- The bytes that were read are those of the number.
pub write_bytes-read_bytes :
    (size n : ℕ) (is rest : List ℕ)
    → AreBytes is
    → read_bytes size is ≡ ok (n, rest)
    → (is ≡ write_bytes size n ++ rest) × (n < 256 ^ size) × AreBytes rest
unfolding write_bytes read_bytes
write_bytes-read_bytes zero n is rest b h =
    let same : is ≡ rest = cc in (ground arith, ground arith, rw (← same) b)
write_bytes-read_bytes (suc size) n [] rest b h = cc
write_bytes-read_bytes (suc size) n (x ∷ is) rest b h =
    let (got, e, f) = >>=-eq-ok (read_bytes size is) _ h in
    let (shape, bound, rest_bytes) = write_bytes-read_bytes size got.0 is got.1 b.1 e in
    let number : x + 256 * got.0 ≡ n = ground arith in
    let left : got.1 ≡ rest = ground arith in
    (
      step size x got.0 n is rest b.0 number (shape ∙ rw left refl),
      omega arith,
      rw (← left) rest_bytes,
    )
  where
    step :
        (size x q n : ℕ) (is rest : List ℕ)
        → x < 256
        → x + 256 * q ≡ n
        → is ≡ write_bytes size q ++ rest
        → x ∷ is ≡ (n % 256) ∷ write_bytes size (n / 256) ++ rest
    step size x q n is rest b e h =
        let low : n % 256 ≡ x = omega arith in
        let high : n / 256 ≡ q = omega arith in rw (low, high, h) refl

-- ReadCompactSize reads back every size that is allowed, and leaves what follows it; the bytes are as
-- many as GetSizeOfCompactSize says.
pub read_compact_size-write_compact_size :
    (n : ℕ) (rest : List ℕ)
    → n ≤ max_size
    → (read_compact_size (write_compact_size n ++ rest) ≡ ok (n, rest))
      × (length (write_compact_size n) ≡ get_size_of_compact_size n)
unfolding write_compact_size read_compact_size get_size_of_compact_size
read_compact_size-write_compact_size n rest h = (
  ground (arith, read_bytes-write_bytes 2 n rest, read_bytes-write_bytes 4 n rest),
  ground (arith, length-write_bytes 1 n, length-write_bytes 2 n, length-write_bytes 4 n),
)

-- The long forms: what follows the first byte is the number, and it is not below `least`.
read_long-eq_ok :
    (size least n : ℕ) (is rest : List ℕ)
    → AreBytes is
    → read_long size least is ≡ ok (n, rest)
    → (is ≡ write_bytes size n ++ rest) × (least ≤ n) × (n < 256 ^ size)
read_long-eq_ok size least n is rest b h =
    let (got, e, f) = >>=-eq-ok (read_bytes size is) _ h in
    let same : got ≡ (n, rest) = ground arith in
    let least_le : least ≤ got.0 = ground arith in
    let (shape, bound, _) = write_bytes-read_bytes size n is rest b (e ∙ ap ok same) in
    (shape, rw same at least_le, bound)

read_size_form-eq_ok :
    (c n : ℕ) (is rest : List ℕ)
    → c < 256
    → AreBytes is
    → n ≤ max_size
    → read_size_form c is ≡ ok (n, rest)
    → c ∷ is ≡ write_compact_size n ++ rest
unfolding write_compact_size
read_size_form-eq_ok c n is rest k b m h = elim (Bool-cases (ltb c 253)) [
  | inl e ↦ ground arith
  | inr e ↦ elim (Bool-cases (c == 253)) [
    | inl l ↦
        let r : read_long 2 253 is ≡ ok (n, rest) = rw (← h, e, l) refl in
        let (shape, low, high) = read_long-eq_ok 2 253 n is rest b r in ground arith
    | inr l ↦ elim (Bool-cases (c == 254)) [
      | inl l' ↦
          let r : read_long 4 0x10000 is ≡ ok (n, rest) = rw (← h, e, l, l') refl in
          let (shape, low, high) = read_long-eq_ok 4 0x10000 n is rest b r in ground arith
      | inr l' ↦
          let r : read_long 8 0x100000000 is ≡ ok (n, rest) = rw (← h, e, l, l') refl in
          let (shape, low, high) = read_long-eq_ok 8 0x100000000 n is rest b r in
          absurd (omega arith)
    ]
  ]
]

-- ReadCompactSize accepts of the encodings of a size only the one that WriteCompactSize writes, and
-- no size above the greatest.
pub read_compact_size-canonical :
    (n : ℕ) (is rest : List ℕ)
    → AreBytes is
    → read_compact_size is ≡ ok (n, rest)
    → (is ≡ write_compact_size n ++ rest) × (n ≤ max_size)
unfolding read_compact_size
read_compact_size-canonical n [] rest b h = cc
read_compact_size-canonical n (c ∷ is) rest b h =
    let (got, e, f) = >>=-eq-ok (read_size_form c is) _ h in
    let same : got ≡ (n, rest) = ground arith in
    let most : n ≤ max_size = ground arith in
    (read_size_form-eq_ok c n is rest b.0 b.1 most (e ∙ ap ok same), most)
