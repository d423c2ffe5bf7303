-- ===== src/Coins/Codec/Mask.antt =====
-- The mask of CCoins, written and read back (src/coins.h, coins.cpp).
use dsvalue.Prelude.{
  ℕ, zero, suc, ◌+◌, ◌-◌, ◌*◌, ◌/◌, ◌%◌, ◌<◌, ◌≤◌, ◌≡◌, refl, ◌∙◌, Bool, true, false, List, [], ◌∷◌,
  ◌++◌, map, ok, if◌then◌else◌, ◌==◌, length, take, drop, arith, Bool-cases, inl, inr,
}
use dsvalue.Coins.Undo.{flag_of}
use dsvalue.Coins.Codec.{group, is_used, count_bytes, byte_of, bits_of, read_mask}

-- The flags that are set are those of `fs`: behind its end none is.
abbrev pub IsPadded : List Bool → List Bool → Type 0
IsPadded [] [] = Unit
IsPadded [] (g ∷ gs) = (g ≡ false) × IsPadded [] gs
IsPadded (f ∷ fs) [] = ⊥
IsPadded (f ∷ fs) (g ∷ gs) = (f ≡ g) × IsPadded fs gs

-- The last flag is set.
abbrev pub EndsTrue : List Bool → Type 0
EndsTrue [] = Unit
EndsTrue (f ∷ []) = f ≡ true
EndsTrue (f ∷ g ∷ fs) = EndsTrue (g ∷ fs)

-- The last byte of the mask is not 0.
abbrev pub LastUsed : List (List Bool) → Type 0
LastUsed [] = Unit
LastUsed (g ∷ []) = is_used g ≡ true
LastUsed (g ∷ h ∷ gs) = LastUsed (h ∷ gs)

abbrev pub count_used : List (List Bool) → ℕ
count_used [] = 0
count_used (g ∷ gs) = flag_of (is_used g) + count_used gs

pub EndsTrue-drop : (n : ℕ) (fs : List Bool) → EndsTrue fs → EndsTrue (drop n fs)
EndsTrue-drop zero fs h = h
EndsTrue-drop (suc n) [] h = tt
EndsTrue-drop (suc n) (f ∷ []) h = EndsTrue-drop n [] tt
EndsTrue-drop (suc n) (f ∷ g ∷ fs) h = EndsTrue-drop n (g ∷ fs) h

EndsTrue-used :
    (n : ℕ) (fs : List Bool)
    → length fs ≤ n
    → 0 < length fs
    → EndsTrue fs
    → is_used (take n fs) ≡ true
EndsTrue-used n [] h k e = absurd (omega arith)
EndsTrue-used zero (f ∷ fs) h k e = absurd (omega arith)
EndsTrue-used (suc n) (f ∷ []) h k e = rw e refl
EndsTrue-used (suc n) (f ∷ g ∷ fs) h k e =
    ground (arith, EndsTrue-used n (g ∷ fs) (omega arith) (omega arith) e)

length-drop8 : (n : ℕ) (fs : List Bool) → length (drop n fs) ≡ length fs - n
length-drop8 zero fs = omega arith
length-drop8 (suc n) [] = omega arith
length-drop8 (suc n) (f ∷ fs) = omega (arith, length-drop8 n fs)

-- As many groups as there are rounds: the last one is used.
pub group-LastUsed :
    (n : ℕ) (fs : List Bool)
    → length fs ≤ 8 * n
    → 8 * n < length fs + 8
    → EndsTrue fs
    → LastUsed (group n fs)
group-LastUsed zero fs h k e = tt
group-LastUsed (suc zero) fs h k e = EndsTrue-used 8 fs (omega arith) (omega arith) e
group-LastUsed (suc (suc n)) fs h k e =
    group-LastUsed (suc n) (drop 8 fs) (omega (arith, length-drop8 8 fs))
      (omega (arith, length-drop8 8 fs)) (EndsTrue-drop 8 fs e)

pub count_bytes_lem :
    (b last nonzero : ℕ) (gs : List (List Bool))
    → LastUsed gs
    → count_bytes b gs (last, nonzero)
      ≡ ((if length gs == 0 then last else b + length gs), nonzero + count_used gs)
unfolding count_bytes
count_bytes_lem b last nonzero [] u = ground arith
count_bytes_lem b last nonzero (g ∷ []) u = rw u (ground arith)
count_bytes_lem b last nonzero (g ∷ h ∷ gs) u = elim (Bool-cases (is_used g)) [
  | inl e ↦ rw e (count_bytes_lem (b + 1) (b + 1) (nonzero + 1) (h ∷ gs) u ∙ ground arith)
  | inr e ↦ rw e (count_bytes_lem (b + 1) last nonzero (h ∷ gs) u ∙ ground arith)
]

byte_of_parts :
    (f : Bool) (r : ℕ) → ((flag_of f + 2 * r) % 2 == 1 ≡ f) × ((flag_of f + 2 * r) / 2 ≡ r)
byte_of_parts true r = (ground arith, omega arith)
byte_of_parts false r = (ground arith, omega arith)

zeros-IsPadded : (k : ℕ) (tail : List Bool) → IsPadded [] tail → IsPadded [] (bits_of k 0 ++ tail)
unfolding bits_of
zeros-IsPadded zero tail h = h
zeros-IsPadded (suc k) tail h = (refl, zeros-IsPadded k tail h)

-- The bits of a byte are the flags that it was made of.
bits_of-IsPadded :
    (k : ℕ) (fs tail : List Bool)
    → IsPadded (drop k fs) tail
    → IsPadded fs (bits_of k (byte_of (take k fs)) ++ tail)
unfolding bits_of byte_of
bits_of-IsPadded zero fs tail h = h
bits_of-IsPadded (suc k) [] tail h = (refl, zeros-IsPadded k tail h)
bits_of-IsPadded (suc k) (f ∷ fs) tail h =
    let (low, high) = byte_of_parts f (byte_of (take k fs)) in
    (rw low refl, rw high (bits_of-IsPadded k fs tail h))

byte_of_zero : (fs : List Bool) → (byte_of fs == 0) ≡ (if is_used fs then false else true)
unfolding byte_of
byte_of_zero [] = refl
byte_of_zero (true ∷ fs) = ground arith
byte_of_zero (false ∷ fs) = ground (arith, byte_of_zero fs)

-- The flags that the bytes of a mask stand for.
abbrev pub bits_of_groups : List (List Bool) → List Bool
bits_of_groups [] = []
bits_of_groups (g ∷ gs) = bits_of 8 (byte_of g) ++ bits_of_groups gs

pub count_used_pos :
    (g : List Bool) (gs : List (List Bool)) → LastUsed (g ∷ gs) → 0 < count_used (g ∷ gs)
count_used_pos g [] u = ground arith
count_used_pos g (h ∷ gs) u = omega (arith, count_used_pos h gs u)

read_mask_zero : (is : List ℕ) → read_mask 0 is ≡ ok ([], is)
unfolding read_mask
read_mask_zero is = refl

read_mask_used :
    (n : ℕ) (g : List Bool) (is rest : List ℕ) (got : List Bool)
    → is_used g ≡ true
    → read_mask n is ≡ ok (got, rest)
    → read_mask (suc n) (byte_of g ∷ is) ≡ ok (bits_of 8 (byte_of g) ++ got, rest)
unfolding read_mask
read_mask_used n g is rest got u e = rw (byte_of_zero g, u, e) refl

read_mask_unused :
    (n : ℕ) (g : List Bool) (is rest : List ℕ) (got : List Bool)
    → is_used g ≡ false
    → read_mask (suc n) is ≡ ok (got, rest)
    → read_mask (suc n) (byte_of g ∷ is) ≡ ok (bits_of 8 (byte_of g) ++ got, rest)
unfolding read_mask
read_mask_unused n g is rest got u e = rw (byte_of_zero g, u, e) refl

-- The reader of the mask stops behind the last byte that is written.
pub read_mask-groups :
    (gs : List (List Bool)) (rest : List ℕ)
    → LastUsed gs
    → read_mask (count_used gs) (map byte_of gs ++ rest) ≡ ok (bits_of_groups gs, rest)
read_mask-groups [] rest u = read_mask_zero rest
read_mask-groups (g ∷ []) rest u =
    let one : flag_of (is_used g) + 0 ≡ 1 = ground arith in
    rw one (read_mask_used 0 g rest rest [] u (read_mask-groups [] rest tt))
read_mask-groups (g ∷ h ∷ gs) rest u =
    let later = read_mask-groups (h ∷ gs) rest u in
    let c = count_used (h ∷ gs) in
    elim (Bool-cases (is_used g)) [
      | inl e ↦
          let n : flag_of (is_used g) + c ≡ suc c = ground arith in
          rw n (read_mask_used c g _ rest _ e later)
      | inr e ↦
          let p : c ≡ suc (c - 1) = omega (arith, count_used_pos h gs u) in
          let n : flag_of (is_used g) + c ≡ suc (c - 1) = ground arith in
          rw n (read_mask_unused (c - 1) g _ rest _ e (rw (← p) later))
    ]

pub bits_of_groups-IsPadded :
    (n : ℕ) (fs : List Bool) → length fs ≤ 8 * n → IsPadded fs (bits_of_groups (group n fs))
bits_of_groups-IsPadded zero [] h = tt
bits_of_groups-IsPadded zero (f ∷ fs) h = absurd (omega arith)
bits_of_groups-IsPadded (suc n) fs h =
    bits_of-IsPadded 8 fs _
      (bits_of_groups-IsPadded n (drop 8 fs) (omega (arith, length-drop8 8 fs)))
