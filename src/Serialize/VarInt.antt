-- ===== src/Serialize/VarInt.antt =====
-- ReadVarInt reads back what WriteVarInt writes (src/serialize.h).
use dsvalue.Prelude.{
  ℕ, zero, suc, ◌+◌, ◌-◌, ◌*◌, ◌/◌, ◌%◌, ◌^◌, ◌<◌, ◌≡◌, refl, List, [], ◌∷◌, ◌++◌, Result, ok, leb,
  length, arith, Bool-cases, inl, inr, ◌⊎◌, le→leb, ◌∙◌,
}
use dsvalue.Serialize.{
  more_flag, fill_buffer, write_var_int, read_groups, read_var_int, count_groups,
  get_size_of_var_int,
}
use native.Mathlib.Nat.{mod-eq_of_lt}

-- What the reader does once it has read `n`, with `tmp` to come: it is ready where nothing comes.
abbrev resume : ℕ → ℕ → List ℕ → List ℕ → Result (ℕ × List ℕ)
resume m n [] rest = ok (n, rest)
resume m n (c ∷ tmp) rest = read_groups m (n + 1) (c ∷ tmp ++ rest)

-- What is in the buffer leaves room above the number.
abbrev HasRoom : ℕ → ℕ → List ℕ → Type 0
HasRoom m n [] = n < m
HasRoom m n (_ ∷ _) = n + 1 < m

shifted_eq :
    (m a n flag : ℕ)
    → a * 128 + n % 128 ≡ n
    → n < m
    → flag ≡ 0 ⊎ (flag ≡ 128)
    → a * 128 % m + (n % 128 + flag) % 128 ≡ n
shifted_eq m a n flag e h f =
    rw (mod-eq_of_lt {n = a * 128} {m = m} (omega arith))
      (elim f [ inl z ↦ rw z (omega arith) | inr z ↦ rw z (omega arith) ])

read_groups-resume :
    (m a n : ℕ) (tmp rest : List ℕ)
    → a * 128 + n % 128 ≡ n
    → HasRoom m n tmp
    → read_groups m a ((n % 128 + more_flag tmp) ∷ tmp ++ rest) ≡ resume m n tmp rest
unfolding read_groups
read_groups-resume m a n [] rest e h = ground (arith, shifted_eq m a n 0 e h (inl refl))
read_groups-resume m a n (c ∷ tmp) rest e h =
    rw
      (
        shifted_eq m a n 128 e (omega arith) (inr refl),
        mod-eq_of_lt h,
        le→leb 128 (n % 128 + 128) (omega arith),
      )
      refl

-- With enough room the loop fills the buffer; the reader then stands where the number was read, and
-- GetSizeOfVarInt counts the bytes.
fill_buffer-resume :
    (m room n : ℕ) (tmp rest : List ℕ)
    → HasRoom m n tmp
    → n + 1 < 128 ^ room
    → (out : List ℕ) × (fill_buffer room n tmp ≡ ok out)
      × (read_groups m 0 (out ++ rest) ≡ resume m n tmp rest)
      × (count_groups room n (length tmp) ≡ ok (length out))
unfolding fill_buffer count_groups
fill_buffer-resume m zero n tmp rest h k = absurd (omega arith)
fill_buffer-resume m (suc room) n tmp rest h k = elim (Bool-cases (leb n 0x7f)) [
  | inl last ↦
      let small : 0 * 128 + n % 128 ≡ n = ground arith in
      (
        (n % 128 + more_flag tmp) ∷ tmp,
        rw last refl,
        read_groups-resume m 0 n tmp rest small h,
        rw last refl,
      )
  | inr more ↦
      let big : 127 < n = ground arith in
      let (out, filled, reads, counted) =
        fill_buffer-resume m room (n / 128 - 1) ((n % 128 + more_flag tmp) ∷ tmp) rest
          (below m n tmp big h) (omega (arith, big)) in
      (
        out,
        rw more filled,
        reads ∙ rw (pred_suc n big) (read_groups-resume m (n / 128) n tmp rest (omega arith) h),
        rw more counted,
      )
]
  where
    below : (m n : ℕ) (tmp : List ℕ) → 127 < n → HasRoom m n tmp → n / 128 - 1 + 1 < m
    below m n [] b h = omega arith
    below m n (c ∷ tmp) b h = omega arith

    pred_suc : (n : ℕ) → 127 < n → n / 128 - 1 + 1 ≡ n / 128
    pred_suc n b = omega arith

-- WriteVarInt of an unsigned number of 32 or of 64 bits stays inside its buffer, ReadVarInt reads the
-- number back and leaves what follows it, and GetSizeOfVarInt is the number of the bytes.
pub read_var_int-write_var_int :
    (w n : ℕ) (rest : List ℕ)
    → (w ≡ 32) ⊎ (w ≡ 64)
    → n < 2 ^ w
    → (out : List ℕ) × (write_var_int w n ≡ ok out)
      × (read_var_int w (out ++ rest) ≡ ok (n, rest))
      × (get_size_of_var_int w n ≡ ok (length out))
unfolding write_var_int read_var_int get_size_of_var_int
read_var_int-write_var_int w n rest (inl e) h =
    let k = rw e at h in rw e (fill_buffer-resume (2 ^ 32) 5 n [] rest k (omega arith))
read_var_int-write_var_int w n rest (inr e) h =
    let k = rw e at h in rw e (fill_buffer-resume (2 ^ 64) 10 n [] rest k (omega arith))
