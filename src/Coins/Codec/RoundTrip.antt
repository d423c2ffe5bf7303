-- ===== src/Coins/Codec/RoundTrip.antt =====
-- CCoins::Unserialize reads back what Serialize writes (src/coins.h).
use dsvalue.Prelude.{
  ℕ, zero, suc, ◌+◌, ◌*◌, ◌/◌, ◌%◌, ◌^◌, ◌<◌, ◌≤◌, ◌≡◌, refl, ap, ◌∙◌, Bool, true, false, ◌||◌,
  List, [], ◌∷◌, ◌++◌, map, All, ok, ltb, ◌==◌, length, drop, arith, inl, lt→ltb,
}
use dsvalue.Core.{TxOut}
use dsvalue.Serialize.{read_var_int}
use dsvalue.Serialize.VarInt.{read_var_int-write_var_int}
use dsvalue.Coins.{Coins, cleanup}
use dsvalue.Coins.Codec.{
  availability, flag_at, group, rounds, calc_mask_size, byte_of, header_code, mask_code, read_mask,
  read_outs, write_coins, read_coins,
}
use dsvalue.Coins.Codec.Mask.{
  IsPadded, EndsTrue, EndsTrue-drop, LastUsed, count_used, group-LastUsed, count_bytes_lem,
  count_used_pos, bits_of_groups, read_mask-groups, bits_of_groups-IsPadded,
}
use dsvalue.Coins.Codec.Outputs.{IsStored, cleanup-EndsTrue, read_outs-write_outs}
use dsvalue.Compressor.{Curve}
use dsvalue.Compressor.Scripts.{Decompresses}
use mathlib.Core.List.{append_assoc}

-- Coins as a cache keeps them: cleaned, with an output left.
pub record IsStorable (c : Coins) : Type 0 where
  pub is_clean : cleanup c.vout ≡ c.vout
  pub has_output : 0 < length c.vout
  pub few : length c.vout < 2 ^ 31
  pub outs : All IsStored c.vout
  pub height_lt : c.n_height < 2 ^ 32
  pub version_lt : c.n_version < 2 ^ 31

length-group : (n : ℕ) (fs : List Bool) → length (group n fs) ≡ n
length-group zero fs = refl
length-group (suc n) fs = ap suc (length-group n (drop 8 fs))

count_used-le : (gs : List (List Bool)) → count_used gs ≤ length gs
count_used-le [] = omega arith
count_used-le (g ∷ gs) = ground (arith, count_used-le gs)

abbrev mask_groups : List Bool → List (List Bool)
mask_groups fs = group (rounds fs) fs

calc_mask_size_lem :
    (vout : List TxOut)
    → LastUsed (mask_groups (drop 2 (availability vout)))
    → calc_mask_size vout
      ≡ (rounds (drop 2 (availability vout)), count_used (mask_groups (drop 2 (availability vout))))
unfolding calc_mask_size
calc_mask_size_lem vout u =
    let fs = drop 2 (availability vout) in
    count_bytes_lem 0 0 0 (mask_groups fs) u ∙ rw (length-group (rounds fs) fs) (ground arith)

-- The header code can be taken apart again.
header_parts :
    (f_coin_base f_first f_second : Bool) (n : ℕ)
    → (f_first || f_second || ltb 0 n) ≡ true
    → 8 * n + 8 < 2 ^ 32
    → ((header_code f_coin_base f_first f_second n % 2 == 1) ≡ f_coin_base)
      × ((header_code f_coin_base f_first f_second n / 2 % 2 == 1) ≡ f_first)
      × ((header_code f_coin_base f_first f_second n / 4 % 2 == 1) ≡ f_second)
      × (mask_code (header_code f_coin_base f_first f_second n) ≡ n)
      × (header_code f_coin_base f_first f_second n < 2 ^ 32)
header_parts true true true n t l =
    (ground arith, ground arith, ground arith, ground arith, omega arith)
header_parts true true false n t l =
    (ground arith, ground arith, ground arith, ground arith, omega arith)
header_parts true false true n t l =
    (ground arith, ground arith, ground arith, ground arith, omega arith)
header_parts true false false n t l =
    (ground arith, ground arith, ground arith, ground arith, ground arith)
header_parts false true true n t l =
    (ground arith, ground arith, ground arith, ground arith, omega arith)
header_parts false true false n t l =
    (ground arith, ground arith, ground arith, ground arith, omega arith)
header_parts false false true n t l =
    (ground arith, ground arith, ground arith, ground arith, omega arith)
header_parts false false false n t l =
    (ground arith, ground arith, ground arith, ground arith, ground arith)

first_two-IsPadded :
    (av bits : List Bool)
    → IsPadded (drop 2 av) bits
    → IsPadded av (flag_at 0 av ∷ flag_at 1 av ∷ bits)
first_two-IsPadded [] bits p = (refl, (refl, p))
first_two-IsPadded (f ∷ []) bits p = (refl, (refl, p))
first_two-IsPadded (f ∷ g ∷ fs) bits p = (refl, (refl, p))

-- The assertion on coins that have an output.
has_flag :
    (av : List Bool)
    → EndsTrue av
    → 0 < length av
    → LastUsed (mask_groups (drop 2 av))
    → (flag_at 0 av || flag_at 1 av || ltb 0 (count_used (mask_groups (drop 2 av)))) ≡ true
has_flag [] e h u = absurd (omega arith)
has_flag (f ∷ []) e h u = rw e refl
has_flag (f ∷ g ∷ []) e h u = ground (arith, e)
has_flag (f ∷ g ∷ h ∷ fs) e k u = or_third f g _ (
    some_used (mask_groups (h ∷ fs)) (rw (length-group (rounds (h ∷ fs)) (h ∷ fs)) (omega arith)) u)
  where
    some_used : (gs : List (List Bool)) → 0 < length gs → LastUsed gs → 0 < count_used gs
    some_used [] k u = absurd (omega arith)
    some_used (g ∷ gs) k u = count_used_pos g gs u

    or_third : (f g : Bool) (n : ℕ) → 0 < n → (f || g || ltb 0 n) ≡ true
    or_third f g n k = rw (lt→ltb 0 n k) (or_true f g)
      where
        or_true : (f g : Bool) → (f || g || true) ≡ true
        or_true true g = refl
        or_true false true = refl
        or_true false false = refl

rounds-enough : (fs : List Bool) → (length fs ≤ 8 * rounds fs) × (8 * rounds fs < length fs + 8)
rounds-enough fs = (omega arith, omega arith)

length-availability : (vout : List TxOut) → length (availability vout) ≡ length vout
length-availability [] = refl
length-availability (txout ∷ vout) = ap suc (length-availability vout)

length-behind : (av : List Bool) → length (drop 2 av) ≤ length av
length-behind [] = omega arith
length-behind (f ∷ []) = omega arith
length-behind (f ∷ g ∷ fs) = omega arith

mask_size-lt :
    (vout : List TxOut)
    → length vout < 2 ^ 31
    → 8 * count_used (mask_groups (drop 2 (availability vout))) + 8 < 2 ^ 32
mask_size-lt vout h =
    let fs = drop 2 (availability vout) in
    omega (
      arith,
      count_used-le (mask_groups fs),
      length-group (rounds fs) fs,
      length-behind (availability vout),
      length-availability vout,
    )

five_parts :
    (a b c d e rest : List ℕ)
    → (a ++ (b ++ (c ++ (d ++ e)))) ++ rest ≡ a ++ (b ++ (c ++ (d ++ (e ++ rest))))
five_parts a b c d e rest = simp append_assoc

-- Unserialize from what its five parts read.
read_coins-parts :
    (curve : Curve) (n_code n : ℕ) (mask : List Bool) (got : List TxOut) (c : Coins)
    (is coded masked listed dated rest : List ℕ)
    → read_var_int 32 is ≡ ok (c.n_version, coded)
    → read_var_int 32 coded ≡ ok (n_code, masked)
    → mask_code n_code ≡ n
    → read_mask n masked ≡ ok (mask, listed)
    → read_outs curve ((n_code / 2 % 2 == 1) ∷ (n_code / 4 % 2 == 1) ∷ mask) listed
      ≡ ok (got, dated)
    → read_var_int 32 dated ≡ ok (c.n_height, rest)
    → (n_code % 2 == 1) ≡ c.f_coin_base
    → cleanup got ≡ c.vout
    → read_coins curve is ≡ ok (c, rest)
unfolding read_coins
read_coins-parts curve n_code n mask got c is coded masked listed dated rest v k m r o h b g =
    rw (v, k, m, r, o, h, b, g) refl

module _ (curve : Curve) (decompresses : Decompresses curve) where
  -- Coins as a cache keeps them, cleaned and with an output left, whose outputs are null or compact, are
  -- written, and reading gives them back and leaves what follows them.
  pub read_coins-write_coins :
      (c : Coins) (rest : List ℕ)
      → IsStorable c
      → (out : List ℕ) × (write_coins curve c ≡ ok out)
        × (read_coins curve (out ++ rest) ≡ ok (c, rest))
  unfolding write_coins read_coins
  read_coins-write_coins c rest s =
      let av = availability c.vout in
      let fs = drop 2 av in
      let gs = mask_groups fs in
      let ends = cleanup-EndsTrue c.vout s.is_clean in
      let (enough, exact) = rounds-enough fs in
      let used = group-LastUsed (rounds fs) fs enough exact (EndsTrue-drop 2 av ends) in
      let some_flag = has_flag av ends (rw (length-availability c.vout) s.has_output) used in
      let sizes = calc_mask_size_lem c.vout used in
      let (coin_base, first, second, mask, small) =
        header_parts c.f_coin_base (flag_at 0 av) (flag_at 1 av) (count_used gs) some_flag
          (mask_size-lt c.vout s.few) in
      let (height, height_written, height_read, _) =
        read_var_int-write_var_int 32 c.n_height rest (inl refl) s.height_lt in
      let padded =
        first_two-IsPadded av (bits_of_groups gs) (bits_of_groups-IsPadded (rounds fs) fs enough) in
      let (outs, outs_written, got, outs_read, clean) =
        read_outs-write_outs curve decompresses c.vout _ (height ++ rest) s.outs padded in
      let mask_read = read_mask-groups gs (outs ++ (height ++ rest)) used in
      let (code, code_written, code_read, _) =
        read_var_int-write_var_int 32 _ (map byte_of gs ++ (outs ++ (height ++ rest))) (inl refl)
          small in
      let (version, version_written, version_read, _) =
        read_var_int-write_var_int 32 c.n_version
          (code ++ (map byte_of gs ++ (outs ++ (height ++ rest)))) (inl refl)
          (omega (arith, s.version_lt)) in
      (
        version ++ (code ++ (map byte_of gs ++ (outs ++ height))),
        rw (sizes, some_flag, version_written, code_written, outs_written, height_written) refl,
        rw (five_parts version code (map byte_of gs) outs height rest) (
            read_coins-parts curve _ (count_used gs) (bits_of_groups gs) got c _ _ _ _ _ rest
              version_read code_read mask mask_read (rw (first, second) outs_read) height_read
              coin_base (clean ∙ s.is_clean)),
      )
