-- ===== src/Coins/Codec.antt =====
-- CCoins in a stream (src/coins.h, coins.cpp): CalcMaskSize, Serialize and Unserialize. The version is
-- an `int`, taken as a number that is not negative. The loops over the bytes of the mask run over the
-- outputs behind the first two, eight in a round.
pub mod Mask
pub mod Outputs
pub mod RoundTrip
use dsvalue.Prelude.{
  ℕ, zero, suc, ◌+◌, ◌-◌, ◌*◌, ◌/◌, ◌%◌, ◌^◌, Bool, true, false, not, ◌||◌, List, [], ◌∷◌, ◌++◌,
  map, Result, ok, err, Error, ◌>>=◌, ◌>>◌, guard, if◌then◌else◌, ltb, ◌==◌, length, take, drop,
  any,
}
use dsvalue.Core.{TxOut}
use dsvalue.Serialize.{write_var_int, read_var_int}
use dsvalue.Coins.{Coins, is_null, null_out, cleanup}
use dsvalue.Coins.Undo.{flag_of}
use dsvalue.Compressor.{Curve, write_tx_out, read_tx_out}

-- Which outputs are there.
abbrev pub availability : List TxOut → List Bool
availability vout = map (λ txout. not (is_null txout)) vout

-- fFirst and fSecond
abbrev pub flag_at : ℕ → List Bool → Bool
flag_at i [] = false
flag_at zero (f ∷ fs) = f
flag_at (suc i) (f ∷ fs) = flag_at i fs

-- The flags for which the byte `b` of the mask stands, eight at most, for `n` bytes.
abbrev pub group : ℕ → List Bool → List (List Bool)
group zero fs = []
group (suc n) fs = take 8 fs ∷ group n (drop 8 fs)

-- How often `2 + b * 8 < vout.size()` holds, with the flags behind the first two.
abbrev pub rounds : List Bool → ℕ
rounds fs = (length fs + 7) / 8

abbrev pub is_used : List Bool → Bool
is_used g = any (λ f. f) g

-- nLastUsedByte and nNonzeroBytes after byte `b`.
abbrev pub count_byte : ℕ → List Bool → ℕ × ℕ → ℕ × ℕ
count_byte b g (n_last_used_byte, n_nonzero_bytes) =
    if is_used g then (b + 1, n_nonzero_bytes + 1) else (n_last_used_byte, n_nonzero_bytes)

-- The loop of CalcMaskSize, from byte `b` on.
unfoldable pub count_bytes : ℕ → List (List Bool) → ℕ × ℕ → ℕ × ℕ
count_bytes b [] s = s
count_bytes b (g ∷ gs) s = count_bytes (b + 1) gs (count_byte b g s)

-- CCoins::CalcMaskSize, from 0: the bytes of the mask, and those that are not 0.
unfoldable pub calc_mask_size : List TxOut → ℕ × ℕ
unfolding count_bytes
calc_mask_size vout =
    let fs = drop 2 (availability vout) in count_bytes 0 (group (rounds fs) fs) (0, 0)

-- chAvail
unfoldable pub byte_of : List Bool → ℕ
byte_of [] = 0
byte_of (f ∷ fs) = flag_of f + 2 * byte_of fs

-- The header code.
abbrev pub header_code : Bool → Bool → Bool → ℕ → ℕ
header_code f_coin_base f_first f_second n_mask_code =
    (8 * (n_mask_code - (if f_first || f_second then 0 else 1))
      + flag_of f_coin_base
      + (if f_first then 2 else 0)
      + (if f_second then 4 else 0))
    % 2 ^ 32

-- The bits of chAvail, the lowest first.
unfoldable pub bits_of : ℕ → ℕ → List Bool
bits_of zero ch_avail = []
bits_of (suc p) ch_avail = (ch_avail % 2 == 1) ∷ bits_of p (ch_avail / 2)

-- The loop that reads the mask: `nMaskCode` counts the bytes to come that are not 0.
unfoldable pub read_mask : ℕ → List ℕ → Result (List Bool × List ℕ)
unfolding bits_of
read_mask zero is = ok ([], is)
read_mask (suc n) [] = err Error.thrown
read_mask (suc n) (ch_avail ∷ is) = read_mask (if ch_avail == 0 then suc n else n) is >>= λ got.
    ok (bits_of 8 ch_avail ++ got.0, got.1)

-- nMaskCode of a header code.
abbrev pub mask_code : ℕ → ℕ
mask_code n_code = n_code / 8 + (if n_code / 2 % 4 == 0 then 1 else 0)

module _ (curve : Curve) where
  -- The outputs that are there, one after the other.
  unfoldable pub write_outs : List TxOut → Result (List ℕ)
  write_outs [] = ok []
  write_outs (txout ∷ vout) = do
    first ← (if is_null txout then ok [] else write_tx_out curve txout)
    others ← write_outs vout
    ok (first ++ others)

  -- CCoins::Serialize
  unfoldable pub write_coins : Coins → Result (List ℕ)
  unfolding calc_mask_size write_outs byte_of
  write_coins c =
      let fs = drop 2 (availability c.vout) in
      let sizes = calc_mask_size c.vout in
      let f_first = flag_at 0 (availability c.vout) in
      let f_second = flag_at 1 (availability c.vout) in
      guard (f_first || f_second || ltb 0 sizes.1) Error.assertion >> (do
        version ← write_var_int 32 c.n_version
        code ← write_var_int 32 (header_code c.f_coin_base f_first f_second sizes.1)
        outs ← write_outs c.vout
        height ← write_var_int 32 c.n_height
        ok (version ++ (code ++ (map byte_of (group sizes.0 fs) ++ (outs ++ height)))))

  -- The outputs by their flags: those that are not there stay null.
  unfoldable pub read_outs : List Bool → List ℕ → Result (List TxOut × List ℕ)
  read_outs [] is = ok ([], is)
  read_outs (f ∷ v_avail) is = do
    first ← (if f then read_tx_out curve null_out is else ok (null_out, is))
    others ← read_outs v_avail first.1
    ok (first.0 ∷ others.0, others.1)

  -- CCoins::Unserialize
  unfoldable pub read_coins : List ℕ → Result (Coins × List ℕ)
  unfolding read_mask read_outs cleanup
  read_coins is = do
    version ← read_var_int 32 is
    code ← read_var_int 32 version.1
    mask ← read_mask (mask_code code.0) code.1
    outs ← read_outs ((code.0 / 2 % 2 == 1) ∷ (code.0 / 4 % 2 == 1) ∷ mask.0) mask.1
    height ← read_var_int 32 outs.1
    ok (
      record {
        f_coin_base = code.0 % 2 == 1;
        vout = cleanup outs.0;
        n_height = height.0;
        n_version = version.0;
      },
      height.1,
    )
