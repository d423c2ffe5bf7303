-- ===== src/Coins/Codec/Outputs.antt =====
-- The outputs of CCoins, written and read back (src/coins.h).
use dsvalue.Prelude.{
  ℕ, ◌≡◌, refl, Bool, true, false, List, [], ◌∷◌, ◌++◌, All, ok, arith, ◌⊎◌, inl, inr,
}
use dsvalue.Core.{TxOut}
use dsvalue.Coins.{is_null, null_out, cleaned, cleanup}
use dsvalue.Coins.Codec.{availability, write_outs, read_outs}
use dsvalue.Coins.Codec.Mask.{IsPadded, EndsTrue}
use dsvalue.Compressor.{Curve}
use dsvalue.Compressor.Scripts.{Decompresses}
use dsvalue.Compressor.Outputs.{IsCompact, read_tx_out-write_tx_out}
use mathlib.Core.List.{append_assoc}

-- An output is null as SetNull leaves it, or compact.
abbrev pub IsStored : TxOut → Type 0
IsStored txout = (txout ≡ null_out) ⊎ IsCompact txout

cleaned_rest : (x y : TxOut) (zs ys : List TxOut) → cleaned x zs ≡ x ∷ y ∷ ys → zs ≡ y ∷ ys
cleaned_rest x y [] ys h = ground arith
cleaned_rest x y (z ∷ zs) ys h = cc

-- Where cleaning changes nothing, the last output is there.
pub cleanup-EndsTrue : (vout : List TxOut) → cleanup vout ≡ vout → EndsTrue (availability vout)
unfolding cleanup
cleanup-EndsTrue [] h = tt
cleanup-EndsTrue (txout ∷ []) h = ground (arith, h)
cleanup-EndsTrue (txout ∷ y ∷ vout) h =
    cleanup-EndsTrue (y ∷ vout) (cleaned_rest txout y (cleanup (y ∷ vout)) vout h)

module _ (curve : Curve) (decompresses : Decompresses curve) where
  read_nulls :
      (v_avail : List Bool) (is : List ℕ)
      → IsPadded [] v_avail
      → (got : List TxOut) × (read_outs curve v_avail is ≡ ok (got, is)) × (cleanup got ≡ [])
  unfolding read_outs cleanup
  read_nulls [] is p = ([], refl, refl)
  read_nulls (g ∷ v_avail) is p =
      let (got, reads, same) = read_nulls v_avail is p.1 in
      (null_out ∷ got, rw (p.0, reads) refl, rw same refl)

  -- The outputs that are there are read where they were written, and the others are null; what stands
  -- behind the last one is cleaned away.
  pub read_outs-write_outs :
      (vout : List TxOut) (v_avail : List Bool) (rest : List ℕ)
      → All IsStored vout
      → IsPadded (availability vout) v_avail
      → (out : List ℕ) × (write_outs curve vout ≡ ok out)
        × (got : List TxOut) × (read_outs curve v_avail (out ++ rest) ≡ ok (got, rest))
        × (cleanup got ≡ cleanup vout)
  unfolding write_outs read_outs cleanup
  read_outs-write_outs [] [] rest s p = ([], refl, [], refl, refl)
  read_outs-write_outs [] (g ∷ v_avail) rest s p =
      let (got, reads, same) = read_nulls (g ∷ v_avail) rest p in ([], refl, got, reads, same)
  read_outs-write_outs (txout ∷ vout) [] rest s p = absurd p
  read_outs-write_outs (txout ∷ vout) (g ∷ v_avail) rest s p =
      let (out, written, got, reads, same) = read_outs-write_outs vout v_avail rest s.1 p.1 in
      elim s.0 [
        | inl null ↦
            let e : is_null txout ≡ true = rw null refl in
            (
              out,
              rw (e, written) refl,
              null_out ∷ got,
              rw (← p.0, e, reads) refl,
              rw (same, null) refl,
            )
        | inr compact ↦
            let e : is_null txout ≡ false = rw compact.amount_eq refl in
            let (first, first_written, first_reads) =
              read_tx_out-write_tx_out curve decompresses txout null_out (out ++ rest) compact in
            (
              first ++ out,
              rw (e, first_written, written) refl,
              txout ∷ got,
              rw (← p.0, e, append_assoc first out rest, first_reads, reads) refl,
              rw same refl,
            )
      ]
