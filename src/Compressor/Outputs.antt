-- ===== src/Compressor/Outputs.antt =====
-- CTxOutCompressor reads back what it writes (src/core.h).
use dsvalue.Prelude.{ℕ, ◌+◌, ◌^◌, ◌<◌, ◌≡◌, refl, List, ◌++◌, ok, length, arith, inr}
use dsvalue.Prelude.Int.{pos, to_bits, from_bits}
use dsvalue.Core.{TxOut, compress_amount, decompress_amount, encode_stripped, strip_zeros}
use dsvalue.Core.Amount.{decompress_amount-compress_amount}
use dsvalue.Serialize.VarInt.{read_var_int-write_var_int}
use dsvalue.Compressor.{Curve, write_tx_out, read_tx_out}
use dsvalue.Compressor.Scripts.{Decompresses, read_script-write_script}
use mathlib.Core.List.{append_assoc}

encode_stripped-lt : (n e : ℕ) {x : ℕ} → encode_stripped n e ≡ ok x → x < 2 ^ 64
unfolding encode_stripped
encode_stripped-lt n e h = ground arith

compress_amount-lt : (n : ℕ) {x : ℕ} → compress_amount n ≡ ok x → x < 2 ^ 64
unfolding compress_amount
compress_amount-lt n h = ground (arith, encode_stripped-lt (strip_zeros 9 n).0 (strip_zeros 9 n).1)

-- The amounts and scripts that the compact form is made for.
pub record IsCompact (txout : TxOut) : Type 0 where
  pub amount : ℕ
  pub amount_eq : txout.n_value ≡ pos amount
  pub amount_lt : amount < 2 ^ 60
  pub script_lt : length txout.script_pub_key + 6 < 2 ^ 32

module _ (curve : Curve) (decompresses : Decompresses curve) where
  -- An output with an amount below 2^60 and a script of fewer than 2^32 - 6 bytes is written, and
  -- reading gives it back, whatever the object held before, and leaves what follows it.
  pub read_tx_out-write_tx_out :
      (txout old : TxOut) (rest : List ℕ)
      → IsCompact txout
      → (out : List ℕ) × (write_tx_out curve txout ≡ ok out)
        × (read_tx_out curve old (out ++ rest) ≡ ok (txout, rest))
  unfolding write_tx_out read_tx_out
  read_tx_out-write_tx_out txout old rest c =
      let (x, compressed, back) = decompress_amount-compress_amount c.amount c.amount_lt in
      let (script, script_written, script_read) =
        read_script-write_script curve decompresses txout.script_pub_key old.script_pub_key rest
          c.script_lt in
      let (value, written, read, _) =
        read_var_int-write_var_int 64 x (script ++ rest) (inr refl)
          (compress_amount-lt c.amount compressed) in
      let bits : to_bits (2 ^ 64) txout.n_value ≡ c.amount =
        rw c.amount_eq (small c.amount c.amount_lt) in
      let same : from_bits (2 ^ 64) (decompress_amount x) ≡ txout.n_value =
        rw (back, c.amount_eq) (positive c.amount c.amount_lt) in
      (
        value ++ script,
        rw (bits, compressed, written, script_written) refl,
        rw (append_assoc value script rest, read, script_read, same) refl,
      )
    where
      small : (n : ℕ) → n < 2 ^ 60 → to_bits (2 ^ 64) (pos n) ≡ n
      small n h = omega arith

      positive : (n : ℕ) → n < 2 ^ 60 → from_bits (2 ^ 64) n ≡ pos n
      positive n h = ground arith
