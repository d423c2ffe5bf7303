-- ===== src/Compressor.antt =====
-- The compact form of an output (src/script.h, script.cpp, core.h): CScriptCompressor, which has a
-- short form for the usual scripts, and CTxOutCompressor. A script is a list of bytes.
pub mod Shapes
pub mod Scripts
pub mod Outputs
mod Tests
use dsvalue.Prelude.{
  ℕ, ◌+◌, ◌-◌, ◌%◌, ◌^◌, Bool, ◌&&◌, ◌||◌, List, [], ◌∷◌, ◌++◌, Option, none, some, Result, ok, err,
  Error, ◌>>=◌, ◌>>◌, guard, if◌then◌else◌, ltb, ◌==◌, length, take, drop, get_elem?,
}
use dsvalue.Prelude.Int.{to_bits, from_bits}
use dsvalue.Core.{TxOut, compress_amount, decompress_amount}
use dsvalue.Serialize.{write_var_int, read_var_int, read_block}

abbrev pub op_dup : ℕ
op_dup = 0x76

abbrev pub op_equal : ℕ
op_equal = 0x87

abbrev pub op_equalverify : ℕ
op_equalverify = 0x88

abbrev pub op_hash160 : ℕ
op_hash160 = 0xa9

abbrev pub op_checksig : ℕ
op_checksig = 0xac

-- script[i], which the code reads only where the size of the script is known to allow it.
abbrev pub byte_at : List ℕ → ℕ → ℕ
byte_at script i = elim (get_elem? script i) [ none ↦ 0 | some x ↦ x ]

-- The bytes from `from` on, `size` many.
abbrev pub bytes_at : List ℕ → ℕ → ℕ → List ℕ
bytes_at script from size = take size (drop from script)

-- CScriptCompressor::IsToKeyID, with the hash where it is one.
unfoldable pub is_to_key_id : List ℕ → Option (List ℕ)
is_to_key_id script =
    if length script == 25
      && byte_at script 0 == op_dup
      && byte_at script 1 == op_hash160
      && byte_at script 2 == 20
      && byte_at script 23 == op_equalverify
      && byte_at script 24 == op_checksig
    then some (bytes_at script 3 20)
    else none

-- CScriptCompressor::IsToScriptID
unfoldable pub is_to_script_id : List ℕ → Option (List ℕ)
is_to_script_id script =
    if length script == 23
      && byte_at script 0 == op_hash160
      && byte_at script 1 == 20
      && byte_at script 22 == op_equal
    then some (bytes_at script 2 20)
    else none

abbrev pub n_special_scripts : ℕ
n_special_scripts = 6

-- CScriptCompressor::GetSpecialSize
abbrev pub get_special_size : ℕ → ℕ
get_special_size n_size =
    if n_size == 0 || n_size == 1
    then 20
    else if n_size == 2 || n_size == 3 || n_size == 4 || n_size == 5
    then 32
    else 0

-- The last part of Compress, on a public key.
unfoldable pub compress_key : List ℕ → Option (List ℕ)
compress_key pubkey =
    if byte_at pubkey 0 == 0x02 || byte_at pubkey 0 == 0x03
    then some (byte_at pubkey 0 ∷ bytes_at pubkey 1 32)
    else if byte_at pubkey 0 == 0x04
    then some ((4 + byte_at pubkey 64 % 2) ∷ bytes_at pubkey 1 32)
    else none

-- The elliptic curve of OpenSSL, behind CPubKey: IsFullyValid on a key of 65 bytes, and Decompress on
-- a key of 33 bytes, which gives the key of 65 bytes or fails.
pub record Curve : Type 0 where
  pub is_fully_valid : List ℕ → Bool
  pub decompress_key : List ℕ → Option (List ℕ)

module _ (curve : Curve) where
  -- CScriptCompressor::IsToPubKey
  unfoldable pub is_to_pub_key : List ℕ → Option (List ℕ)
  is_to_pub_key script =
      if length script == 35
        && byte_at script 0 == 33
        && byte_at script 34 == op_checksig
        && (byte_at script 1 == 0x02 || byte_at script 1 == 0x03)
      then some (bytes_at script 1 33)
      else if length script == 67
          && byte_at script 0 == 65
          && byte_at script 66 == op_checksig
          && byte_at script 1 == 0x04
      then (if curve.is_fully_valid (bytes_at script 1 65)
          then some (bytes_at script 1 65)
          else none)
      else none

  -- CScriptCompressor::Compress
  unfoldable pub compress : List ℕ → Option (List ℕ)
  unfolding is_to_key_id is_to_script_id is_to_pub_key compress_key
  compress script = elim (is_to_key_id script) [
    | some key_id ↦ some (0x00 ∷ key_id)
    | none ↦ elim (is_to_script_id script) [
      | some script_id ↦ some (0x01 ∷ script_id)
      | none ↦ elim (is_to_pub_key script) [ some pubkey ↦ compress_key pubkey | none ↦ none ]
    ]
  ]

  -- Decompress of a public key that was of 65 bytes: the script is left as it is where it fails.
  abbrev pub decompress_pub_key : ℕ → List ℕ → List ℕ → Result (List ℕ)
  decompress_pub_key n_size input script = elim (curve.decompress_key ((n_size - 2) ∷ input)) [
    | none ↦ ok script
    | some pubkey ↦
        guard (length pubkey == 65) Error.assertion >> ok (65 ∷ pubkey ++ op_checksig ∷ [])
  ]

  -- CScriptCompressor::Decompress, from the script that the object holds.
  unfoldable pub decompress : ℕ → List ℕ → List ℕ → Result (List ℕ)
  decompress n_size input script =
      if n_size == 0x00
      then ok (op_dup ∷ op_hash160 ∷ 20 ∷ input ++ op_equalverify ∷ op_checksig ∷ [])
      else if n_size == 0x01
      then ok (op_hash160 ∷ 20 ∷ input ++ op_equal ∷ [])
      else if n_size == 0x02 || n_size == 0x03
      then ok (33 ∷ n_size ∷ input ++ op_checksig ∷ [])
      else if n_size == 0x04 || n_size == 0x05
      then decompress_pub_key n_size input script
      else ok script

  -- CScriptCompressor::Serialize
  unfoldable pub write_script : List ℕ → Result (List ℕ)
  write_script script = elim (compress script) [
    | some compr ↦ ok compr
    | none ↦ write_var_int 32 ((length script + n_special_scripts) % 2 ^ 32) >>= λ n_size.
        ok (n_size ++ script)
  ]

  -- Unserialize behind the size, into an object that holds a script.
  abbrev pub read_script_body : List ℕ → ℕ → List ℕ → Result (List ℕ × List ℕ)
  read_script_body script n_size is =
      if ltb n_size n_special_scripts
      then (read_block (get_special_size n_size) is >>= λ vch.
          decompress n_size vch.0 script >>= λ script'. ok (script', vch.1))
      else read_block (n_size - n_special_scripts) is

  -- CScriptCompressor::Unserialize
  unfoldable pub read_script : List ℕ → List ℕ → Result (List ℕ × List ℕ)
  read_script script is = read_var_int 32 is >>= λ n_size. read_script_body script n_size.0 n_size.1

  -- CTxOutCompressor, on writing.
  unfoldable pub write_tx_out : TxOut → Result (List ℕ)
  write_tx_out txout = do
    n_val ← compress_amount (to_bits (2 ^ 64) txout.n_value)
    value ← write_var_int 64 n_val
    script ← write_script txout.script_pub_key
    ok (value ++ script)

  -- CTxOutCompressor, on reading, into an output.
  unfoldable pub read_tx_out : TxOut → List ℕ → Result (TxOut × List ℕ)
  read_tx_out txout is = read_var_int 64 is >>= λ n_val.
      read_script txout.script_pub_key n_val.1 >>= λ script. ok (
        record {
          n_value = from_bits (2 ^ 64) (decompress_amount n_val.0);
          script_pub_key = script.0;
        },
        script.1,
      )
