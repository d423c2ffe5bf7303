-- ===== src/Coins/Undo.antt =====
-- CTxInUndo in a stream (src/core.h). Its version is an `int`, taken as a number that is not negative:
-- WriteVarInt keeps no sign.
use dsvalue.Prelude.{
  ℕ, ◌+◌, ◌*◌, ◌/◌, ◌%◌, ◌^◌, ◌<◌, ◌≡◌, refl, Bool, true, false, List, [], ◌++◌, Result, ok,
  if◌then◌else◌, ltb, ◌==◌, arith, inl, inr, ◌>>=◌, Bool-cases,
}
use dsvalue.Serialize.{write_var_int, read_var_int}
use dsvalue.Serialize.VarInt.{read_var_int-write_var_int}
use dsvalue.Coins.{TxInUndo}
use dsvalue.Compressor.{Curve, write_tx_out, read_tx_out}
use dsvalue.Compressor.Scripts.{Decompresses}
use dsvalue.Compressor.Outputs.{IsCompact, read_tx_out-write_tx_out}
use mathlib.Core.List.{append_assoc}

abbrev pub flag_of : Bool → ℕ
flag_of f = if f then 1 else 0

-- The height and the flag in one number of 32 bits.
abbrev pub undo_code : TxInUndo → ℕ
undo_code undo = (undo.n_height * 2 + flag_of undo.f_coin_base) % 2 ^ 32

module _ (curve : Curve) where
  -- CTxInUndo::Serialize
  unfoldable pub write_undo : TxInUndo → Result (List ℕ)
  write_undo undo = do
    code ← write_var_int 32 (undo_code undo)
    version ← (if ltb 0 undo.n_height then write_var_int 32 undo.n_version else ok [])
    txout ← write_tx_out curve undo.txout
    ok (code ++ (version ++ txout))

  -- The version, which is read only where the height is above 0, and otherwise left as it is.
  abbrev pub read_version : ℕ → ℕ → List ℕ → Result (ℕ × List ℕ)
  read_version n_height old is = if ltb 0 n_height then read_var_int 32 is else ok (old, is)

  -- CTxInUndo::Unserialize, into an object.
  unfoldable pub read_undo : TxInUndo → List ℕ → Result (TxInUndo × List ℕ)
  read_undo undo is = do
    code ← read_var_int 32 is
    version ← read_version (code.0 / 2) undo.n_version code.1
    txout ← read_tx_out curve undo.txout version.1
    ok (
      record {
        txout = txout.0;
        f_coin_base = code.0 % 2 == 1;
        n_height = code.0 / 2;
        n_version = version.0;
      },
      txout.1,
    )

  code_parts :
      (h : ℕ) (f : Bool)
      → h < 2 ^ 31
      → ((h * 2 + flag_of f) % 2 ^ 32 / 2 ≡ h)
        × (((h * 2 + flag_of f) % 2 ^ 32 % 2 == 1) ≡ f)
        × ((h * 2 + flag_of f) % 2 ^ 32 < 2 ^ 32)
  code_parts h true l = (omega arith, ground arith, omega arith)
  code_parts h false l = (omega arith, ground arith, omega arith)

  -- The version is written where the height is above 0.
  version_read :
      (h version old : ℕ) (rest : List ℕ)
      → version < 2 ^ 32
      → (out : List ℕ) × ((if ltb 0 h then write_var_int 32 version else ok []) ≡ ok out)
        × (read_version h old (out ++ rest) ≡ ok (if ltb 0 h then version else old, rest))
  version_read h version old rest l = elim (Bool-cases (ltb 0 h)) [
    | inl e ↦
        let (out, written, reads, _) = read_var_int-write_var_int 32 version rest (inl refl) l in
        (out, rw e written, rw e reads)
    | inr e ↦ ([], rw e refl, rw e refl)
  ]

  -- The undo information of an input, with a height and a version below 2^31 and a compact output, is
  -- written, and reading gives it back; but the version is that of the object read into where the
  -- height is 0.
  pub read_undo-write_undo :
      Decompresses curve
      → (undo old : TxInUndo) (rest : List ℕ) → IsCompact undo.txout
      → undo.n_height < 2 ^ 31
      → undo.n_version < 2 ^ 31
      → (out : List ℕ) × (write_undo undo ≡ ok out)
        × (read_undo old (out ++ rest)
            ≡ ok (
              record undo {
                n_version = if ltb 0 undo.n_height then undo.n_version else old.n_version;
              },
              rest,
            ))
  unfolding write_undo read_undo
  read_undo-write_undo d undo old rest compact h v =
      let (half, flag, small) = code_parts undo.n_height undo.f_coin_base h in
      let (txout, txout_written, txout_reads) =
        read_tx_out-write_tx_out curve d undo.txout old.txout rest compact in
      let (version, version_written, version_reads) =
        version_read undo.n_height undo.n_version old.n_version (txout ++ rest) (omega arith) in
      let (code, written, reads, _) =
        read_var_int-write_var_int 32 (undo_code undo) (version ++ (txout ++ rest)) (inl refl)
          small in
      (
        code ++ (version ++ txout),
        rw (written, version_written, txout_written) refl,
        rw
            (
              append_assoc code (version ++ txout) rest,
              append_assoc version txout rest,
              reads,
              half,
              version_reads,
              txout_reads,
              flag,
            )
            refl,
      )
