-- ===== src/Chain/Transactions.antt =====
-- The check of a transaction by itself: CheckTransaction (src/main.cpp), with the size of a transaction
-- in a stream (src/core.h: CTransaction, CTxIn and CTxOut; src/serialize.h: vectors).
pub mod Outputs
pub mod WellFormed
use dsvalue.Prelude.{
  ℕ, ◌+◌, ◌-◌, ◌^◌, Bool, true, false, not, ◌&&◌, ◌||◌, List, [], ◌∷◌, Result, ok, err, Error,
  if◌then◌else◌, ltb, ◌==◌, length,
}
use dsvalue.Prelude.Int.{ℤ, pos, add64, ltb_ℤ}
use dsvalue.Core.{OutPoint, TxIn, TxOut, Transaction, max_money, money_range, same_out_point}
use dsvalue.Coins.{is_coin_base}
use dsvalue.Serialize.{get_size_of_compact_size}
use dsvalue.Chain.Verdict.{Verdict, accepted, refuse_if}

-- A vector of bytes: its size, and the bytes.
abbrev pub bytes_size : List ℕ → ℕ
bytes_size v = get_size_of_compact_size (length v) + length v

abbrev pub ins_size : List TxIn → ℕ
ins_size [] = 0
ins_size (txin ∷ vin) = 36 + bytes_size txin.script_sig + 4 + ins_size vin

abbrev pub outs_size : List TxOut → ℕ
outs_size [] = 0
outs_size (txout ∷ vout) = 8 + bytes_size txout.script_pub_key + outs_size vout

-- GetSerializeSize of a transaction
unfoldable pub get_serialize_size : Transaction → ℕ
get_serialize_size tx =
    4
    + get_size_of_compact_size (length tx.vin)
    + ins_size tx.vin
    + get_size_of_compact_size (length tx.vout)
    + outs_size tx.vout
    + 4

abbrev pub max_block_size : ℕ
max_block_size = 1000000

-- The loop over the outputs, from nValueOut.
unfoldable pub check_outs : List TxOut → ℤ → Result Verdict → Result Verdict
check_outs [] n_value_out rest = rest
check_outs (txout ∷ vout) n_value_out rest = refuse_if (ltb_ℤ txout.n_value (pos 0)) 100 (
    refuse_if (ltb_ℤ (pos max_money) txout.n_value) 100 (
      refuse_if (not (money_range (add64 n_value_out txout.n_value))) 100
        (check_outs vout (add64 n_value_out txout.n_value) rest)))

-- vInOutPoints.count
abbrev pub count_point : OutPoint → List OutPoint → Bool
count_point prevout [] = false
count_point prevout (seen ∷ points) = same_out_point prevout seen || count_point prevout points

-- The loop over the inputs, from vInOutPoints.
unfoldable pub check_duplicates : List OutPoint → List TxIn → Result Verdict → Result Verdict
check_duplicates v_in_out_points [] rest = rest
check_duplicates v_in_out_points (txin ∷ vin) rest =
    refuse_if (count_point txin.prevout v_in_out_points) 100
      (check_duplicates (txin.prevout ∷ v_in_out_points) vin rest)

-- COutPoint::IsNull
abbrev pub is_null_point : OutPoint → Bool
is_null_point point = point.hash == 0 && point.n == 2 ^ 32 - 1

unfoldable pub check_prevouts : List TxIn → Result Verdict
check_prevouts [] = ok accepted
check_prevouts (txin ∷ vin) = refuse_if (is_null_point txin.prevout) 10 (check_prevouts vin)

-- The test on the script of a coinbase.
abbrev pub check_coinbase : List TxIn → Result Verdict
check_coinbase [] = err Error.undefined
check_coinbase (txin ∷ vin) =
    refuse_if (ltb (length txin.script_sig) 2 || ltb 100 (length txin.script_sig)) 100 (ok accepted)

abbrev pub no_elements {ℓ} : {A : Type ℓ} → List A → Bool
no_elements [] = true
no_elements (x ∷ xs) = false

-- CheckTransaction
unfoldable pub check_transaction : Transaction → Result Verdict
unfolding get_serialize_size check_outs check_duplicates check_prevouts
check_transaction tx = refuse_if (no_elements tx.vin) 10 (
    refuse_if (no_elements tx.vout) 10 (
      refuse_if (ltb max_block_size (get_serialize_size tx)) 100 (
        check_outs tx.vout (pos 0) (
          check_duplicates [] tx.vin
            (if is_coin_base tx then check_coinbase tx.vin else check_prevouts tx.vin)))))
