-- ===== src/Chain/Blocks.antt =====
-- The check of a block by itself: CheckBlock, GetLegacySigOpCount (src/main.cpp) and GetSigOpCount
-- (src/script.cpp), with the size of a block in a stream (src/core.h, lotto/CLottoHeader.h). The hashes,
-- the test of the proof of work and the adjusted time are arguments.
pub mod Accepted
use dsvalue.Prelude.{
  ℕ, zero, suc, ◌+◌, ◌-◌, ◌*◌, Bool, true, false, not, ◌&&◌, ◌||◌, List, [], ◌∷◌, map, Option, none,
  some, Result, ok, err, Error, ◌>>=◌, if◌then◌else◌, ltb, leb, ◌==◌, length, contains,
}
use dsvalue.Prelude.Int.{ℤ, pos}
use dsvalue.Core.{TxIn, TxOut, Transaction}
use dsvalue.Core.Merkle.{build_merkle_tree}
use dsvalue.Coins.{is_coin_base}
use dsvalue.Script.{get_op}
use dsvalue.Serialize.{get_size_of_compact_size}
use dsvalue.Lotto.Header.{LottoHeader}
use dsvalue.Chain.Verdict.{Verdict, accepted, rejected, refuse_if}
use dsvalue.Chain.Parts.{Block}
use dsvalue.Chain.Transactions.{get_serialize_size, max_block_size, check_transaction}

-- The size of the header, with its lottery part.
abbrev pub header_size : LottoHeader → ℕ
header_size h =
    80
    + (4 + get_size_of_compact_size (length h.m_bitcoin_hash) + 36 * length h.m_bitcoin_hash + 44)

abbrev pub txs_size : List Transaction → ℕ
txs_size [] = 0
txs_size (tx ∷ vtx) = get_serialize_size tx + txs_size vtx

-- GetSerializeSize of a block
abbrev pub block_size : Block → ℕ
block_size block =
    header_size block.lotto_header
    + get_size_of_compact_size (length block.vtx)
    + txs_size block.vtx

-- What an operation adds to the count, with the opcode before it.
abbrev pub sig_ops_of : Bool → (last_opcode opcode : ℕ) → ℕ
sig_ops_of f_accurate last_opcode opcode =
    if opcode == 0xac || opcode == 0xad
    then 1
    else if opcode == 0xae || opcode == 0xaf
    then (if f_accurate && leb 0x51 last_opcode && leb last_opcode 0x60
        then last_opcode - 0x50
        else 20)
    else 0

-- The loop of GetSigOpCount, from the opcode before and the count.
unfoldable pub sig_ops_from : ℕ → Bool → ℕ → ℕ → List ℕ → Result ℕ
sig_ops_from fuel f_accurate last_opcode n [] = ok n
sig_ops_from zero f_accurate last_opcode n (x ∷ xs) = err Error.fuel
sig_ops_from (suc fuel) f_accurate last_opcode n (x ∷ xs) = elim (get_op (x ∷ xs)) [
  | none ↦ ok n
  | some (opcode, _, rest) ↦
      sig_ops_from fuel f_accurate opcode (n + sig_ops_of f_accurate last_opcode opcode) rest
]

-- CScript::GetSigOpCount(bool)
unfoldable pub get_sig_op_count : Bool → List ℕ → Result ℕ
unfolding sig_ops_from
get_sig_op_count f_accurate script = sig_ops_from (length script) f_accurate 0xff 0 script

unfoldable pub sig_ops_of_ins : List TxIn → Result ℕ
unfolding get_sig_op_count
sig_ops_of_ins [] = ok 0
sig_ops_of_ins (txin ∷ vin) =
    get_sig_op_count false txin.script_sig >>= λ n. sig_ops_of_ins vin >>= λ m. ok (n + m)

unfoldable pub sig_ops_of_outs : List TxOut → Result ℕ
unfolding get_sig_op_count
sig_ops_of_outs [] = ok 0
sig_ops_of_outs (txout ∷ vout) =
    get_sig_op_count false txout.script_pub_key >>= λ n. sig_ops_of_outs vout >>= λ m. ok (n + m)

-- GetLegacySigOpCount
unfoldable pub get_legacy_sig_op_count : Transaction → Result ℕ
unfolding sig_ops_of_ins sig_ops_of_outs
get_legacy_sig_op_count tx =
    sig_ops_of_ins tx.vin >>= λ n. sig_ops_of_outs tx.vout >>= λ m. ok (n + m)

unfoldable pub sig_ops_of_txs : List Transaction → Result ℕ
unfolding get_legacy_sig_op_count
sig_ops_of_txs [] = ok 0
sig_ops_of_txs (tx ∷ vtx) =
    get_legacy_sig_op_count tx >>= λ n. sig_ops_of_txs vtx >>= λ m. ok (n + m)

-- The first transaction is a coinbase.
abbrev pub starts_with_coinbase : List Transaction → Bool
starts_with_coinbase [] = false
starts_with_coinbase (tx ∷ vtx) = is_coin_base tx

-- Whether a transaction is a coinbase; and whether a later one than the first is.
abbrev pub has_coinbase : List Transaction → Bool
has_coinbase [] = false
has_coinbase (tx ∷ vtx) = is_coin_base tx || has_coinbase vtx

abbrev pub more_coinbases : List Transaction → Bool
more_coinbases [] = false
more_coinbases (tx ∷ vtx) = has_coinbase vtx

-- The loop over CheckTransaction, and what follows it.
unfoldable pub check_transactions : List Transaction → Result Verdict → Result Verdict
unfolding check_transaction
check_transactions [] rest = rest
check_transactions (tx ∷ vtx) rest = check_transaction tx >>= λ verdict. elim verdict [
  | accepted ↦ check_transactions vtx rest
  | rejected penalty ↦ ok (rejected penalty)
]

-- The set of the hashes, in the order of their insertion backwards.
unfoldable pub unique_hashes : List ℕ → List ℕ → List ℕ
unique_hashes unique_tx [] = unique_tx
unique_hashes unique_tx (hash ∷ hashes) =
    unique_hashes (if contains unique_tx hash then unique_tx else hash ∷ unique_tx) hashes

module _ (get_hash : Transaction → ℕ) (hash2 : ℕ → ℕ → ℕ) (check_proof_of_work : Block → Bool)
    (adjusted_time : ℕ) where
  -- The hashes of the transactions.
  abbrev pub tx_hashes : Block → List ℕ
  tx_hashes block = map get_hash block.vtx

  -- The part behind CheckTransaction.
  unfoldable pub check_hashes_and_sig_ops : Bool → Block → Result Verdict
  unfolding unique_hashes sig_ops_of_txs
  check_hashes_and_sig_ops f_check_merkle_root block =
      refuse_if (not (length (unique_hashes [] (tx_hashes block)) == length block.vtx)) 100 (
        sig_ops_of_txs block.vtx >>= λ n_sig_ops. refuse_if (ltb 20000 n_sig_ops) 100 (
          refuse_if
            (f_check_merkle_root
              && not (block.hash_merkle_root == (build_merkle_tree hash2 (tx_hashes block)).1))
            100 (ok accepted)))

  -- CheckBlock
  unfoldable pub check_block : Bool → Bool → Block → Result Verdict
  unfolding check_transactions check_hashes_and_sig_ops
  check_block f_check_pow f_check_merkle_root block =
      refuse_if
        (length block.vtx == 0
          || ltb max_block_size (length block.vtx)
          || ltb max_block_size (block_size block))
        100
        (refuse_if (f_check_pow && not (check_proof_of_work block)) 50 (
          refuse_if (ltb (adjusted_time + 7200) block.n_time) 0 (
            refuse_if (not (starts_with_coinbase block.vtx)) 100 (
              refuse_if (more_coinbases block.vtx) 100 (
                check_transactions block.vtx
                  (check_hashes_and_sig_ops f_check_merkle_root block))))))
