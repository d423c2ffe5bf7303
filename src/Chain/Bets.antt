-- ===== src/Chain/Bets.antt =====
-- The bets of a transaction and of a block: CTxOut::GetLottoTxOutType and CTransaction::IsTransactionValid
-- (src/core.cpp), CScript::IsSendPoolAdress (src/script.cpp), GetLottoValueFromTx and
-- GetLottoValueFromBlock (src/main.cpp). A uint160 is a list of 20 bytes.
use dsvalue.Prelude.{
  ℕ, zero, suc, Bool, true, false, not, ◌&&◌, ◌||◌, List, [], ◌∷◌, none, some, Result, ok, err,
  Error, ◌>>=◌, if◌then◌else◌, ltb, ◌==◌, length, replicate, list_eq,
}
use dsvalue.Prelude.Int.{ℤ, pos, add64}
use dsvalue.Core.{TxOut, Transaction}
use dsvalue.Coins.{is_coin_base}
use dsvalue.Script.{get_op, op_16, op_lotto}
use dsvalue.Lotto.Lottery.{is_valid}

-- TransactionState
pub data TxState : Type 0 where
  normal_state valid_lotto_state invalid_lotto_state : TxState

abbrev pub is_valid_state : TxState → Bool
is_valid_state valid_lotto_state = true
is_valid_state _ = false

abbrev pub is_invalid_state : TxState → Bool
is_invalid_state invalid_lotto_state = true
is_invalid_state _ = false

-- OP_RIPEMD160, OP_SHA1, OP_SHA256, OP_HASH160 and OP_HASH256
abbrev pub is_hash_op : ℕ → Bool
is_hash_op opcode =
    opcode == 0xa6 || opcode == 0xa7 || opcode == 0xa8 || opcode == 0xa9 || opcode == 0xaa

abbrev pub zero_address : List ℕ
zero_address = replicate 20 0

-- uint160(vch)
abbrev pub uint160 : List ℕ → List ℕ
uint160 vch = if length vch == 20 then vch else zero_address

-- ++nOpCount, for the opcodes that count.
abbrev pub count_op : ℕ → ℕ → ℕ
count_op opcode n_op_count = if ltb op_16 opcode then suc n_op_count else n_op_count

abbrev pub too_many : ℕ → ℕ → Bool
too_many opcode n_op_count = ltb op_16 opcode && ltb 201 (count_op opcode n_op_count)

-- The loop of GetLottoPoolAddressFromTx, from the count of operations and the address so far.
unfoldable pub pool_address_from : ℕ → ℕ → List ℕ → List ℕ → Result (List ℕ)
pool_address_from fuel n_op_count address [] = ok address
pool_address_from zero n_op_count address (x ∷ xs) = err Error.fuel
pool_address_from (suc fuel) n_op_count address (x ∷ xs) = elim (get_op (x ∷ xs)) [
  | none ↦ ok zero_address
  | some (opcode, _, rest) ↦
      if too_many opcode n_op_count then ok zero_address else elim (is_hash_op opcode) [
        | false ↦ pool_address_from fuel (count_op opcode n_op_count) address rest
        | true ↦ elim (get_op rest) [
          | none ↦ ok zero_address
          | some (_, vch, rest') ↦
              pool_address_from fuel (count_op opcode n_op_count) (uint160 vch) rest'
        ]
      ]
]

-- CScript::GetLottoPoolAddressFromTx
unfoldable pub get_lotto_pool_address_from_tx : List ℕ → Result (List ℕ)
unfolding pool_address_from
get_lotto_pool_address_from_tx script = pool_address_from (length script) 0 zero_address script

module _ (pool_key_id : List ℕ) (tip_height : ℕ) where
  -- CScript::IsSendPoolAdress, with the key of the pool's address.
  unfoldable pub is_send_pool_adress : List ℕ → Result Bool
  unfolding get_lotto_pool_address_from_tx
  is_send_pool_adress script =
      get_lotto_pool_address_from_tx script >>= λ address. ok (list_eq address pool_key_id)

  -- The state of a bet: one that is not valid is taken for valid up to height 4380.
  abbrev pub state_of_bet : Bool → TxState
  state_of_bet is_bet =
      if not is_bet && ltb 4380 tip_height then invalid_lotto_state else valid_lotto_state

  -- The loop of GetLottoTxOutType: the result, and TxType.
  unfoldable pub out_type_from : ℕ → ℕ → ℤ → TxState → List ℕ → Result (Bool × TxState)
  out_type_from fuel n_op_count n_value tx_type [] = ok (true, tx_type)
  out_type_from zero n_op_count n_value tx_type (x ∷ xs) = err Error.fuel
  out_type_from (suc fuel) n_op_count n_value tx_type (x ∷ xs) = elim (get_op (x ∷ xs)) [
    | none ↦ ok (false, tx_type)
    | some (opcode, _, rest) ↦
        let later = out_type_from fuel (count_op opcode n_op_count) n_value tx_type rest in
        if too_many opcode n_op_count
        then ok (false, tx_type)
        else if opcode == op_lotto
        then elim (get_op rest) [
          | none ↦ ok (false, tx_type)
          | some (_, vch, _) ↦ is_valid vch n_value >>= λ is_bet. ok (true, state_of_bet is_bet)
        ]
        else later
  ]

  -- CTxOut::GetLottoTxOutType, from the value that TxType has.
  unfoldable pub get_lotto_tx_out_type : TxOut → TxState → Result (Bool × TxState)
  unfolding is_send_pool_adress out_type_from
  get_lotto_tx_out_type txout tx_type = is_send_pool_adress txout.script_pub_key >>= λ is_send.
      if is_send
      then out_type_from (length txout.script_pub_key) 0 txout.n_value tx_type txout.script_pub_key
      else ok (true, normal_state)

  -- The loop of IsTransactionValid.
  unfoldable pub outs_are_valid : List TxOut → TxState → Result Bool
  unfolding get_lotto_tx_out_type
  outs_are_valid [] tx_type = ok true
  outs_are_valid (txout ∷ vout) tx_type = get_lotto_tx_out_type txout tx_type >>= λ r.
      elim (r.0 && not (is_invalid_state r.1)) [ true ↦ outs_are_valid vout r.1 | false ↦ ok false ]

  -- CTransaction::IsTransactionValid
  unfoldable pub is_transaction_valid : Transaction → Result Bool
  unfolding outs_are_valid
  is_transaction_valid tx = outs_are_valid tx.vout normal_state

  -- The loop of GetLottoValueFromTx, from the sum so far and what TxType has.
  unfoldable pub lotto_value_from : List TxOut → TxState → ℤ → Result ℤ
  unfolding get_lotto_tx_out_type
  lotto_value_from [] tx_type n_cur_bet_value = ok n_cur_bet_value
  lotto_value_from (txout ∷ vout) tx_type n_cur_bet_value =
      get_lotto_tx_out_type txout tx_type >>= λ r.
      lotto_value_from vout r.1
        (if r.0 && is_valid_state r.1 then add64 n_cur_bet_value txout.n_value else n_cur_bet_value)

  -- GetLottoValueFromTx
  unfoldable pub get_lotto_value_from_tx : Transaction → Result ℤ
  unfolding lotto_value_from
  get_lotto_value_from_tx tx =
      if is_coin_base tx then ok (pos 0) else lotto_value_from tx.vout normal_state (pos 0)

  -- GetLottoValueFromBlock, on the transactions of the block, from the sum so far.
  unfoldable pub lotto_value_of_txs : List Transaction → ℤ → Result ℤ
  unfolding get_lotto_value_from_tx
  lotto_value_of_txs [] n_cur_bet_value = ok n_cur_bet_value
  lotto_value_of_txs (tx ∷ vtx) n_cur_bet_value =
      get_lotto_value_from_tx tx >>= λ value. lotto_value_of_txs vtx (add64 n_cur_bet_value value)

  unfoldable pub get_lotto_value_from_block : List Transaction → Result ℤ
  unfolding lotto_value_of_txs
  get_lotto_value_from_block vtx = lotto_value_of_txs vtx (pos 0)
