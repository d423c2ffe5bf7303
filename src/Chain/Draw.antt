-- ===== src/Chain/Draw.antt =====
-- The draw of a lottery from the block of its bets: DrawLottery and GetLotteryHash (src/miner.cpp), the
-- constructor of CLotto that they use (src/lotto/CLotto.cpp), and SetDestination for a CKeyID
-- (src/script.cpp). nLottoStep is only cut off at the interval, and so it is read here each time.
use dsvalue.Prelude.{
  ℕ, zero, suc, ◌+◌, ◌-◌, ◌*◌, ◌/◌, ◌&&◌, ◌||◌, List, [], ◌∷◌, ◌++◌, Option, none, some, Result, ok,
  err, Error, ◌>>=◌, if◌then◌else◌, ltb, leb, ◌==◌,
}
use dsvalue.Prelude.Int.{ℤ, pos}
use dsvalue.Core.{TxOut, Transaction}
use dsvalue.Coins.{is_coin_base}
use dsvalue.Lotto.Header.{last_entry}
use dsvalue.Lotto.Lottery.{Lottery, init}
use dsvalue.Lotto.Lottery.Statistics.{Payment, get_reward_output}
use dsvalue.Chain.Bets.{TxState, normal_state, is_valid_state, get_lotto_tx_out_type}
use dsvalue.Chain.Parts.{Block, BlockIndex, Node}

module _ (pool_key_id : List ℕ) (tip_height : ℕ) where
  -- The loop over the outputs of a transaction, with what TxType has.
  unfoldable pub bet_outs_from : List TxOut → TxState → Result (List TxOut)
  bet_outs_from [] tx_type = ok []
  bet_outs_from (txout ∷ vout) tx_type =
      get_lotto_tx_out_type pool_key_id tip_height txout tx_type >>= λ r.
      bet_outs_from vout r.1 >>= λ v_bet.
      ok (if r.0 && is_valid_state r.1 then txout ∷ v_bet else v_bet)

  unfoldable pub bet_outs_of_tx : Transaction → Result (List TxOut)
  unfolding bet_outs_from
  bet_outs_of_tx tx = if is_coin_base tx then ok [] else bet_outs_from tx.vout normal_state

  unfoldable pub bet_outs_of_txs : List Transaction → Result (List TxOut)
  unfolding bet_outs_of_tx
  bet_outs_of_txs [] = ok []
  bet_outs_of_txs (tx ∷ vtx) =
      bet_outs_of_tx tx >>= λ outs. bet_outs_of_txs vtx >>= λ v_bet. ok (outs ++ v_bet)

  -- The loop over the transactions of the block, from the second one on.
  unfoldable pub bet_outs_of_block : List Transaction → Result (List TxOut)
  unfolding bet_outs_of_txs
  bet_outs_of_block [] = ok []
  bet_outs_of_block (tx ∷ vtx) = bet_outs_of_txs vtx

-- while (nStep--) pDrawLotteryIndex = pDrawLotteryIndex->pprev; Assert(pDrawLotteryIndex)
unfoldable pub walk_back : Node → ℕ → Option BlockIndex → Result BlockIndex
walk_back node zero none = err Error.assertion
walk_back node zero (some index) = ok index
walk_back node (suc n_step) none = err Error.undefined
walk_back node (suc n_step) (some index) = walk_back node n_step (node.pprev index)

-- The step, which is below the interval.
abbrev pub lotto_step : Node → ℕ
lotto_step node =
    if leb node.n_interval_lottery node.n_lotto_step
    then node.n_interval_lottery - 1
    else node.n_lotto_step

-- GetLotteryHash
unfoldable pub get_lottery_hash : Node → BlockIndex → Result ℕ
get_lottery_hash node index =
    let round = index.n_height / node.n_interval_lottery in
    if round == 0
    then ok 0
    else elim (node.chain_active (node.n_interval_lottery * (round - 1) + lotto_step node)) [
      | none ↦ err Error.assertion
      | some header ↦ elim (last_entry header.m_bitcoin_hash) [
        | none ↦ err Error.undefined
        | some (height, hash) ↦ ok hash
      ]
    ]

-- The hash of a lottery: with the data of the file of keys, if it has the key, and 0 otherwise.
abbrev pub mixed_hash : Node → ℕ → Option (List ℕ) → ℕ
mixed_hash node bitcoin_hash none = 0
mixed_hash node bitcoin_hash (some tep) = node.hash_with bitcoin_hash tep

-- The constructor of CLotto, from the hash of a Bitcoin block and the key in the file of keys.
unfoldable pub new_lottery : Node → ℕ → ℕ → ℕ → ℤ → List TxOut → Result Lottery
unfolding init
new_lottery node bitcoin_hash lotto_id secret_hash reward_pool outs =
    init node.hash_of node.rounds
      (mixed_hash node bitcoin_hash (node.read_clotto_data lotto_id secret_hash)) reward_pool outs

-- SetDestination(CKeyID(address))
abbrev pub set_destination : List ℕ → List ℕ
set_destination address = 0x76 ∷ 0xa9 ∷ 20 ∷ (address ++ (0x88 ∷ 0xac ∷ []))

-- The outputs of what GetReWardOutput pays.
abbrev pub outs_of : List Payment → List TxOut
outs_of [] = []
outs_of ((n_value, address) ∷ paid) =
    record { n_value = n_value; script_pub_key = set_destination address } ∷ outs_of paid

-- The lottery on the bets of the block, if there are any: vTxOut and llRewards.
unfoldable pub settle_bets : Node → ℤ → BlockIndex → ℕ → ℕ → List TxOut → Result (List TxOut × ℤ)
unfolding new_lottery get_lottery_hash get_reward_output
settle_bets node draw_pool index n_id u_lotto_key v_bet = do
  lottery_hash ← get_lottery_hash node index
  elim v_bet [
    | [] ↦ ok ([], pos 0)
    | bet ∷ bets ↦ (do
      alotto ← new_lottery node lottery_hash n_id u_lotto_key draw_pool (bet ∷ bets)
      r ← get_reward_output alotto (pos 0)
      ok (outs_of r.1, r.2))
  ]

-- The block of the bets, from the disk.
abbrev pub read_block : Option Block → Result Block
read_block none = err Error.thrown
read_block (some block) = ok block

-- DrawLottery, on an empty vTxOut and llRewards 0.
unfoldable pub draw_lottery : Node → ℤ → BlockIndex → ℕ → ℕ → Result (List TxOut × ℤ)
unfolding walk_back settle_bets bet_outs_of_block
draw_lottery node draw_pool index n_id u_lotto_key =
    if ltb index.n_height (2 * node.n_interval_lottery) || 0 == u_lotto_key
    then ok ([], pos 0)
    else (do
      draw_index ← walk_back node (2 * node.n_interval_lottery - 1) (some index)
      lottery_block ← read_block draw_index.on_disk
      v_bet ← bet_outs_of_block node.pool_key_id node.tip_height lottery_block.vtx
      settle_bets node draw_pool index n_id u_lotto_key v_bet)
