-- ===== src/Chain/Tests.antt =====
-- A block that takes in a bet and draws a lottery, at concrete values.
mod Validation
use dsvalue.Prelude.{
  ℕ, ◌+◌, ◌-◌, ◌%◌, ◌^◌, ◌*◌, All, ◌≡◌, refl, true, false, ◌≤◌, ◌↔◌, arith, List, [], ◌∷◌, ◌++◌,
  Option, none, some, ok, replicate, if◌then◌else◌, ◌==◌,
}
use dsvalue.Prelude.Int.{ℤ, pos, negsuc, add64, sub64, mul32, ◌-ℤ◌}
use dsvalue.Core.{TxIn, TxOut, Transaction}
use dsvalue.Script.{get_bet_data, get_op, op_lotto}
use dsvalue.Lotto.Lottery
use dsvalue.Lotto.Header.{
  LottoHeader, get_first_bitcoin_height, get_last_bitcoin_height, get_last_bitcoin_hash,
}
use dsvalue.Prelude.Sorted.{sort, is_unique}
use dsvalue.Lotto.Data.{get_type, get_addr, get_select_v}
use dsvalue.Lotto.Select.{m_select_n}
use dsvalue.Lotto.Bet.{put_bet_data, put_lucky_star, scale_reward, put_reward}
use dsvalue.Prelude.Double.{to_int64}
use dsvalue.Lotto.Bet.Pick156
use dsvalue.Chain.Payments.{plain_script, lotto_value_from-plain}
use dsvalue.Chain.Bets.{
  lotto_value_from, get_lotto_tx_out_type, valid_lotto_state, normal_state,
  get_lotto_value_from_block,
}
use dsvalue.Chain.Parts.{Block, BlockIndex, BitcoinIndex, Node}
use dsvalue.Coins.{Coins, is_available}
use dsvalue.Core.{max_money, value_out_from, get_value_out}
use dsvalue.Core.Value.{value_sum}
use dsvalue.Coins.View.{CoinsView, Cache, cache_view, fetch_coins, have_inputs}
use dsvalue.Coins.View.Inputs.{all_outputs}
use dsvalue.Serialize.{get_size_of_compact_size}
use dsvalue.Chain.Verdict.{accepted}
use dsvalue.Chain.Transactions.{check_transaction}
use dsvalue.Chain.Transactions.WellFormed.{IsWellFormed, check_transaction-IsWellFormed}
use dsvalue.Chain.Inputs.{check_inputs}
use dsvalue.Chain.Inputs.Amounts.{input_sum, all_matured, check_inputs-covered}
use dsvalue.Chain.Returns.{EndsLike, get_lotto_tx_out_type-EndsLike}
use dsvalue.Core.Merkle.{build_merkle_tree}
use dsvalue.Chain.Blocks.{starts_with_coinbase, more_coinbases, check_block}
use dsvalue.Chain.Blocks.Accepted.{IsApart, check_block-accepted}
use dsvalue.Chain.Check.{check_lotto_result}
use dsvalue.Chain.Draw.{set_destination, draw_lottery, bet_outs_of_block}
use dsvalue.Chain.Bits.{bits, total}
use dsvalue.Chain.Payouts.{bet_outs_of_block-get_lotto_value_from_block}
use dsvalue.Lotto.Lottery.{init}
use dsvalue.Lotto.Lottery.Statistics.{get_reward_output}
use dsvalue.Lotto.Draw.{create_lucky_star_map}
use dsvalue.Chain.Conservation.{
  IsAccepted, last_pool, total_paid, total_bets, check_lotto_result-conserves,
}

abbrev pool_key : List ℕ
pool_key = replicate 20 5

-- A payment to the pool with a bet on the numbers 1 to 6.
abbrev bet_script : List ℕ
bet_script =
    0x76
    ∷ 0xa9
    ∷ 20
    ∷ (pool_key ++ (op_lotto ∷ 27 ∷ 0 ∷ (replicate 20 8 ++ (1 ∷ 2 ∷ 3 ∷ 4 ∷ 5 ∷ 6 ∷ []))))

abbrev bet_out : TxOut
bet_out = record { n_value = pos 200000000; script_pub_key = bet_script }

bet_is_valid :
    get_lotto_tx_out_type pool_key 9000 bet_out normal_state ≡ ok (true, valid_lotto_state)
unfolding get_lotto_tx_out_type get_op Lottery.is_valid get_type get_addr get_select_v put_bet_data
    Pick156.is_valid sort is_unique m_select_n
bet_is_valid = refl

abbrev zero_header : LottoHeader
zero_header = record {
  n_version = 1;
  m_bitcoin_hash = (400, 70) ∷ [];
  ll_pool = pos 1000000000000;
  n_lotto_id = 3;
  u_lotto_key = 8;
}

abbrev input : ℕ → TxIn
input spent = record { prevout = record { hash = spent; n = 0 }; script_sig = []; n_sequence = 0 }

abbrev prize : TxOut
prize = record { n_value = pos 600000000000; script_pub_key = set_destination (replicate 20 8) }

abbrev coinbase : Transaction
coinbase = record {
  n_version = 1;
  vin =
      record { prevout = record { hash = 0; n = 0xffffffff }; script_sig = []; n_sequence = 0 }
      ∷ [];
  vout = record { n_value = pos 20; script_pub_key = [] } ∷ prize ∷ [];
  n_lock_time = 0;
}

abbrev betting : Transaction
betting = record { n_version = 1; vin = input 4 ∷ []; vout = bet_out ∷ []; n_lock_time = 0 }

abbrev block_before : Block
block_before = record {
  hash = 90;
  hash_prev_block = 89;
  hash_merkle_root = 0;
  n_time = 0;
  lotto_header = zero_header;
  vtx = [];
}

abbrev drawing_block : Block
drawing_block = record {
  hash = 91;
  hash_prev_block = 90;
  hash_merkle_root = 0;
  n_time = 0;
  lotto_header = record {
    n_version = 1;
    m_bitcoin_hash = (401, 71) ∷ (402, 72) ∷ [];
    ll_pool = pos 400200000000;
    n_lotto_id = 4;
    u_lotto_key = 9;
  };
  vtx = coinbase ∷ betting ∷ [];
}

abbrev block_of_bets : Block
block_of_bets = record {
  hash = 89;
  hash_prev_block = 88;
  hash_merkle_root = 0;
  n_time = 0;
  lotto_header = zero_header;
  vtx = coinbase ∷ betting ∷ [];
}

abbrev index_of_bets : BlockIndex
index_of_bets = record { n_height = 4; u_lotto_key = 8; on_disk = some block_of_bets }

abbrev index_before : BlockIndex
index_before = record { n_height = 5; u_lotto_key = 8; on_disk = some block_before }

-- The Bitcoin chain has the hash h - 330 at height h.
abbrev bitcoin_chain : ℤ → Option BitcoinIndex
bitcoin_chain (pos h) = some (record { hash = h - 330; prev_hash = some (h - 331) })
bitcoin_chain (negsuc h) = none

abbrev a_node : Node
a_node = record {
  hash_genesis_block = 1;
  find_index = λ hash. if hash == 90 then some index_before else none;
  check_block = λ height hash. true;
  bitcoin_index = bitcoin_chain;
  read_lottery_key = λ id. if id == 4 then some (9 ∷ []) else none;
  pprev = λ index. if index.n_height == 5 then some index_of_bets else none;
  chain_active = λ height. if height == 4 then some zero_header else none;
  read_clotto_data = λ id key. if id == 4 then some (3 ∷ []) else none;
  hash_with = λ hash tep. 255;
  hash_of = λ hash. hash + 1;
  rounds = 20;
  n_lotto_step = 0;
  n_interval_lottery = 1;
  pool_key_id = pool_key;
  tip_height = 9000;
}

bets_taken : get_lotto_value_from_block pool_key 9000 (coinbase ∷ betting ∷ []) ≡ ok (pos 200000000)
unfolding get_lotto_value_from_block get_op Lottery.is_valid get_type get_addr get_select_v
    put_bet_data Pick156.is_valid sort is_unique m_select_n add64
bets_taken = refl

drawing_block-IsAccepted : IsAccepted a_node index_before block_before drawing_block
unfolding check_lotto_result get_lotto_value_from_block draw_lottery bet_outs_of_block get_op
    get_bet_data Lottery.is_valid get_type get_addr get_select_v put_bet_data put_lucky_star
    Pick156.is_valid Pick156.create_reward_map Pick156.fill_rewards scale_reward put_reward mul32
    Pick156.get_mulit to_int64 sub64 ◌-ℤ◌ sort is_unique m_select_n add64 init create_lucky_star_map
    get_reward_output get_first_bitcoin_height get_last_bitcoin_height get_last_bitcoin_hash
drawing_block-IsAccepted = record { not_genesis = refl; found = refl; disk = refl; passes = refl }

check_lotto_result-conserves_example :
    (last_pool block_before ((a_node, index_before, drawing_block) ∷ [])
        + total_paid block_before ((a_node, index_before, drawing_block) ∷ []))
      % 2 ^ 64
    ≡ (bits (pos 1000000000000) + total_bets ((a_node, index_before, drawing_block) ∷ [])) % 2 ^ 64
check_lotto_result-conserves_example =
    check_lotto_result-conserves block_before ((a_node, index_before, drawing_block) ∷ [])
      (drawing_block-IsAccepted, tt)

-- A plain payment behind a bet is counted as a bet.
lotto_value_from-plain_example :
    lotto_value_from pool_key 9000
      (record { n_value = pos 7; script_pub_key = plain_script pool_key } ∷ [])
      valid_lotto_state
      (pos 200000000)
    ≡ ok (pos 200000007)
unfolding lotto_value_from add64
lotto_value_from-plain_example =
    lotto_value_from-plain pool_key 9000 (pos 7) [] valid_lotto_state (pos 200000000) refl

-- The bets that the draw enters are the bets that the block brought in.
bet_outs_of_block-get_lotto_value_from_block_example :
    (v : ℤ) × (get_lotto_value_from_block pool_key 9010 (coinbase ∷ betting ∷ []) ≡ ok v)
    × (bits v % 2 ^ 64 ≡ total (bet_out ∷ []) % 2 ^ 64)
unfolding bet_outs_of_block get_lotto_tx_out_type get_op Lottery.is_valid get_type get_addr
    get_select_v put_bet_data Pick156.is_valid sort is_unique m_select_n
bet_outs_of_block-get_lotto_value_from_block_example =
    bet_outs_of_block-get_lotto_value_from_block pool_key 9010 9000 coinbase (betting ∷ [])
      (bet_out ∷ []) refl refl refl

get_lotto_tx_out_type-EndsLike_example :
    EndsLike bet_out (get_lotto_tx_out_type pool_key 9000 bet_out normal_state)
get_lotto_tx_out_type-EndsLike_example =
    get_lotto_tx_out_type-EndsLike pool_key 9000 bet_out normal_state
