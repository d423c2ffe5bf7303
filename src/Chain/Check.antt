-- ===== src/Chain/Check.antt =====
-- The check of the lottery of a block: CheckLottoResult and GetLotteryKey (src/main.cpp).
use dsvalue.Prelude.{
  ℕ, ◌+◌, ◌-◌, ◌*◌, ◌/◌, ◌%◌, Bool, true, false, not, ◌&&◌, ◌||◌, List, [], ◌∷◌, Option, none, some,
  Result, ok, err, Error, ◌>>=◌, if◌then◌else◌, ltb, leb, ◌==◌, length,
}
use dsvalue.Prelude.Int.{ℤ, pos, add64, sub_ℕ}
use dsvalue.Prelude.Map.{Map}
use dsvalue.Core.{TxOut, Transaction}
use dsvalue.Pool.{same_value, same_list, same_out}
use dsvalue.Lotto.Header.{
  LottoHeader, get_first_bitcoin_height, get_last_bitcoin_height, get_last_bitcoin_hash,
}
use dsvalue.Chain.Bets.{get_lotto_value_from_block}
use dsvalue.Chain.Verdict.{Verdict, accepted, rejected, refuse_if}
use dsvalue.Chain.Parts.{Block, BlockIndex, BitcoinIndex, Node}
use dsvalue.Chain.Draw.{draw_lottery}

abbrev pub btc_start_hight : ℕ
btc_start_hight = 308447

-- GetLotteryKey: whether there is a key, nID and the key.
unfoldable pub get_lottery_key : Node → ℕ → Result (Bool × ℕ × ℕ)
get_lottery_key node n_height =
    let n_id = n_height / node.n_interval_lottery - 1 in
    if leb n_height (2 * node.n_interval_lottery)
    then ok (true, 0, 1)
    else elim (node.read_lottery_key n_id) [
      | none ↦ ok (false, n_id, 0)
      | some keys ↦ (elim keys [ [] ↦ err Error.undefined | key ∷ _ ↦ ok (true, n_id, key) ])
    ]

-- Whether the index is there and has another hash than `hash`.
abbrev pub has_other_hash : Option BitcoinIndex → ℕ → Bool
has_other_hash none hash = false
has_other_hash (some index) hash = not (hash == index.hash)

-- The test on the block before, if there is one, against the hash of the entry before.
abbrev pub prev_differs : Option ℕ → ℕ → Bool
prev_differs none iter_pre = false
prev_differs (some prev) iter_pre = not (prev == iter_pre)

-- The loop over the Bitcoin hashes of the header, with the hash of the entry before.
unfoldable pub check_hashes : Node → Map ℕ → ℕ → Result Verdict → Result Verdict
check_hashes node [] iter_pre rest = rest
check_hashes node ((height, hash) ∷ m) iter_pre rest = elim (node.bitcoin_index (pos height)) [
  | none ↦ ok (rejected 0)
  | some index ↦
      refuse_if
        ((not (iter_pre == 0) && prev_differs index.prev_hash iter_pre) || not (index.hash == hash))
        0 (refuse_if (iter_pre == hash) 100 (check_hashes node m hash rest))
]

-- The first Bitcoin hash of the header against the last one of the block before.
unfoldable pub check_start : Node → LottoHeader → LottoHeader → Result Verdict → Result Verdict
check_start node header before rest =
    let first = get_first_bitcoin_height header in
    let last = get_last_bitcoin_hash before in
    if first == btc_start_hight then rest else elim (node.bitcoin_index (pos first)) [
      | none ↦ ok (rejected 0)
      | some index ↦
          refuse_if
            (not (last == index.hash) && has_other_hash (node.bitcoin_index (sub_ℕ first 1)) last)
            100 rest
    ]

-- The outputs behind the first one, from vout.begin() + 1 on.
abbrev pub outs_behind : List TxOut → Result (List TxOut)
outs_behind [] = err Error.undefined
outs_behind (txout ∷ vout) = ok vout

unfoldable pub coinbase_outs : List Transaction → Result (List TxOut)
coinbase_outs [] = err Error.undefined
coinbase_outs (tx ∷ vtx) = outs_behind tx.vout

-- The check of the pool and of the outputs of the coinbase, where a lottery is drawn.
unfoldable pub check_drawn : Node → Block → BlockIndex → LottoHeader → ℤ → Result Verdict
unfolding get_lottery_key coinbase_outs
check_drawn node block index before n_cur_bet_value = do
  lotto_tx_out ← coinbase_outs block.vtx
  key ← get_lottery_key node index.n_height
  elim (key.0) [
    | false ↦ ok (rejected 0)
    | true ↦
        refuse_if
          (not (key.2 == block.lotto_header.u_lotto_key)
            || not (key.1 == block.lotto_header.n_lotto_id))
          100
          (draw_lottery node before.ll_pool index key.1 key.2 >>= λ drawn.
            refuse_if
              (not (
                same_value (add64 block.lotto_header.ll_pool drawn.1)
                  (add64 before.ll_pool n_cur_bet_value)))
              100 (refuse_if (not (same_list same_out drawn.0 lotto_tx_out)) 100 (ok accepted)))
  ]

-- How many outputs the coinbase has.
abbrev pub coinbase_size : List Transaction → Result ℕ
coinbase_size [] = err Error.undefined
coinbase_size (tx ∷ vtx) = ok (length tx.vout)

-- The check where none is drawn.
unfoldable pub check_undrawn : Node → Block → BlockIndex → LottoHeader → ℤ → Result Verdict
check_undrawn node block index before n_cur_bet_value =
    refuse_if (not (same_value block.lotto_header.ll_pool (add64 before.ll_pool n_cur_bet_value)))
      100
      (coinbase_size block.vtx >>= λ size. refuse_if (not (1 == size)) 100 (
        refuse_if
          (not (0 == index.n_height % node.n_interval_lottery)
            && not (0 == index.u_lotto_key)
            && not (1 == index.u_lotto_key)
            && 0 == block.lotto_header.u_lotto_key)
          100 (ok accepted)))

-- Whether the block draws a lottery.
abbrev pub draws : Node → Block → BlockIndex → Bool
draws node block index =
    leb (2 * node.n_interval_lottery) index.n_height && not (0 == block.lotto_header.u_lotto_key)

-- The part behind the hashes.
unfoldable pub check_pool : Node → Block → BlockIndex → LottoHeader → Result Verdict
unfolding check_drawn check_undrawn get_lotto_value_from_block
check_pool node block index before =
    get_lotto_value_from_block node.pool_key_id node.tip_height block.vtx >>= λ n_cur_bet_value.
    if draws node block index
    then check_drawn node block index before n_cur_bet_value
    else check_undrawn node block index before n_cur_bet_value

abbrev pub is_empty : Map ℕ → Bool
is_empty [] = true
is_empty (e ∷ m) = false

-- The check against the block before, if it can be read from the disk.
unfoldable pub check_before : Node → Block → BlockIndex → Option Block → Result Verdict
unfolding check_hashes check_start check_pool
check_before node block index none = ok (rejected 100)
check_before node block index (some before) =
    refuse_if
      (ltb (get_last_bitcoin_height before.lotto_header + 1)
        (get_first_bitcoin_height block.lotto_header))
      100
      (check_start node block.lotto_header before.lotto_header (
        check_hashes node block.lotto_header.m_bitcoin_hash 0
          (check_pool node block index before.lotto_header)))

unfoldable pub check_against : Node → Block → BlockIndex → Result Verdict
unfolding check_before
check_against node block index =
    refuse_if (is_empty block.lotto_header.m_bitcoin_hash) 100
      (check_before node block index index.on_disk)

-- CheckLottoResult
unfoldable pub check_lotto_result : Node → Block → Result Verdict
unfolding check_against
check_lotto_result node block =
    if block.hash == node.hash_genesis_block
    then ok accepted
    else elim (node.find_index block.hash_prev_block) [
      | none ↦ ok (rejected 10)
      | some index ↦
          refuse_if (not (node.check_block (index.n_height + 1) block.hash)) 100
            (check_against node block index)
    ]
