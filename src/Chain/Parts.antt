-- ===== src/Chain/Parts.antt =====
-- The blocks and the index that the check of a lottery reads (src/core.h: CBlock; src/main.h:
-- CBlockIndex), and what the other parts of the node answer.
use dsvalue.Prelude.{ℕ, Bool, List, Option}
use dsvalue.Prelude.Int.{ℤ}
use dsvalue.Core.{Transaction}
use dsvalue.Lotto.Header.{LottoHeader}

-- The parts of CBlock that the check reads.
pub record Block : Type 0 where
  pub hash : ℕ
  pub hash_prev_block : ℕ
  pub hash_merkle_root : ℕ
  pub n_time : ℕ
  pub lotto_header : LottoHeader
  pub vtx : List Transaction

-- A CBlockIndex of the own chain: its height, the key in its header, and the block on the disk, if it
-- can be read.
pub record BlockIndex : Type 0 where
  pub n_height : ℕ
  pub u_lotto_key : ℕ
  pub on_disk : Option Block

-- A CBlockIndex of the Bitcoin chain: its hash, and that of the block before it, if there is one.
pub record BitcoinIndex : Type 0 where
  pub hash : ℕ
  pub prev_hash : Option ℕ

-- What the rest of the node answers: mapBlockIndex, Checkpoints::CheckBlock, GetBitcoinBlockIndex of the
-- manager of the Bitcoin chain, ReadLotteryKey of the database of keys, pprev of an index, the headers
-- of chainActive, ReadClottoData of the file of keys, and the two hashes of src/hash.h. The parameters
-- of the node are there too: nIntervalLottery is not 0, and `rounds` is the fuel of a draw.
pub record Node : Type 0 where
  pub hash_genesis_block : ℕ
  pub find_index : ℕ → Option BlockIndex
  pub check_block : ℕ → ℕ → Bool
  pub bitcoin_index : ℤ → Option BitcoinIndex
  pub read_lottery_key : ℕ → Option (List ℕ)
  pub pprev : BlockIndex → Option BlockIndex
  pub chain_active : ℕ → Option LottoHeader
  pub read_clotto_data : ℕ → ℕ → Option (List ℕ)
  pub hash_with : ℕ → List ℕ → ℕ
  pub hash_of : ℕ → ℕ
  pub rounds : ℕ
  pub n_lotto_step : ℕ
  pub n_interval_lottery : ℕ
  pub pool_key_id : List ℕ
  pub tip_height : ℕ
