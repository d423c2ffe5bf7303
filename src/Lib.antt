-- ===== src/Lib.antt =====
-- DSValue, a Bitcoin node with a lottery in its chain: the lottery (src/lotto), the transactions and
-- scripts that carry it (src/core.h, core.cpp, script.h, script.cpp), and the coins that they leave
-- (src/coins.h, coins.cpp) with their form on disk. The hashes of a draw come from the Bitcoin chain,
-- whose headers the node follows (src/bitcoinnet).
--
-- A transaction may carry a bet: one byte for the game, 20 for the address that the prize goes to,
-- then the selected numbers. CBetData takes these apart, a subclass of CBet for each game judges the
-- selection and its stake, and at the end of a round CLotto draws the lucky numbers from a hash and
-- every bet computes what it won at each prize level.
--
--   Prelude             shared names; Int: the integers with the wrap-around of int64_t and int;
--                       Double: whole numbers as double; Sorted: std::sort and std::unique; Map:
--                       std::map; Bytes: range tests
--   Core                COutPoint, CTxIn, CTxOut, CTransaction and the compression of amounts
--                       (src/core.h, core.cpp)
--   Core/Merkle         the Merkle tree of CBlock (src/core.cpp)
--   Coins               CCoins (src/coins.h, coins.cpp); View: CCoinsView, as operations with their laws,
--                       and CCoinsViewCache, which keeps these laws again; Database: CCoinsViewDB
--                       (src/txdb.h, txdb.cpp), which keeps them too, and the flush of a cache into it
--   Coins/Undo          CTxInUndo in a stream (src/core.h); Coins/Codec: CCoins in a stream with the mask
--                       of its outputs (src/coins.h, coins.cpp)
--   Serialize           variable-length integers and compact sizes (src/serialize.h)
--   Compressor          CScriptCompressor and CTxOutCompressor (src/script.h, script.cpp, core.h)
--   Pool                CTxMemPool: adding, removing with what depends on it, conflicts, pruning of coins
--                       (src/txmempool.h, txmempool.cpp)
--   Index               CBlockIndex, its order by work and CChain (src/main.h, main.cpp); Order: that
--                       it is strict and tells all blocks apart; Tip: SetTip
--                       makes the chain of a block
--   BitcoinNet          the order of Bitcoin headers and the best chain of them:
--                       ConnectBestBlock of CChainManager (src/bitcoinnet/CChainManager.h,
--                       CChainManager.cpp)
--   Chain               the bets of a block, DrawLottery and CheckLottoResult (src/core.cpp, script.cpp,
--                       miner.cpp, main.cpp), CheckTransaction, CheckBlock and CheckInputs (main.cpp);
--                       Conservation: the pool along a chain; Payouts: what a draw enters and pays;
--                       Heights: how the height of the tip enters;
--                       Returns: the loops over a script end; Payments: plain payments to the pool;
--                       Connect: UpdateCoins and DisconnectBlock, behind the reading of the undo file
--                       (main.cpp), which give the coins of a block and take them back
--   Containers          mruset and limitedmap (src/mruset.h, limitedmap.h), at numbers
--   Script              GetOp, GetBetData and pushed data of CScript (src/script.h, script.cpp)
--   Lotto/Data          CBetData (src/lotto/CBetData.h)
--   Lotto/Select        MselectN and factorial of CBet (src/lotto/CBet.h)
--   Lotto/Bet           CBet (src/lotto/CBet.h, CBet.cpp)
--   Lotto/Bet/Pick156   CBet_15_6 (src/lotto/CBet156.h, CBet156.cpp)
--   Lotto/Bet/Mulity    CBetMulity (src/lotto/CBetMulity.h, CBetMulity.cpp)
--   Lotto/Draw          CLotto::CreateLuckyStarMap (src/lotto/CLotto.cpp)
--   Lotto/Header        CLottoHeader (src/lotto/CLottoHeader.h, CLottoHeader.cpp)
--   Lotto/Lottery       CLotto: Init, CreateCbet, IsValid (src/lotto/CLotto.h, CLotto.cpp); Statistics:
--                       CreateRewardSchemeMap, CreateStatisticsRewardMap, GetReWardOutput
--
-- A definition has the name of its function in snake case: `is_valid` is IsValid, `m_select_n` is
-- MselectN. Arithmetic on int64_t and int wraps around, as the compiled code does where the standard
-- leaves an overflow undefined. `Result` has the ends of C++ code that are no value: a failed Assert
-- or assert, a throw, undefined behaviour, and a loop that ran out of its fuel. An object is a
-- record, and a member function that changes it returns the new one.
--
-- The specification of a reward map is the list of all the tickets that a bet plays
-- (Lotto/Select/Tickets): `choose` lists them, `wins` counts those with a number of hits. No binomial
-- coefficient is in it.
--
-- Fuel: the loops of the draw run until enough numbers are found, for as long as the hashes do not
-- bring them, and so they have a fuel for their rounds. The search for a bet has the length of the
-- script as its fuel, since an operation takes a byte at least, and so have the other loops over a
-- script; the loops over the levels of a Merkle
-- tree have the number of its leaves, since a level has about half the size of the one below. The
-- removal from the pool has a fuel for the depth of its recursion, which has to be above the rank of
-- the transaction: the theorems take a ranking under which no transaction spends its own descendants.
-- SetTip has a fuel of the height of the block and one more, since the previous block is one lower; so
-- have the loops of ConnectBestBlock over the chains, and the search for a candidate has the number of
-- the candidates. A variable-length integer has as many rounds as its buffer has bytes.
--
-- Parameters: the hash of 32 bytes (`Hash` of src/hash.h over OpenSSL) is a function on numbers, and so
-- is the hash of two hashes, with no hypothesis on them. The curve of OpenSSL is a record of the two
-- functions on public keys that the compressor of scripts calls; what it assumes of them is the
-- hypothesis `Decompresses`: a valid key comes back from its compressed form. LevelDB, below
-- CCoinsViewDB, is the record KeyStore: a batch that is written is applied in its order. CoinsView asks
-- of a view that a batch written to it is read back, except that coins that are pruned may be gone. What the rest of the node
-- answers to CheckLottoResult (the block index and the disk, the checkpoints, the index of the Bitcoin
-- chain, the database of keys and the file of keys) is the record Node, with no hypothesis on it; its
-- field `rounds` is the fuel of a draw. Whether the database of Bitcoin headers takes what ConnectTip
-- writes is a pair of functions; the theorem on the best chain takes them to succeed. The key of the pool's address and the height of the tip are
-- arguments, and so are the hash of a transaction, the test of the proof of work and the adjusted time
-- for CheckBlock, and the height to spend at and the maturity of a coinbase for CheckInputs.
--
-- Not modelled: print and logging; the field vaddLuckyStar, which nothing uses; the evaluation of
-- scripts and signatures; the file that keeps the keys of lotteries; the checks of a Bitcoin header and
-- its entry into the index; the messages and sockets of the network, the wallet and the storage of the
-- node above LevelDB, the batches of coins excepted.
pub mod Prelude
pub mod Core
pub mod Coins
pub mod Containers
pub mod Script
pub mod Serialize
pub mod Compressor
pub mod Pool
pub mod Index
pub mod BitcoinNet
pub mod Lotto
pub mod Chain
