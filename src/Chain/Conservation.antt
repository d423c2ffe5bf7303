-- ===== src/Chain/Conservation.antt =====
-- What a chain of accepted blocks does to the pool of the lottery (src/main.cpp: CheckLottoResult).
use dsvalue.Prelude.{
  ℕ, ◌+◌, ◌%◌, ◌^◌, ◌≡◌, refl, ap, ◌∙◌, sym, subst, drop, length, Bool, true, false, not, List, [],
  ◌∷◌, some, Result, ok, err, >>=-eq-ok, ◌==◌, arith, Bool-cases, inl, inr,
}
use dsvalue.Prelude.Int.{ℤ, add64}
use dsvalue.Pool.{same_value, same_list, same_out}
use dsvalue.Core.{TxOut, Transaction}
use dsvalue.Pool.Conflicts.{same_value→≡, same_list→≡, same_out→≡}
use dsvalue.Lotto.Header.{LottoHeader}
use dsvalue.Chain.Bets.{get_lotto_value_from_block}
use dsvalue.Chain.Verdict.{accepted, refuse_if-accepted}
use dsvalue.Chain.Bits.{bits, bits-add64, total}
use dsvalue.Chain.Parts.{Block, BlockIndex, Node}
use dsvalue.Chain.Draw.{draw_lottery}
use dsvalue.Chain.Payouts.{IsSum, draw_lottery-IsSum}
use dsvalue.Chain.Passing.{check_hashes-accepted, check_start-accepted}
use dsvalue.Chain.Check.{
  get_lottery_key, outs_behind, coinbase_outs, coinbase_size, check_drawn, check_undrawn, draws,
  check_pool, is_empty, check_against, check_before, check_lotto_result,
}

abbrev bits_of : Result ℤ → ℕ
bits_of (ok z) = bits z
bits_of (err e) = 0

-- The outputs of the coinbase behind the first one.
abbrev pub prize_outs : List Transaction → List TxOut
prize_outs [] = []
prize_outs (tx ∷ vtx) = drop 1 tx.vout

-- What a block pays out behind the first output of its coinbase, and the bets that it takes in.
abbrev pub paid_by : Block → ℕ
paid_by block = total (prize_outs block.vtx)

abbrev pub bets_of : Node → Block → ℕ
bets_of node block = bits_of (get_lotto_value_from_block node.pool_key_id node.tip_height block.vtx)

not-false : (b : Bool) → not b ≡ false → b ≡ true
not-false true h = refl
not-false false h = cc

pool_balance :
    (pool rewards before bets : ℤ)
    → not (same_value (add64 pool rewards) (add64 before bets)) ≡ false
    → (bits pool + bits rewards) % 2 ^ 64 ≡ (bits before + bits bets) % 2 ^ 64
pool_balance pool rewards before bets h =
    sym (bits-add64 pool rewards)
    ∙ ap bits (same_value→≡ (add64 pool rewards) (add64 before bets) (not-false _ h))
    ∙ bits-add64 before bets

outs_behind-drop : (vout outs : List TxOut) → outs_behind vout ≡ ok outs → drop 1 vout ≡ outs
outs_behind-drop [] outs h = absurd (ground arith)
outs_behind-drop (txout ∷ vout) outs h = ground arith

coinbase_outs-prize_outs :
    (vtx : List Transaction) (outs : List TxOut)
    → coinbase_outs vtx ≡ ok outs
    → prize_outs vtx ≡ outs
unfolding coinbase_outs
coinbase_outs-prize_outs [] outs h = absurd (ground arith)
coinbase_outs-prize_outs (tx ∷ vtx) outs h = outs_behind-drop tx.vout outs h

total-alone : (vout : List TxOut) → length vout ≡ 1 → total (drop 1 vout) ≡ 0
total-alone [] h = refl
total-alone (txout ∷ []) h = refl
total-alone (txout ∷ txout' ∷ vout) h = absurd (ground arith)

-- A coinbase of one output pays nothing behind it.
coinbase_size-total :
    (vtx : List Transaction) (size : ℕ)
    → coinbase_size vtx ≡ ok size
    → not (1 == size) ≡ false
    → total (prize_outs vtx) ≡ 0
coinbase_size-total [] size h one = absurd (ground arith)
coinbase_size-total (tx ∷ vtx) size h one = total-alone tx.vout (ground arith)

-- The balance of a block of these prizes.
abbrev IsBalanced : ℤ → ℤ → ℤ → List TxOut → Type 0
IsBalanced pool before bets prizes =
    (bits pool + total prizes) % 2 ^ 64 ≡ (bits before + bits bets) % 2 ^ 64

drawn-IsBalanced :
    (pool before bets : ℤ) (drawn : List TxOut × ℤ) (outs : List TxOut)
    → not (same_value (add64 pool (drawn.1)) (add64 before bets)) ≡ false
    → IsSum drawn
    → not (same_list same_out (drawn.0) outs) ≡ false
    → IsBalanced pool before bets outs
drawn-IsBalanced pool before bets drawn outs balance sum same =
    let prizes = same_list→≡ same_out (drawn.0) outs same_out→≡ (not-false _ same) in
    subst (IsBalanced pool before bets) prizes
      (omega (arith, pool_balance pool (drawn.1) before bets balance, sum))

check_drawn-balance :
    (node : Node) (block : Block) (index : BlockIndex) (before : LottoHeader) (bets : ℤ)
    → check_drawn node block index before bets ≡ ok accepted
    → IsBalanced block.lotto_header.ll_pool before.ll_pool bets (prize_outs block.vtx)
unfolding check_drawn
check_drawn-balance node block index before bets h =
    let (outs, coinbase, h1) = >>=-eq-ok (coinbase_outs block.vtx) _ h in
    let (key, found, h2) = >>=-eq-ok (get_lottery_key node index.n_height) _ h1 in
    elim (Bool-cases (key.0)) [
      | inr no_key ↦ let t = rw no_key at h2 in absurd (ground arith)
      | inl has_key ↦
          let h3 = rw has_key at h2 in
          let (same_key, h4) = refuse_if-accepted _ 100 _ h3 in
          let (drawn, draw, h5) =
            >>=-eq-ok (draw_lottery node before.ll_pool index key.1 key.2) _ h4 in
          let (balance, h6) = refuse_if-accepted _ 100 _ h5 in
          let (same, h7) = refuse_if-accepted _ 100 _ h6 in
          subst (IsBalanced block.lotto_header.ll_pool before.ll_pool bets)
            (sym (coinbase_outs-prize_outs block.vtx outs coinbase))
            (drawn-IsBalanced block.lotto_header.ll_pool before.ll_pool bets drawn outs balance
              (draw_lottery-IsSum node before.ll_pool index (key.1) (key.2) drawn draw) same)
    ]

check_undrawn-balance :
    (node : Node) (block : Block) (index : BlockIndex) (before : LottoHeader) (bets : ℤ)
    → check_undrawn node block index before bets ≡ ok accepted
    → IsBalanced block.lotto_header.ll_pool before.ll_pool bets (prize_outs block.vtx)
unfolding check_undrawn
check_undrawn-balance node block index before bets h =
    let (same, h1) = refuse_if-accepted _ 100 _ h in
    let pool =
      same_value→≡ block.lotto_header.ll_pool (add64 before.ll_pool bets) (not-false _ same) in
    let (size, sized, h2) = >>=-eq-ok (coinbase_size block.vtx) _ h1 in
    let (one, h3) = refuse_if-accepted _ 100 _ h2 in
    omega (
      arith,
      ap bits pool ∙ bits-add64 before.ll_pool bets,
      coinbase_size-total block.vtx size sized one,
    )

check_pool-balance :
    (node : Node) (block : Block) (index : BlockIndex) (before : LottoHeader)
    → check_pool node block index before ≡ ok accepted
    → (bits block.lotto_header.ll_pool + paid_by block) % 2 ^ 64
      ≡ (bits before.ll_pool + bets_of node block) % 2 ^ 64
unfolding check_pool
check_pool-balance node block index before h =
    let value = get_lotto_value_from_block node.pool_key_id node.tip_height block.vtx in
    elim (Bool-cases (draws node block index)) [
      | inl yes_draw ↦
          let h1 = rw yes_draw at h in
          let (bets, taken, h2) = >>=-eq-ok value (check_drawn node block index before) h1 in
          rw taken (check_drawn-balance node block index before bets h2)
      | inr no_draw ↦
          let h1 = rw no_draw at h in
          let (bets, taken, h2) = >>=-eq-ok value (check_undrawn node block index before) h1 in
          rw taken (check_undrawn-balance node block index before bets h2)
    ]

check_against-balance :
    (node : Node) (block : Block) (index : BlockIndex) (before : Block)
    → index.on_disk ≡ some before
    → check_against node block index ≡ ok accepted
    → (bits block.lotto_header.ll_pool + paid_by block) % 2 ^ 64
      ≡ (bits before.lotto_header.ll_pool + bets_of node block) % 2 ^ 64
unfolding check_against check_before
check_against-balance node block index before disk h =
    let (has_hashes, h1) =
      refuse_if-accepted (is_empty block.lotto_header.m_bitcoin_hash) 100
        (check_before node block index index.on_disk) h in
    let h2 = ap (check_before node block index) (sym disk) ∙ h1 in
    let (no_gap, h3) = refuse_if-accepted _ 100 _ h2 in
    let h4 = check_start-accepted node block.lotto_header before.lotto_header _ h3 in
    let h5 = check_hashes-accepted node block.lotto_header.m_bitcoin_hash 0 _ h4 in
    check_pool-balance node block index before.lotto_header h5

-- A block that is accepted by the check of a node, on the block before it.
pub record IsAccepted (node : Node) (index : BlockIndex) (before block : Block) : Type 0 where
  pub not_genesis : (block.hash == node.hash_genesis_block) ≡ false
  pub found : node.find_index block.hash_prev_block ≡ some index
  pub disk : index.on_disk ≡ some before
  pub passes : check_lotto_result node block ≡ ok accepted

accepted-balance :
    (node : Node) (index : BlockIndex) (before block : Block)
    → IsAccepted node index before block
    → (bits block.lotto_header.ll_pool + paid_by block) % 2 ^ 64
      ≡ (bits before.lotto_header.ll_pool + bets_of node block) % 2 ^ 64
unfolding check_lotto_result
accepted-balance node index before block a =
    let h1 = rw (check_lotto_result, a.not_genesis, a.found) at (a.passes) in
    let (checkpoint, h2) = refuse_if-accepted _ 100 _ h1 in
    check_against-balance node block index before a.disk h2

-- The blocks of a chain, each with the node that checks it and the index of the block before it.
abbrev pub Link : Type 0
Link = Node × BlockIndex × Block

abbrev pub IsAcceptedChain : Block → List Link → Type 0
IsAcceptedChain before [] = Unit
IsAcceptedChain before ((node, index, block) ∷ links) =
    IsAccepted node index before block × IsAcceptedChain block links

abbrev pub last_pool : Block → List Link → ℕ
last_pool before [] = bits before.lotto_header.ll_pool
last_pool before ((node, index, block) ∷ links) = last_pool block links

abbrev pub total_paid : Block → List Link → ℕ
total_paid before [] = 0
total_paid before ((node, index, block) ∷ links) = paid_by block + total_paid block links

abbrev pub total_bets : List Link → ℕ
total_bets [] = 0
total_bets ((node, index, block) ∷ links) = bets_of node block + total_bets links

-- Over a chain of blocks that CheckLottoResult accepts one after the other, the pool of the lottery in
-- the last header and all that the coinbases paid behind their first outputs are together the pool in
-- the first header and all the bets that the blocks took in, in the 64 bits of an amount.
pub check_lotto_result-conserves :
    (before : Block) (links : List Link)
    → IsAcceptedChain before links
    → (last_pool before links + total_paid before links) % 2 ^ 64
      ≡ (bits before.lotto_header.ll_pool + total_bets links) % 2 ^ 64
check_lotto_result-conserves before [] a = refl
check_lotto_result-conserves before ((node, index, block) ∷ links) a = omega (
  arith,
  accepted-balance node index before block a.0,
  check_lotto_result-conserves block links a.1,
)
