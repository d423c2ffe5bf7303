-- ===== src/Chain/Payouts.antt =====
-- What a draw pays (src/lotto/CLotto.cpp: GetReWardOutput; src/miner.cpp: DrawLottery), and which bets
-- it enters.
use dsvalue.Prelude.{
  ◌++◌, ℕ, ◌+◌, ◌*◌, ◌-◌, ◌%◌, ◌^◌, ◌≡◌, refl, ◌∙◌, subst, Bool, true, false, ◌&&◌, ◌||◌, List, [],
  ◌∷◌, some, ok, >>=-eq-ok, ok_inj, if◌then◌else◌, ltb, ◌==◌, arith, Bool-cases, inl, inr,
}
use dsvalue.Prelude.Int.{ℤ, pos, add64}
use dsvalue.Prelude.Map.{Map, insert_new, get_or}
use dsvalue.Core.{TxOut, Transaction}
use dsvalue.Coins.{is_coin_base}
use dsvalue.Lotto.Bet.{is_winning}
use dsvalue.Lotto.Lottery.{SomeBet, base, Lottery}
use dsvalue.Lotto.Lottery.Statistics.{
  Payment, type_of, pay_bet, pay_bets, create_reward_scheme_map, create_statistics_reward_map,
  get_reward_output,
}
use dsvalue.Chain.Bits.{bits, bits-add64, total}
use dsvalue.Chain.Bets.{
  get_lotto_value_from_block, lotto_value_of_txs, get_lotto_value_from_tx, normal_state, TxState,
  is_valid_state, get_lotto_tx_out_type, lotto_value_from,
}
use dsvalue.Chain.Heights.{get_lotto_value_from_block_same}
use dsvalue.Chain.Parts.{BlockIndex, Node}
use dsvalue.Chain.Draw.{
  bet_outs_of_tx, bet_outs_of_txs, bet_outs_from, bet_outs_of_block, walk_back, read_block,
  new_lottery, get_lottery_hash, outs_of, settle_bets, draw_lottery,
}

abbrev paid_total : List Payment → ℕ
paid_total paid = total (outs_of paid)

-- What is paid, and the sum of it.
abbrev Paying : Type 0
Paying = Map (Map ℤ) × List Payment × ℤ

-- The second sum is the first one with what is paid.
abbrev AddsUp : ℤ → Paying → Type 0
AddsUp remains r = bits (r.2) % 2 ^ 64 ≡ (bits remains + paid_total (r.1)) % 2 ^ 64

step-AddsUp :
    (remains paid : ℤ) (address : List ℕ) (rest : Paying)
    → AddsUp (add64 remains paid) rest
    → AddsUp remains (rest.0, (paid, address) ∷ rest.1, rest.2)
step-AddsUp remains paid address rest h = omega (arith, h, bits-add64 remains paid)

pay_bets-AddsUp :
    (v_bet : List SomeBet) (scheme : Map (Map ℤ)) (remains : ℤ) (r : Paying)
    → pay_bets v_bet scheme remains ≡ ok r
    → AddsUp remains r
unfolding pay_bets
pay_bets-AddsUp [] scheme remains r h = subst (AddsUp remains) (ok_inj h) (omega arith)
pay_bets-AddsUp (b ∷ v_bet) scheme remains r h = elim (Bool-cases (is_winning (base b))) [
  | inr loses ↦ pay_bets-AddsUp v_bet scheme remains r (rw (pay_bets, loses) at h)
  | inl wins ↦
      let h1 = rw (pay_bets, wins) at h in
      let (paid, pays, h2) = >>=-eq-ok (pay_bet b (get_or (type_of b) scheme [])) _ h1 in
      let (rest, later, h3) =
        >>=-eq-ok (pay_bets v_bet (insert_new (type_of b) [] scheme) (add64 remains paid)) _ h2 in
      subst (AddsUp remains) (ok_inj h3) (
        step-AddsUp remains paid (base b).address rest (
          pay_bets-AddsUp v_bet (insert_new (type_of b) [] scheme) (add64 remains paid) rest later))
]

-- GetReWardOutput adds to llRemains what its outputs are worth.
get_reward_output-adds_up :
    (l : Lottery) (remains : ℤ) (r : Lottery × List Payment × ℤ)
    → get_reward_output l remains ≡ ok r
    → bits (r.2) % 2 ^ 64 ≡ (bits remains + paid_total (r.1)) % 2 ^ 64
unfolding get_reward_output
get_reward_output-adds_up l remains r h =
    let (counted, made, h1) =
      >>=-eq-ok (create_statistics_reward_map (create_reward_scheme_map l)) _ h in
    let (paying, pays, h2) =
      >>=-eq-ok (pay_bets counted.v_bet counted.m_reward_scheme remains) _ h1 in
    subst
      (λ (x : Lottery × List Payment × ℤ).
        bits (x.2) % 2 ^ 64 ≡ (bits remains + paid_total (x.1)) % 2 ^ 64)
      (ok_inj h2) (pay_bets-AddsUp counted.v_bet counted.m_reward_scheme remains paying pays)

-- The rewards are what the outputs are worth.
abbrev pub IsSum : List TxOut × ℤ → Type 0
IsSum drawn = bits (drawn.1) % 2 ^ 64 ≡ total (drawn.0) % 2 ^ 64

get_reward_output-IsSum :
    (l : Lottery) (r : Lottery × List Payment × ℤ)
    → get_reward_output l (pos 0) ≡ ok r
    → IsSum (outs_of (r.1), r.2)
get_reward_output-IsSum l r h = omega (arith, get_reward_output-adds_up l (pos 0) r h)

settle_bets-IsSum :
    (node : Node) (pool : ℤ) (index : BlockIndex) (n_id key : ℕ) (v_bet : List TxOut)
    (drawn : List TxOut × ℤ)
    → settle_bets node pool index n_id key v_bet ≡ ok drawn
    → IsSum drawn
unfolding settle_bets
settle_bets-IsSum node pool index n_id key [] drawn h =
    let (hash, hashed, h1) = >>=-eq-ok (get_lottery_hash node index) _ h in
    subst IsSum (ok_inj h1) refl
settle_bets-IsSum node pool index n_id key (bet ∷ bets) drawn h =
    let (hash, hashed, h1) = >>=-eq-ok (get_lottery_hash node index) _ h in
    let (alotto, made, h2) = >>=-eq-ok (new_lottery node hash n_id key pool (bet ∷ bets)) _ h1 in
    let (r, pays, h3) = >>=-eq-ok (get_reward_output alotto (pos 0)) _ h2 in
    subst IsSum (ok_inj h3) (get_reward_output-IsSum alotto r pays)

-- DrawLottery: the rewards are what the outputs are worth.
pub draw_lottery-IsSum :
    (node : Node) (pool : ℤ) (index : BlockIndex) (n_id key : ℕ) (drawn : List TxOut × ℤ)
    → draw_lottery node pool index n_id key ≡ ok drawn
    → IsSum drawn
unfolding draw_lottery
draw_lottery-IsSum node pool index n_id key drawn h =
    elim (Bool-cases (ltb index.n_height (2 * node.n_interval_lottery) || 0 == key)) [
      | inl early ↦ subst IsSum (ok_inj (rw early at h)) refl
      | inr late ↦
          let h1 = rw late at h in
          let (draw_index, walked, h2) =
            >>=-eq-ok (walk_back node (2 * node.n_interval_lottery - 1) (some index)) _ h1 in
          let (lottery_block, read, h3) = >>=-eq-ok (read_block draw_index.on_disk) _ h2 in
          let (v_bet, entered, h4) =
            >>=-eq-ok (bet_outs_of_block node.pool_key_id node.tip_height lottery_block.vtx) _ h3 in
          settle_bets-IsSum node pool index n_id key v_bet drawn h4
    ]

total_append : (outs outs' : List TxOut) → total (outs ++ outs') ≡ total outs + total outs'
total_append [] outs' = omega arith
total_append (txout ∷ outs) outs' = omega (arith, total_append outs outs')

module _ (key : List ℕ) (tip_height : ℕ) where
  -- The sum, and the outputs, of the same loop.
  abbrev Agrees : List TxOut → ℤ → ℤ → Type 0
  Agrees outs sum v = bits v % 2 ^ 64 ≡ (bits sum + total outs) % 2 ^ 64

  step-Agrees :
      (txout : TxOut) (takes : Bool) (outs : List TxOut) (sum v : ℤ)
      → Agrees outs (if takes then add64 sum txout.n_value else sum) v
      → Agrees (if takes then txout ∷ outs else outs) sum v
  step-Agrees txout true outs sum v h = omega (arith, h, bits-add64 sum txout.n_value)
  step-Agrees txout false outs sum v h = h

  bet_outs_from-Agrees :
      (vout : List TxOut) (s : TxState) (sum : ℤ) (outs : List TxOut)
      → bet_outs_from key tip_height vout s ≡ ok outs
      → (v : ℤ) × (lotto_value_from key tip_height vout s sum ≡ ok v) × Agrees outs sum v
  unfolding bet_outs_from lotto_value_from
  bet_outs_from-Agrees [] s sum outs h =
      (sum, refl, subst (λ (x : List TxOut). Agrees x sum sum) (ok_inj h) (omega arith))
  bet_outs_from-Agrees (txout ∷ vout) s sum outs h =
      let (r, typed, h1) = >>=-eq-ok (get_lotto_tx_out_type key tip_height txout s) _ h in
      let (rest, later, h2) = >>=-eq-ok (bet_outs_from key tip_height vout (r.1)) _ h1 in
      let takes = r.0 && is_valid_state (r.1) in
      let (v, counted, agrees) =
        bet_outs_from-Agrees vout (r.1) (if takes then add64 sum txout.n_value else sum) rest
          later in
      (
        v,
        rw typed counted,
        subst (λ (x : List TxOut). Agrees x sum v) (ok_inj h2)
            (step-Agrees txout takes rest sum v agrees),
      )

  bet_outs_of_tx-Agrees :
      (tx : Transaction) (outs : List TxOut)
      → bet_outs_of_tx key tip_height tx ≡ ok outs
      → (v : ℤ) × (get_lotto_value_from_tx key tip_height tx ≡ ok v) × Agrees outs (pos 0) v
  unfolding bet_outs_of_tx get_lotto_value_from_tx
  bet_outs_of_tx-Agrees tx outs h = elim (Bool-cases (is_coin_base tx)) [
    | inl coinbase ↦ (
      pos 0,
      rw coinbase refl,
      subst (λ (x : List TxOut). Agrees x (pos 0) (pos 0)) (ok_inj (rw coinbase at h)) refl,
    )
    | inr other ↦
        let (v, counted, agrees) =
          bet_outs_from-Agrees tx.vout normal_state (pos 0) outs (rw other at h) in
        (v, rw other counted, agrees)
  ]

  bet_outs_of_txs-Agrees :
      (vtx : List Transaction) (sum : ℤ) (outs : List TxOut)
      → bet_outs_of_txs key tip_height vtx ≡ ok outs
      → (v : ℤ) × (lotto_value_of_txs key tip_height vtx sum ≡ ok v) × Agrees outs sum v
  unfolding bet_outs_of_txs lotto_value_of_txs
  bet_outs_of_txs-Agrees [] sum outs h =
      (sum, refl, subst (λ (x : List TxOut). Agrees x sum sum) (ok_inj h) (omega arith))
  bet_outs_of_txs-Agrees (tx ∷ vtx) sum outs h =
      let (first, found, h1) = >>=-eq-ok (bet_outs_of_tx key tip_height tx) _ h in
      let (rest, later, h2) = >>=-eq-ok (bet_outs_of_txs key tip_height vtx) _ h1 in
      let (value, counted, agrees) = bet_outs_of_tx-Agrees tx first found in
      let (v, counted', agrees') = bet_outs_of_txs-Agrees vtx (add64 sum value) rest later in
      (
        v,
        rw counted counted',
        subst (λ (x : List TxOut). Agrees x sum v) (ok_inj h2)
            (omega (arith, agrees, agrees', bits-add64 sum value, total_append first rest)),
      )

  bet_outs_of_block-Agrees :
      (coinbase : Transaction) (vtx : List Transaction) (v_bet : List TxOut)
      → is_coin_base coinbase ≡ true
      → bet_outs_of_block key tip_height (coinbase ∷ vtx) ≡ ok v_bet
      → (v : ℤ) × (get_lotto_value_from_block key tip_height (coinbase ∷ vtx) ≡ ok v)
        × (bits v % 2 ^ 64 ≡ total v_bet % 2 ^ 64)
  unfolding bet_outs_of_block get_lotto_value_from_block lotto_value_of_txs get_lotto_value_from_tx
  bet_outs_of_block-Agrees coinbase vtx v_bet is_base h =
      let (v, counted, agrees) = bet_outs_of_txs-Agrees vtx (add64 (pos 0) (pos 0)) v_bet h in
      (v, rw is_base counted, omega (arith, agrees, bits-add64 (pos 0) (pos 0)))

-- The bets that DrawLottery enters from a block whose first transaction is a coinbase, when the chain
-- has the height `h2`, are worth together, in the 64 bits of an amount, what
-- GetLottoValueFromBlock finds in the block when the chain has the height `h1`, where both heights are
-- above 4380 or none is.
pub bet_outs_of_block-get_lotto_value_from_block :
    (key : List ℕ) (h1 h2 : ℕ) (coinbase : Transaction) (vtx : List Transaction)
    (v_bet : List TxOut)
    → ltb 4380 h1 ≡ ltb 4380 h2
    → is_coin_base coinbase ≡ true
    → bet_outs_of_block key h2 (coinbase ∷ vtx) ≡ ok v_bet
    → (v : ℤ) × (get_lotto_value_from_block key h1 (coinbase ∷ vtx) ≡ ok v)
      × (bits v % 2 ^ 64 ≡ total v_bet % 2 ^ 64)
bet_outs_of_block-get_lotto_value_from_block key h1 h2 coinbase vtx v_bet same is_base h =
    let (v, counted, agrees) = bet_outs_of_block-Agrees key h2 coinbase vtx v_bet is_base h in
    (v, get_lotto_value_from_block_same key h1 h2 same (coinbase ∷ vtx) ∙ counted, agrees)
