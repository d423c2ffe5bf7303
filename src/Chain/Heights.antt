-- ===== src/Chain/Heights.antt =====
-- The height of the chain enters CTxOut::GetLottoTxOutType (src/core.cpp), and what stands on it, only
-- by the test whether it is above 4380.
use dsvalue.Prelude.{
  ℕ, zero, suc, ◌≡◌, refl, ap, ◌∙◌, Bool, true, ◌&&◌, List, [], ◌∷◌, Result, ok, err, ◌>>=◌,
  if◌then◌else◌, ltb, length, ◌==◌, Option-cases, Bool-cases, inl, inr,
}
use dsvalue.Prelude.Int.{ℤ, pos, add64}
use dsvalue.Core.{TxOut, Transaction}
use dsvalue.Coins.{is_coin_base}
use dsvalue.Script.{get_op, op_lotto}
use dsvalue.Lotto.Lottery.{is_valid}
use dsvalue.Chain.Bets.{
  TxState, normal_state, is_valid_state, state_of_bet, out_type_from, count_op, too_many,
  is_send_pool_adress, get_lotto_tx_out_type, lotto_value_from, get_lotto_value_from_tx,
  lotto_value_of_txs, get_lotto_value_from_block,
}

>>=-ap :
    {A B : Type 0} (r : Result A) {f g : A → Result B}
    → ((x : A) → f x ≡ g x)
    → (r >>= f) ≡ (r >>= g)
>>=-ap (ok x) h = h x
>>=-ap (err e) h = refl

module _ (key : List ℕ) (h1 h2 : ℕ) (same : ltb 4380 h1 ≡ ltb 4380 h2) where
  state_of_bet_same : (is_bet : Bool) → state_of_bet key h1 is_bet ≡ state_of_bet key h2 is_bet
  state_of_bet_same is_bet = rw same refl

  out_type_from_same :
      (fuel n : ℕ) (n_value : ℤ) (s : TxState) (script : List ℕ)
      → out_type_from key h1 fuel n n_value s script ≡ out_type_from key h2 fuel n n_value s script
  unfolding out_type_from
  out_type_from_same fuel n n_value s [] = refl
  out_type_from_same zero n n_value s (x ∷ xs) = refl
  out_type_from_same (suc fuel) n n_value s (x ∷ xs) = elim (Option-cases (get_op (x ∷ xs))) [
    | inl e ↦ rw (out_type_from, e) refl
    | inr ((opcode, operand, rest), e) ↦ elim (Bool-cases (too_many opcode n)) [
      | inl stop ↦ rw (out_type_from, e, stop) refl
      | inr more ↦ elim (Bool-cases (opcode == op_lotto)) [
        | inr other ↦
            rw (out_type_from, e, more, other)
              (out_type_from_same fuel (count_op opcode n) n_value s rest)
        | inl lotto ↦ elim (Option-cases (get_op rest)) [
          | inl e' ↦ rw (out_type_from, e, more, lotto, e') refl
          | inr ((opcode', vch, rest'), e') ↦
              rw (out_type_from, e, more, lotto, e')
                (>>=-ap (is_valid vch n_value)
                  (λ is_bet. ap (λ (t : TxState). ok (true, t)) (state_of_bet_same is_bet)))
        ]
      ]
    ]
  ]

  get_lotto_tx_out_type_same :
      (txout : TxOut) (s : TxState)
      → get_lotto_tx_out_type key h1 txout s ≡ get_lotto_tx_out_type key h2 txout s
  unfolding get_lotto_tx_out_type is_send_pool_adress
  get_lotto_tx_out_type_same txout s =
      >>=-ap (is_send_pool_adress key h1 txout.script_pub_key) (λ is_send.
        ap (λ (x : Result (Bool × TxState)). if is_send then x else ok (true, normal_state))
          (out_type_from_same (length txout.script_pub_key) 0 txout.n_value s txout.script_pub_key))

  lotto_value_from_same :
      (vout : List TxOut) (s : TxState) (sum : ℤ)
      → lotto_value_from key h1 vout s sum ≡ lotto_value_from key h2 vout s sum
  unfolding lotto_value_from
  lotto_value_from_same [] s sum = refl
  lotto_value_from_same (txout ∷ vout) s sum =
      ap
        (λ (x : Result (Bool × TxState)). x >>= λ r.
          lotto_value_from key h1 vout r.1
            (if r.0 && is_valid_state r.1 then add64 sum txout.n_value else sum))
        (get_lotto_tx_out_type_same txout s)
      ∙ >>=-ap (get_lotto_tx_out_type key h2 txout s) (λ r. lotto_value_from_same vout r.1 _)

  get_lotto_value_from_tx_same :
      (tx : Transaction) → get_lotto_value_from_tx key h1 tx ≡ get_lotto_value_from_tx key h2 tx
  unfolding get_lotto_value_from_tx
  get_lotto_value_from_tx_same tx =
      ap (λ (x : Result ℤ). if is_coin_base tx then ok (pos 0) else x)
        (lotto_value_from_same tx.vout normal_state (pos 0))

  lotto_value_of_txs_same :
      (vtx : List Transaction) (sum : ℤ)
      → lotto_value_of_txs key h1 vtx sum ≡ lotto_value_of_txs key h2 vtx sum
  unfolding lotto_value_of_txs
  lotto_value_of_txs_same [] sum = refl
  lotto_value_of_txs_same (tx ∷ vtx) sum =
      ap (λ (x : Result ℤ). x >>= λ value. lotto_value_of_txs key h1 vtx (add64 sum value))
        (get_lotto_value_from_tx_same tx)
      ∙ >>=-ap (get_lotto_value_from_tx key h2 tx) (λ value. lotto_value_of_txs_same vtx _)

  pub get_lotto_value_from_block_same :
      (vtx : List Transaction)
      → get_lotto_value_from_block key h1 vtx ≡ get_lotto_value_from_block key h2 vtx
  unfolding get_lotto_value_from_block
  get_lotto_value_from_block_same vtx = lotto_value_of_txs_same vtx (pos 0)
