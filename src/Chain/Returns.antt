-- ===== src/Chain/Returns.antt =====
-- The loops over a script end: CScript::GetLottoPoolAddressFromTx (src/script.cpp) and
-- CTxOut::GetLottoTxOutType (src/core.cpp).
use dsvalue.Prelude.{
  ℕ, zero, suc, ◌≤◌, ◌≡◌, ◌⊎◌, refl, Bool, true, false, List, [], ◌∷◌, Option, some, Result, ok,
  err, Error, ◌>>=◌, Option-cases, Bool-cases, inl, inr, ◌==◌, length, list_eq, arith,
}
use dsvalue.Prelude.Int.{ℤ}
use dsvalue.Core.{TxOut}
use dsvalue.Script.{get_op, op_lotto, bet_data_from, get_bet_data}
use dsvalue.Script.BetData.{get_op-shorter, bet_data_from-pass, bet_data_from-found}
use dsvalue.Lotto.Lottery.{is_valid}
use dsvalue.Chain.Bets.{
  TxState, zero_address, too_many, is_hash_op, count_op, uint160, pool_address_from,
  get_lotto_pool_address_from_tx, is_send_pool_adress, normal_state, state_of_bet, out_type_from,
  get_lotto_tx_out_type,
}

address-returns :
    (fuel n : ℕ) (address script : List ℕ)
    → length script ≤ fuel
    → (a : List ℕ) × (pool_address_from fuel n address script ≡ ok a)
unfolding pool_address_from
address-returns fuel n address [] h = (address, refl)
address-returns zero n address (x ∷ xs) h = absurd (omega arith)
address-returns (suc fuel) n address (x ∷ xs) h = elim (Option-cases (get_op (x ∷ xs))) [
  | inl e ↦ (zero_address, rw (pool_address_from, e) refl)
  | inr ((opcode, operand, rest), e) ↦
      let shorter = get_op-shorter opcode (x ∷ xs) operand rest e in
      elim (Bool-cases (too_many opcode n)) [
        | inl stop ↦ (zero_address, rw (pool_address_from, e, stop) refl)
        | inr more ↦ elim (Bool-cases (is_hash_op opcode)) [
          | inr plain ↦
              let (a, later) =
                address-returns fuel (count_op opcode n) address rest (omega arith) in
              (a, rw (pool_address_from, e, more, plain) later)
          | inl hash ↦ elim (Option-cases (get_op rest)) [
            | inl e' ↦ (zero_address, rw (pool_address_from, e, more, hash, e') refl)
            | inr ((opcode', vch, rest'), e') ↦
                let shorter' = get_op-shorter opcode' rest vch rest' e' in
                let (a, later) =
                  address-returns fuel (count_op opcode n) (uint160 vch) rest' (omega arith) in
                (a, rw (pool_address_from, e, more, hash, e') later)
          ]
        ]
      ]
]

-- A result, or the fault of the check, at a value, of a bet that a search found.
abbrev EndsAs : Result (Option (List ℕ)) → ℤ → Result (Bool × TxState) → Type 0
EndsAs search n_value r =
    ((found : Bool × TxState) × (r ≡ ok found))
    ⊎ ((bet : List ℕ) × (fault : Error) × (search ≡ ok (some bet))
        × (is_valid bet n_value ≡ err fault)
        × (r ≡ err fault))

-- A result, or the fault of the check of the bet that GetBetData finds in the script, at the value.
abbrev pub EndsLike : TxOut → Result (Bool × TxState) → Type 0
EndsLike txout r = EndsAs (get_bet_data txout.script_pub_key) txout.n_value r

module _ (pool_key_id : List ℕ) (tip_height : ℕ) where
  of_bet :
      (search : Result (Option (List ℕ))) (bet : List ℕ) (n_value : ℤ)
      → search ≡ ok (some bet)
      → EndsAs search n_value
          (is_valid bet n_value >>= λ is_bet. ok (true, state_of_bet pool_key_id tip_height is_bet))
  of_bet search bet n_value s = by_result (is_valid bet n_value) refl
    where
      by_result :
          (r : Result Bool)
          → is_valid bet n_value ≡ r
          → EndsAs search n_value (
              is_valid bet n_value >>= λ is_bet.
              ok (true, state_of_bet pool_key_id tip_height is_bet))
      by_result (ok is_bet) e = inl ((true, state_of_bet pool_key_id tip_height is_bet), rw e refl)
      by_result (err fault) e = inr (bet, fault, s, e, rw e refl)

  out_type_from-EndsAs :
      (fuel n : ℕ) (n_value : ℤ) (s : TxState) (script : List ℕ)
      → length script ≤ fuel
      → EndsAs
          (bet_data_from fuel n script)
          n_value
          (out_type_from pool_key_id tip_height fuel n n_value s script)
  unfolding out_type_from
  out_type_from-EndsAs fuel n n_value s [] h = inl ((true, s), refl)
  out_type_from-EndsAs zero n n_value s (x ∷ xs) h = absurd (omega arith)
  out_type_from-EndsAs (suc fuel) n n_value s (x ∷ xs) h = elim (Option-cases (get_op (x ∷ xs))) [
    | inl e ↦ inl ((false, s), rw (out_type_from, e) refl)
    | inr ((opcode, operand, rest), e) ↦
        let shorter = get_op-shorter opcode (x ∷ xs) operand rest e in
        elim (Bool-cases (too_many opcode n)) [
          | inl stop ↦ inl ((false, s), rw (out_type_from, e, stop) refl)
          | inr more ↦ elim (Bool-cases (opcode == op_lotto)) [
            | inr other ↦
                rw
                  (
                    out_type_from,
                    bet_data_from-pass fuel n opcode (x ∷ xs) operand rest h e more other,
                    e,
                    more,
                    other,
                  )
                  (out_type_from-EndsAs fuel (count_op opcode n) n_value s rest (omega arith))
            | inl lotto ↦ elim (Option-cases (get_op rest)) [
              | inl e' ↦ inl ((false, s), rw (out_type_from, e, more, lotto, e') refl)
              | inr ((opcode', bet, rest'), e') ↦
                  let found =
                    bet_data_from-found fuel n opcode opcode' (x ∷ xs) operand rest bet rest' e more
                      lotto e' in
                  rw (out_type_from, e, more, lotto, e')
                    (of_bet (bet_data_from (suc fuel) n (x ∷ xs)) bet n_value found)
            ]
          ]
        ]
  ]

  -- GetLottoTxOutType ends on every output: with a result, or with a fault; and then GetBetData finds a
  -- bet in the output's script, and the fault is the one that the check of that bet, at the output's value,
  -- ends with.
  pub get_lotto_tx_out_type-EndsLike :
      (txout : TxOut) (s : TxState)
      → EndsLike txout (get_lotto_tx_out_type pool_key_id tip_height txout s)
  unfolding get_lotto_tx_out_type is_send_pool_adress get_lotto_pool_address_from_tx get_bet_data
  get_lotto_tx_out_type-EndsLike txout s =
      let script = txout.script_pub_key in
      let (address, found) = address-returns (length script) 0 zero_address script (omega arith) in
      elim (Bool-cases (list_eq address pool_key_id)) [
        | inl sends ↦
            rw (found, sends)
              (out_type_from-EndsAs (length script) 0 txout.n_value s script (omega arith))
        | inr other ↦ inl ((true, normal_state), rw (found, other) refl)
      ]
