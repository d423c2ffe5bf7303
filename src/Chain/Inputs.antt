-- ===== src/Chain/Inputs.antt =====
-- The check of the inputs of a transaction against the coins: CheckInputs (src/main.cpp) without script
-- checks (fScriptChecks is false). The height after the best block
-- and COINBASE_MATURITY, an option of the node, are arguments.
pub mod Amounts
use dsvalue.Prelude.{
  ℕ, ◌+◌, Bool, true, false, not, ◌&&◌, ◌||◌, List, [], ◌∷◌, Option, none, some, Result, ok, err,
  Error, ◌>>=◌, if◌then◌else◌, ltb, get_elem?,
}
use dsvalue.Prelude.Int.{ℤ, pos, add64, sub64, ltb_ℤ}
use dsvalue.Core.{TxIn, TxOut, Transaction, money_range, get_value_out}
use dsvalue.Coins.{Coins, is_coin_base}
use dsvalue.Coins.View.{CoinsView, Cache, fetch_coins, have_inputs}
use dsvalue.Chain.Verdict.{Verdict, accepted, rejected, refuse_if}

-- Whether the coins are those of a coinbase that is not matured.
abbrev pub is_immature : (n_spend_height coinbase_maturity : ℕ) → Coins → Bool
is_immature n_spend_height coinbase_maturity coins =
    coins.f_coin_base && ltb n_spend_height (coins.n_height + coinbase_maturity)

-- The test on the value of an input and on the sum.
abbrev pub out_of_range : ℤ → ℤ → Bool
out_of_range n_value n_value_in = not (money_range n_value) || not (money_range n_value_in)

-- The tests on nValueIn and on the fees.
unfoldable pub check_fees : ℤ → ℤ → Result Verdict
check_fees n_value_in n_value_out = refuse_if (ltb_ℤ n_value_in n_value_out) 100 (
    refuse_if (ltb_ℤ (sub64 n_value_in n_value_out) (pos 0)) 100 (
      refuse_if (not (money_range (add64 (pos 0) (sub64 n_value_in n_value_out)))) 100
        (ok accepted)))

module _ {S : Type 0} (v : CoinsView S) (n_spend_height coinbase_maturity : ℕ) where
  -- The first loop over the inputs, from nValueIn, and what follows it, `next`.
  unfoldable pub check_values :
      Cache S
      → List TxIn
      → ℤ
      → (Cache S → ℤ → Result (Verdict × Cache S))
      → Result (Verdict × Cache S)
  check_values c [] n_value_in next = next c n_value_in
  check_values c (txin ∷ vin) n_value_in next =
      let r = fetch_coins v c txin.prevout.hash in
      elim r.0 [
        | none ↦ err Error.assertion
        | some coins ↦ elim (is_immature n_spend_height coinbase_maturity coins) [
          | true ↦ ok (rejected 0, r.1)
          | false ↦ elim (get_elem? coins.vout txin.prevout.n) [
            | none ↦ err Error.undefined
            | some txout ↦ elim (out_of_range txout.n_value (add64 n_value_in txout.n_value)) [
              | true ↦ ok (rejected 100, r.1)
              | false ↦ check_values r.1 vin (add64 n_value_in txout.n_value) next
            ]
          ]
        ]
      ]

  -- The part behind the first loop.
  unfoldable pub check_value_out : Transaction → Cache S → ℤ → Result (Verdict × Cache S)
  unfolding check_fees
  check_value_out tx c n_value_in = get_value_out tx >>= λ n_value_out.
      check_fees n_value_in n_value_out >>= λ verdict. ok (verdict, c)

  -- CheckInputs
  unfoldable pub check_inputs : Cache S → Transaction → Result (Verdict × Cache S)
  unfolding check_values check_value_out
  check_inputs c tx =
      if is_coin_base tx
      then ok (accepted, c)
      else (have_inputs v c tx >>= λ have. elim (have.0) [
        | false ↦ ok (rejected 0, have.1)
        | true ↦ check_values have.1 tx.vin (pos 0) (check_value_out tx)
      ])
