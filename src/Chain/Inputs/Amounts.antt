-- ===== src/Chain/Inputs/Amounts.antt =====
-- What a transaction spends and pays when CheckInputs accepts it (src/main.cpp).
use dsvalue.Prelude.{
  ℕ, ◌+◌, ◌≤◌, ◌≡◌, refl, ap, ◌∙◌, sym, subst, Bool, true, false, not, ◌&&◌, List, [], ◌∷◌, Option,
  none, some, Result, ok, >>=-eq-ok, ok_inj, arith, Bool-cases, Option-cases, inl, inr, get_elem?,
}
use dsvalue.Prelude.Int.{ℤ, pos, negsuc, pos_part, add64, add64-pos, ltb_ℤ}
use dsvalue.Core.{TxIn, TxOut, Transaction, max_money, get_value_out}
use dsvalue.Core.Value.{value_sum, get_value_out-sum}
use dsvalue.Coins.{Coins, is_coin_base}
use dsvalue.Coins.View.{CoinsView, Cache, cache_view, fetch_coins}
use dsvalue.Coins.View.Refinement.{fetch-result, fetch-view}
use dsvalue.Coins.View.Inputs.{all_outputs, have_inputs-all_outputs}
use dsvalue.Coins.View.Value.{value_at}
use dsvalue.Chain.Verdict.{Verdict, accepted, refuse_if-accepted}
use dsvalue.Chain.Inputs.{
  is_immature, out_of_range, check_fees, check_values, check_value_out, check_inputs,
}

-- The exact sum of the values of the inputs, in a map of coins.
abbrev pub input_sum : (ℕ → Option Coins) → List TxIn → ℕ
input_sum f [] = 0
input_sum f (txin ∷ vin) =
    pos_part (value_at (f txin.prevout.hash) txin.prevout.n) + input_sum f vin

abbrev pub has_matured : (n_spend_height coinbase_maturity : ℕ) → Option Coins → Bool
has_matured n_spend_height coinbase_maturity none = true
has_matured n_spend_height coinbase_maturity (some coins) =
    not (is_immature n_spend_height coinbase_maturity coins)

-- No input spends a coinbase that is not matured.
abbrev pub all_matured :
    (n_spend_height coinbase_maturity : ℕ) → (ℕ → Option Coins) → List TxIn → Bool
all_matured n_spend_height coinbase_maturity f [] = true
all_matured n_spend_height coinbase_maturity f (txin ∷ vin) =
    has_matured n_spend_height coinbase_maturity (f txin.prevout.hash)
    && all_matured n_spend_height coinbase_maturity f vin

input_sum-same :
    (f g : ℕ → Option Coins) (vin : List TxIn)
    → ((j : ℕ) → f j ≡ g j)
    → input_sum f vin ≡ input_sum g vin
input_sum-same f g [] h = refl
input_sum-same f g (txin ∷ vin) h = rw (h txin.prevout.hash, input_sum-same f g vin h) refl

all_matured-same :
    (n m : ℕ) (f g : ℕ → Option Coins) (vin : List TxIn)
    → ((j : ℕ) → f j ≡ g j)
    → all_matured n m f vin ≡ all_matured n m g vin
all_matured-same n m f g [] h = refl
all_matured-same n m f g (txin ∷ vin) h =
    rw (h txin.prevout.hash, all_matured-same n m f g vin h) refl

-- A value and a sum that are in range are added without a wrap.
in_range-sum :
    (a : ℕ) (value : ℤ)
    → a ≤ max_money
    → out_of_range value (add64 (pos a) value) ≡ false
    → (add64 (pos a) value ≡ pos (a + pos_part value)) × (a + pos_part value ≤ max_money)
in_range-sum a (pos n) h e =
    let small : n ≤ max_money = ground arith in
    let sum = add64-pos a n (omega arith) in (sum, ground (arith, sum))
in_range-sum a (negsuc n) h e = absurd (ground arith)

-- The fees are not negative.
check_fees-covered : (n : ℕ) (paid : ℕ) → check_fees (pos n) (pos paid) ≡ ok accepted → paid ≤ n
unfolding check_fees
check_fees-covered n paid h =
    let (covered, h1) = refuse_if-accepted (ltb_ℤ (pos n) (pos paid)) 100 _ h in ground arith

module _ {S : Type 0} (v : CoinsView S) (n_spend_height coinbase_maturity : ℕ) where
  -- The first loop has reached its end with the exact sum, and left what the cache stands for.
  abbrev Passed :
      Cache S → List TxIn → ℕ → (Cache S → ℤ → Result (Verdict × Cache S)) → Cache S → Type 0
  Passed c vin a next c' =
      (end : Cache S) × (next end (pos (a + input_sum (cache_view v c) vin)) ≡ ok (accepted, c'))
      × (a + input_sum (cache_view v c) vin ≤ max_money)
      × (all_matured n_spend_height coinbase_maturity (cache_view v c) vin ≡ true)
      × ((j : ℕ) → cache_view v end j ≡ cache_view v c j)

  -- One input more, whose coins and output are found.
  step-Passed :
      (c : Cache S) (txin : TxIn) (vin : List TxIn) (a : ℕ) (coins : Coins) (txout : TxOut)
      (next : Cache S → ℤ → Result (Verdict × Cache S)) (c' : Cache S)
      → cache_view v c txin.prevout.hash ≡ some coins
      → get_elem? coins.vout txin.prevout.n ≡ some txout
      → is_immature n_spend_height coinbase_maturity coins ≡ false
      → Passed (fetch_coins v c txin.prevout.hash).1 vin (a + pos_part txout.n_value) next c'
      → Passed c (txin ∷ vin) a next c'
  step-Passed c txin vin a coins txout next c' found there matured (end, passes, small, all, view) =
      let view_r = fetch-view v c txin.prevout.hash in
      let r = (fetch_coins v c txin.prevout.hash).1 in
      let same = input_sum-same (cache_view v r) (cache_view v c) vin view_r in
      let value : value_at (cache_view v c txin.prevout.hash) txin.prevout.n ≡ txout.n_value =
        ground (arith, found, there) in
      let sum : a + pos_part txout.n_value + input_sum (cache_view v r) vin
          ≡ a + input_sum (cache_view v c) (txin ∷ vin) =
        omega (arith, same, ap pos_part value) in
      (
        end,
        subst (λ n. next end (pos n) ≡ ok (accepted, c')) sum passes,
        omega (arith, sum, small),
        rw (found, matured)
            (sym (
                all_matured-same n_spend_height coinbase_maturity (cache_view v r) (cache_view v c)
                  vin view_r)
              ∙ all),
        λ j. view j ∙ view_r j,
      )

  check_values-Passed :
      (c : Cache S) (vin : List TxIn) (a : ℕ) (next : Cache S → ℤ → Result (Verdict × Cache S))
      (c' : Cache S)
      → a ≤ max_money
      → check_values v n_spend_height coinbase_maturity c vin (pos a) next ≡ ok (accepted, c')
      → Passed c vin a next c'
  unfolding check_values
  check_values-Passed c [] a next c' h e =
      let none_more : a ≡ a + 0 = omega arith in
      (c, subst (λ n. next c (pos n) ≡ ok (accepted, c')) none_more e, omega arith, refl, λ j. refl)
  check_values-Passed c (txin ∷ vin) a next c' h e =
      let r = fetch_coins v c txin.prevout.hash in
      let found = fetch-result v c txin.prevout.hash in
      elim (Option-cases (cache_view v c txin.prevout.hash)) [
        | inl none_there ↦
            let t = rw (check_values, found ∙ none_there) at e in absurd (ground arith)
        | inr (coins, some_there) ↦
            let e1 = rw (check_values, found ∙ some_there) at e in
            elim (Bool-cases (is_immature n_spend_height coinbase_maturity coins)) [
              | inl early ↦ let t = rw early at e1 in absurd (ground arith)
              | inr matured ↦
                  let e2 = rw matured at e1 in
                  elim (Option-cases (get_elem? coins.vout txin.prevout.n)) [
                    | inl no_out ↦ let t = rw no_out at e2 in absurd (ground arith)
                    | inr (txout, there) ↦
                        let e3 = rw there at e2 in
                        elim (Bool-cases
                          (out_of_range txout.n_value (add64 (pos a) txout.n_value))) [
                            | inl out ↦ let t = rw out at e3 in absurd (ground arith)
                            | inr within ↦
                                let e4 = rw within at e3 in
                                let (sum, small) = in_range-sum a txout.n_value h within in
                                step-Passed c txin vin a coins txout next c' some_there there
                                  matured
                                  (check_values-Passed (r.1) vin (a + pos_part txout.n_value) next
                                    c' small
                                    (subst
                                      (λ n.
                                        check_values v n_spend_height coinbase_maturity (r.1) vin n
                                          next
                                        ≡ ok (accepted, c'))
                                      sum e4))
                          ]
                  ]
            ]
      ]

  -- What the part behind the first loop accepts.
  value_out-covered :
      (tx : Transaction) (end : Cache S) (sum : ℕ) (c' : Cache S)
      → check_value_out v n_spend_height coinbase_maturity tx end (pos sum) ≡ ok (accepted, c')
      → (value_sum tx.vout ≤ sum) × (end ≡ c')
  unfolding check_value_out
  value_out-covered tx end sum c' h =
      let (paid, returned, h1) = >>=-eq-ok (get_value_out tx) _ h in
      let (verdict, judged, h2) = >>=-eq-ok (check_fees (pos sum) paid) _ h1 in
      let (all, small, exact) = (get_value_out-sum tx paid).0 returned in
      let accepts = ap (λ (r : Verdict × Cache S). r.0) (ok_inj h2) in
      let fees =
        ap (check_fees (pos sum)) (sym exact) ∙ judged ∙ ap (λ (x : Verdict). ok x) accepts in
      (
        check_fees-covered sum (value_sum tx.vout) fees,
        ap (λ (r : Verdict × Cache S). r.1) (ok_inj h2),
      )

  -- When CheckInputs, without script checks, accepts a transaction that is no coinbase, every input
  -- spends an output that is available in what the cache stands for and no coinbase that is not matured,
  -- the exact sum of their values is an amount of money, and the outputs pay no more than that sum; what
  -- the cache stands for is left as it is.
  pub check_inputs-covered :
      (c : Cache S) (tx : Transaction) (c' : Cache S)
      → is_coin_base tx ≡ false
      → check_inputs v n_spend_height coinbase_maturity c tx ≡ ok (accepted, c')
      → (all_outputs (cache_view v c) tx.vin ≡ true)
        × (all_matured n_spend_height coinbase_maturity (cache_view v c) tx.vin ≡ true)
        × (input_sum (cache_view v c) tx.vin ≤ max_money)
        × (value_sum tx.vout ≤ input_sum (cache_view v c) tx.vin)
        × ((j : ℕ) → cache_view v c' j ≡ cache_view v c j)
  unfolding check_inputs
  check_inputs-covered c tx c' b h =
      let (known, have, view_known) = have_inputs-all_outputs v c tx in
      elim (Bool-cases (all_outputs (cache_view v c) tx.vin)) [
        | inr missing ↦ let t = rw (check_inputs, b, have, b, missing) at h in absurd (ground arith)
        | inl there ↦
            let h1 = rw (check_inputs, b, have, b, there) at h in
            let (end, passes, small, matured, view_end) =
              check_values-Passed known tx.vin 0
                (check_value_out v n_spend_height coinbase_maturity tx) c' (omega arith) h1 in
            let (covered, same) =
              value_out-covered tx end (0 + input_sum (cache_view v known) tx.vin) c' passes in
            let sum = input_sum-same (cache_view v known) (cache_view v c) tx.vin view_known in
            (
              there,
              sym (
                    all_matured-same n_spend_height coinbase_maturity (cache_view v known)
                      (cache_view v c) tx.vin view_known)
                  ∙ matured,
              omega (arith, sum, small),
              omega (arith, sum, covered),
              λ j. ap (λ (x : Cache S). cache_view v x j) (sym same) ∙ view_end j ∙ view_known j,
            )
      ]
