-- ===== src/Coins/View/Value.antt =====
-- The value of the inputs of a transaction: CCoinsViewCache::GetValueIn.
use dsvalue.Prelude.{
  ℕ, ◌≡◌, refl, ap, ◌∙◌, true, false, List, [], ◌∷◌, Option, none, some, ok, arith, Option-cases,
  inl, inr, get_elem?,
}
use dsvalue.Prelude.Int.{ℤ, pos, add64}
use dsvalue.Core.{TxIn, TxOut, Transaction}
use dsvalue.Coins.{Coins, is_available, is_coin_base}
use dsvalue.Coins.View.{
  CoinsView, Cache, cache_view, fetch_coins, output_of, get_output_for, value_in_from, get_value_in,
}
use dsvalue.Coins.View.Refinement.{fetch-result, fetch-view}
use dsvalue.Coins.View.Inputs.{has_output, all_outputs, all_outputs-same}

-- The value of the output that an input spends, in a map of coins.
abbrev pub value_at : Option Coins → ℕ → ℤ
value_at none n = pos 0
value_at (some coins) n = elim (get_elem? coins.vout n) [
  | none ↦ pos 0
  | some txout ↦ txout.n_value
]

-- The sum of the values of the inputs, added as GetValueIn adds them.
abbrev pub values_from : (ℕ → Option Coins) → List TxIn → ℤ → ℤ
values_from f [] n = n
values_from f (input ∷ vin) n =
    values_from f vin (add64 n (value_at (f input.prevout.hash) input.prevout.n))

values_from-same :
    (f g : ℕ → Option Coins) (vin : List TxIn) (n : ℤ)
    → ((j : ℕ) → f j ≡ g j)
    → values_from f vin n ≡ values_from g vin n
values_from-same f g [] n h = refl
values_from-same f g (input ∷ vin) n h =
    ap (λ found. values_from f vin (add64 n (value_at found input.prevout.n)))
      (h input.prevout.hash)
    ∙ values_from-same f g vin _ h

output_of-value :
    (input : TxIn) (found : Option Coins)
    → has_output found input.prevout.n ≡ true
    → (txout : TxOut) × (output_of input found ≡ ok txout)
      × (txout.n_value ≡ value_at found input.prevout.n)
output_of-value input none h = absurd (ground arith)
output_of-value input (some coins) h = elim (Option-cases (get_elem? coins.vout input.prevout.n)) [
  | inl e ↦ absurd (unfold is_available in ground (arith, e))
  | inr (txout, e) ↦ (txout, ground (arith, h, e), ground (arith, e))
]

module _ {S : Type 0} (v : CoinsView S) where
  output-value :
      (c : Cache S) (input : TxIn)
      → has_output (cache_view v c input.prevout.hash) input.prevout.n ≡ true
      → (txout : TxOut) × (get_output_for v c input
          ≡ ok (txout, (fetch_coins v c input.prevout.hash).1))
        × (txout.n_value ≡ value_at (cache_view v c input.prevout.hash) input.prevout.n)
  unfolding get_output_for
  output-value c input h =
      let found = fetch-result v c input.prevout.hash in
      let (txout, e, value) = output_of-value input (cache_view v c input.prevout.hash) h in
      (txout, rw (found, e) refl, value)

  value_in-values :
      (c : Cache S) (vin : List TxIn) (n : ℤ)
      → all_outputs (cache_view v c) vin ≡ true
      → (c' : Cache S) × (value_in_from v c vin n ≡ ok (values_from (cache_view v c) vin n, c'))
        × ((j : ℕ) → cache_view v c' j ≡ cache_view v c j)
  unfolding value_in_from
  value_in-values c [] n h = (c, refl, λ j. refl)
  value_in-values c (input ∷ vin) n h =
      let next = (fetch_coins v c input.prevout.hash).1 in
      let view_next = fetch-view v c input.prevout.hash in
      let here : has_output (cache_view v c input.prevout.hash) input.prevout.n ≡ true =
        ground arith in
      let later : all_outputs (cache_view v c) vin ≡ true = ground arith in
      let (txout, e, value) = output-value c input here in
      let known = all_outputs-same (cache_view v next) (cache_view v c) vin view_next ∙ later in
      let (c', rest, view_rest) = value_in-values next vin (add64 n txout.n_value) known in
      let same =
        values_from-same (cache_view v next) (cache_view v c) vin (add64 n txout.n_value)
          view_next in
      let total = ap (λ k. values_from (cache_view v c) vin (add64 n k)) value in
      (c', rw e (rest ∙ ap (λ k. ok (k, c')) (same ∙ total)), λ j. view_rest j ∙ view_next j)

  -- For a transaction that is no coinbase and whose inputs all spend outputs that are available in
  -- what the cache stands for, GetValueIn returns the sum of their values, added in int64_t, and leaves
  -- what the cache stands for as it is.
  pub get_value_in-values :
      (c : Cache S) (tx : Transaction)
      → is_coin_base tx ≡ false
      → all_outputs (cache_view v c) tx.vin ≡ true
      → (c' : Cache S) × (get_value_in v c tx
          ≡ ok (values_from (cache_view v c) tx.vin (pos 0), c'))
        × ((j : ℕ) → cache_view v c' j ≡ cache_view v c j)
  unfolding get_value_in
  get_value_in-values c tx b h = rw b (value_in-values c tx.vin (pos 0) h)
