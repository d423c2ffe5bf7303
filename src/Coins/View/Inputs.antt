-- ===== src/Coins/View/Inputs.antt =====
-- The inputs of a transaction, found by a cache and in what it stands for.
use dsvalue.Prelude.{
  ℕ, ◌≡◌, refl, sym, ap, ◌∙◌, Bool, true, false, ◌&&◌, ◌||◌, List, [], ◌∷◌, Option, none, some, ok,
  if◌then◌else◌, arith, Bool-cases, Option-cases, inl, inr, ◌>>=◌,
}
use dsvalue.Core.{TxIn, Transaction}
use dsvalue.Coins.{Coins, is_available, is_coin_base}
use dsvalue.Coins.View.{
  CoinsView, Cache, cache_view, fetch_coins, have_coins, have_all_coins, available_in,
  all_available, have_inputs,
}
use dsvalue.Coins.View.Refinement.{fetch-result, fetch-view, have-result, have-view, is_some}

-- Whether coins have an output that is not spent.
abbrev pub has_output : Option Coins → ℕ → Bool
has_output none n = false
has_output (some coins) n = is_available coins.vout n

-- Whether every input spends an output that a map of coins has.
abbrev pub all_outputs : (ℕ → Option Coins) → List TxIn → Bool
all_outputs f [] = true
all_outputs f (input ∷ vin) = has_output (f input.prevout.hash) input.prevout.n && all_outputs f vin

abbrev pub all_known : (ℕ → Option Coins) → List TxIn → Bool
all_known f [] = true
all_known f (input ∷ vin) = is_some (f input.prevout.hash) && all_known f vin

outputs_known :
    (f : ℕ → Option Coins) (vin : List TxIn) → all_outputs f vin ≡ true → all_known f vin ≡ true
outputs_known f [] h = refl
outputs_known f (input ∷ vin) h = elim (Option-cases (f input.prevout.hash)) [
  | inl e ↦ ground (arith, e)
  | inr (coins, e) ↦ ground (arith, e, outputs_known f vin)
]

no_outputs :
    (f : ℕ → Option Coins) (vin : List TxIn) → all_known f vin ≡ false → all_outputs f vin ≡ false
no_outputs f vin h = elim (Bool-cases (all_outputs f vin)) [
  | inl e ↦ let k = outputs_known f vin e in ground (arith, k)
  | inr e ↦ e
]

-- Two maps with the same coins have the same inputs.
all_known-same :
    (f g : ℕ → Option Coins) (vin : List TxIn)
    → ((j : ℕ) → f j ≡ g j)
    → all_known f vin ≡ all_known g vin
all_known-same f g [] h = refl
all_known-same f g (input ∷ vin) h = rw (h input.prevout.hash, all_known-same f g vin h) refl

pub all_outputs-same :
    (f g : ℕ → Option Coins) (vin : List TxIn)
    → ((j : ℕ) → f j ≡ g j)
    → all_outputs f vin ≡ all_outputs g vin
all_outputs-same f g [] h = refl
all_outputs-same f g (input ∷ vin) h = rw (h input.prevout.hash, all_outputs-same f g vin h) refl

module _ {S : Type 0} (v : CoinsView S) where
  have_all-known :
      (c : Cache S) (vin : List TxIn)
      → ((have_all_coins v c vin).0 ≡ all_known (cache_view v c) vin)
        × ((j : ℕ) → cache_view v (have_all_coins v c vin).1 j ≡ cache_view v c j)
  unfolding have_all_coins
  have_all-known c [] = (refl, λ j. refl)
  have_all-known c (input ∷ vin) =
      let r = have_coins v c input.prevout.hash in
      let (rest, view_rest) = have_all-known r.1 vin in
      let known = have-result v c input.prevout.hash in
      let same =
        all_known-same (cache_view v r.1) (cache_view v c) vin (have-view v c input.prevout.hash) in
      elim (Bool-cases r.0) [
        | inl t ↦ (
          rw t (rest ∙ same ∙ ap (λ k. k && all_known (cache_view v c) vin) (sym t ∙ known)),
          λ j. rw t (view_rest j ∙ have-view v c input.prevout.hash j),
        )
        | inr t ↦ (
          rw t (ap (λ k. k && all_known (cache_view v c) vin) (sym t ∙ known)),
          λ j. rw t (have-view v c input.prevout.hash j),
        )
      ]

  -- The step of the second loop at an input whose coins are `coins`.
  one_input :
      (c : Cache S) (r : Option Coins × Cache S) (c' : Cache S) (coins : Coins) (input : TxIn)
      (vin : List TxIn)
      → r.0 ≡ some coins
      → cache_view v c input.prevout.hash ≡ some coins
      → all_available v r.1 vin ≡ ok (all_outputs (cache_view v c) vin, c')
      → ((j : ℕ) → cache_view v r.1 j ≡ cache_view v c j)
      → ((j : ℕ) → cache_view v c' j ≡ cache_view v r.1 j)
      → (c'' : Cache S) × ((available_in r.0 input.prevout.n >>= λ available.
            if available then all_available v r.1 vin else ok (false, r.1))
          ≡ ok (all_outputs (cache_view v c) (input ∷ vin), c''))
        × ((j : ℕ) → cache_view v c'' j ≡ cache_view v c j)
  one_input c r c' coins input vin found e later view_r view_rest =
      elim (Bool-cases (is_available coins.vout input.prevout.n)) [
        | inl a ↦ (c', ground (arith, found, e, later), λ j. view_rest j ∙ view_r j)
        | inr a ↦ (r.1, ground (arith, found, e), view_r)
      ]

  all-available :
      (c : Cache S) (vin : List TxIn)
      → all_known (cache_view v c) vin ≡ true
      → (c' : Cache S) × (all_available v c vin ≡ ok (all_outputs (cache_view v c) vin, c'))
        × ((j : ℕ) → cache_view v c' j ≡ cache_view v c j)
  unfolding all_available
  all-available c [] k = (c, refl, λ j. refl)
  all-available c (input ∷ vin) k =
      let r = fetch_coins v c input.prevout.hash in
      let found = fetch-result v c input.prevout.hash in
      let view_r = fetch-view v c input.prevout.hash in
      elim (Option-cases (cache_view v c input.prevout.hash)) [
        | inl e ↦ absurd (ground (arith, e))
        | inr (coins, e) ↦
            let known : all_known (cache_view v c) vin ≡ true = ground (arith, e) in
            let (c', rest, view_rest) =
              all-available r.1 vin
                (all_known-same (cache_view v r.1) (cache_view v c) vin view_r ∙ known) in
            let later =
              rest
              ∙ ap (λ b. ok (b, c'))
                  (all_outputs-same (cache_view v r.1) (cache_view v c) vin view_r) in
            one_input c r c' coins input vin (found ∙ e) e later view_r view_rest
      ]

  -- HaveInputs returns whether the transaction is a coinbase or every input spends an output that is
  -- available in what the cache stands for, and leaves that as it is.
  pub have_inputs-all_outputs :
      (c : Cache S) (tx : Transaction)
      → (c' : Cache S) × (have_inputs v c tx
          ≡ ok (is_coin_base tx || all_outputs (cache_view v c) tx.vin, c'))
        × ((j : ℕ) → cache_view v c' j ≡ cache_view v c j)
  unfolding have_inputs
  have_inputs-all_outputs c tx =
      let r = have_all_coins v c tx.vin in
      let (known, view_r) = have_all-known c tx.vin in
      elim (Bool-cases (is_coin_base tx)) [
        | inl b ↦ (c, rw (b, have_inputs) refl, λ j. refl)
        | inr b ↦ elim (Bool-cases r.0) [
          | inl t ↦
              let all = all_known-same (cache_view v r.1) (cache_view v c) tx.vin view_r in
              let (c', rest, view_rest) = all-available r.1 tx.vin (all ∙ sym known ∙ t) in
              let same = all_outputs-same (cache_view v r.1) (cache_view v c) tx.vin view_r in
              (
                c',
                rw (b, have_inputs, t) (rest ∙ ap (λ k. ok (k, c')) same),
                λ j. view_rest j ∙ view_r j,
              )
          | inr t ↦
              let none_out = no_outputs (cache_view v c) tx.vin (sym known ∙ t) in
              (r.1, rw (b, have_inputs, t, none_out) refl, view_r)
        ]
      ]
