-- ===== src/Chain/Connect/Removal.antt =====
-- The outputs of a transaction, set by UpdateCoins and taken away by DisconnectBlock (src/main.cpp).
use dsvalue.Prelude.{
  ℕ, suc, ◌<◌, ◌^◌, ◌≡◌, refl, sym, ap, ◌∙◌, subst, true, false, List, [], ◌∷◌, Option, none, some,
  if◌then◌else◌, ◌==◌, list_eq, length, map, All, arith, Bool-cases, Option-cases, inl, inr,
}
use dsvalue.Prelude.Int.{ℤ, pos, negsuc}
use dsvalue.Core.{TxOut, Transaction}
use dsvalue.Pool.{same_list, same_out, same_value}
use dsvalue.Coins.{
  Coins, empty_coins, null_out, is_null, is_pruned, is_unspendable, clear_unspendable, coins_of,
  cleanup, cleaned,
}
use dsvalue.Coins.View.{live, CoinsView, Cache, cache_view, fetch_coins, have_coins, set_coins}
use dsvalue.Coins.View.Refinement.{fetch-result, have-result, have-view}
use dsvalue.Chain.Connect.{or_empty, same_coins, remove_outputs}
use dsvalue.Coins.Spend.{cleanup-cleanup, is_pruned-cleanup}
use dsvalue.Chain.Connect.Outputs.{IsExact, All-cleanup, length-cleanup}
use dsvalue.Chain.Connect.Restore.{IsSound, live-none, live-some}
use dsvalue.Chain.Connect.Inputs.{IsSame, put, put_self, put_other, set_fetched-view}

-- An output that can be spent, or the null output.
abbrev kept : TxOut → TxOut
kept txout = if is_unspendable txout.script_pub_key then null_out else txout

kept_twice : (txout : TxOut) → kept (kept txout) ≡ kept txout
kept_twice txout = elim (Bool-cases (is_unspendable txout.script_pub_key)) [
  | inl e ↦ rw e refl
  | inr e ↦ rw (e, e) refl
]

stable_rest :
    (txout : TxOut) (rest : List TxOut)
    → map kept rest ≡ rest
    → map kept (cleaned (kept txout) rest) ≡ cleaned (kept txout) rest
stable_rest txout [] h = ground arith
stable_rest txout (y ∷ ys) h =
    ap (λ l. kept (kept txout) ∷ l) h ∙ ap (λ x. x ∷ y ∷ ys) (kept_twice txout)

kept-kept : (vout : List TxOut) → map kept (cleanup (map kept vout)) ≡ cleanup (map kept vout)
unfolding cleanup
kept-kept [] = refl
kept-kept (txout ∷ vout) = stable_rest txout (cleanup (map kept vout)) (kept-kept vout)

-- ClearUnspendable changes nothing the second time.
clear_unspendable-clear_unspendable :
    (vout : List TxOut) → clear_unspendable (clear_unspendable vout) ≡ clear_unspendable vout
unfolding clear_unspendable
clear_unspendable-clear_unspendable vout =
    ap cleanup (kept-kept vout) ∙ cleanup-cleanup (map kept vout)

is_pruned-map : (vout : List TxOut) → is_pruned vout ≡ true → is_pruned (map kept vout) ≡ true
unfolding is_pruned
is_pruned-map [] h = refl
is_pruned-map (txout ∷ vout) h = elim (Bool-cases (is_null txout)) [
  | inl e ↦ let rest = is_pruned-map vout (ground (arith, e)) in ground (arith, rest, e)
  | inr e ↦ absurd (ground (arith, e))
]

is_pruned-clear :
    (vout : List TxOut) → is_pruned vout ≡ true → is_pruned (clear_unspendable vout) ≡ true
unfolding clear_unspendable
is_pruned-clear vout h = is_pruned-cleanup (map kept vout) ∙ is_pruned-map vout h

list_eq_refl : (xs : List ℕ) → list_eq xs xs ≡ true
list_eq_refl [] = refl
list_eq_refl (x ∷ xs) = ground (arith, list_eq_refl xs)

same_value_refl : (a : ℤ) → same_value a a ≡ true
same_value_refl (pos n) = ground arith
same_value_refl (negsuc n) = ground arith

same_out_refl : (txout : TxOut) → same_out txout txout ≡ true
same_out_refl txout =
    ground (arith, same_value_refl txout.n_value, list_eq_refl txout.script_pub_key)

same_outs_refl : (vout : List TxOut) → same_list same_out vout vout ≡ true
same_outs_refl [] = refl
same_outs_refl (txout ∷ vout) = ground (arith, same_out_refl txout, same_outs_refl vout)

same_coins_refl : (c : Coins) → same_coins c c ≡ true
unfolding same_coins
same_coins_refl c = ground (arith, same_outs_refl c.vout)

same_coins_pruned :
    (a b : Coins) → is_pruned a.vout ≡ true → is_pruned b.vout ≡ true → same_coins a b ≡ true
unfolding same_coins
same_coins_pruned a b p q = rw (p, q) refl

-- An entry that is alive like the coins of the transaction matches them.
or_empty-coins_of :
    (d : Option Coins) (tx : Transaction) (n_height : ℕ)
    → live d ≡ live (some (coins_of tx n_height))
    → same_coins
        (record (or_empty d) { vout = clear_unspendable (or_empty d).vout })
        (coins_of tx n_height)
      ≡ true
unfolding coins_of
or_empty-coins_of d tx n_height h =
    let coins = coins_of tx n_height in
    elim (Bool-cases (is_pruned coins.vout)) [
      | inl e ↦
          let gone = live-none d (h ∙ rw e refl) in
          same_coins_pruned (record (or_empty d) { vout = clear_unspendable (or_empty d).vout })
            coins (is_pruned-clear (or_empty d).vout gone) e
      | inr e ↦
          let same = live-some d coins h e in
          rw (same, clear_unspendable-clear_unspendable tx.vout) (same_coins_refl coins)
    ]

-- Without the entry that was put there, what is alive is what was before.
entry_gone :
    (f g before : ℕ → Option Coins) (hash : ℕ) (coins : Coins)
    → live (before hash) ≡ none
    → IsSame f (put before hash coins)
    → live (g hash) ≡ none
    → ((j : ℕ) → (hash == j) ≡ false → live (g j) ≡ live (f j))
    → IsSame g before
entry_gone f g before hash coins dead same gone others j = elim (Bool-cases (hash == j)) [
  | inl e ↦
      let equal : hash ≡ j = ground arith in
      subst (λ k. live (g k) ≡ live (before k)) equal (gone ∙ sym dead)
  | inr e ↦ others j e ∙ rw e at (same j)
]

module _ {S : Type 0} (v : CoinsView S) where
  -- DisconnectBlock takes the outputs away that UpdateCoins has put over entries that were not alive.
  pub remove_outputs-back :
      (c : Cache S) (before : ℕ → Option Coins) (tx : Transaction) (n_height txhash : ℕ)
      → live (before txhash) ≡ none
      → IsSame (cache_view v c) (put before txhash (coins_of tx n_height))
      → (c' : Cache S) × (remove_outputs v (true, c) tx n_height txhash ≡ (true, c'))
        × IsSame (cache_view v c') before
  unfolding remove_outputs
  remove_outputs-back c before tx n_height txhash dead same =
      let outs = (have_coins v c txhash).1 in
      let later = (fetch_coins v outs txhash).1 in
      let known = have-result v c txhash in
      let found = fetch-result v outs txhash ∙ have-view v c txhash txhash in
      let alike = same txhash ∙ ap live (put_self before txhash (coins_of tx n_height)) in
      let clean = or_empty-coins_of (cache_view v c txhash) tx n_height alike in
      elim (Option-cases (cache_view v c txhash)) [
        | inl e ↦
            let none_known = rw e at known in
            let clean' = rw e at clean in
            (
              outs,
              rw (none_known, clean') refl,
              entry_gone (cache_view v c) (cache_view v outs) before txhash (coins_of tx n_height)
                  dead same (ap live (have-view v c txhash txhash) ∙ ap live e)
                  (λ j _. ap live (have-view v c txhash j)),
            )
        | inr (coins, e) ↦
            let is_known = rw e at known in
            let clean' = rw (sym found) at clean in
            let c' = set_coins v later txhash empty_coins in
            (
              c',
              rw (is_known, clean') refl,
              entry_gone (cache_view v c) (cache_view v c') before txhash (coins_of tx n_height)
                  dead same
                  (ap live (
                    set_fetched-view v outs txhash empty_coins txhash
                    ∙ put_self (cache_view v outs) txhash empty_coins))
                  (λ j other. ap live (
                    set_fetched-view v outs txhash empty_coins j
                    ∙ put_other (cache_view v outs) txhash j empty_coins other
                    ∙ have-view v c txhash j)),
            )
      ]

-- A transaction whose outputs have a value and fit an unsigned int.
pub record IsKept (tx : Transaction) : Type 0 where
  pub valued : All (λ txout. is_null txout ≡ false) tx.vout
  pub short : length tx.vout < 2 ^ 32

All-kept :
    (vout : List TxOut) → All (λ txout. is_null txout ≡ false) vout → All IsExact (map kept vout)
All-kept [] a = tt
All-kept (txout ∷ vout) a = (kept_exact, All-kept vout (a.1))
  where
    kept_exact : IsExact (kept txout)
    kept_exact e = elim (Bool-cases (is_unspendable txout.script_pub_key)) [
      | inl u ↦ rw u refl
      | inr u ↦ let e' = rw u at e in absurd (ground (arith, a.0))
    ]

length-map-kept : (vout : List TxOut) → length (map kept vout) ≡ length vout
length-map-kept [] = refl
length-map-kept (txout ∷ vout) = ap suc (length-map-kept vout)

-- The coins of a transaction are sound.
pub coins_of-IsSound :
    (tx : Transaction) (n_height : ℕ) → IsKept tx → 0 < n_height → IsSound (coins_of tx n_height)
unfolding coins_of clear_unspendable
coins_of-IsSound tx n_height k above =
    let vout = map kept tx.vout in
    record {
      clean = cleanup-cleanup vout;
      exact = All-cleanup IsExact vout (All-kept tx.vout k.valued);
      above = above;
      short = omega (arith, length-cleanup vout, length-map-kept tx.vout, k.short);
    }
