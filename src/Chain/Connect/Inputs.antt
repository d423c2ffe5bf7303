-- ===== src/Chain/Connect/Inputs.antt =====
-- The inputs of a transaction, spent by UpdateCoins and restored by DisconnectBlock (src/main.cpp).
use dsvalue.Prelude.{
  ℕ, ◌≡◌, refl, sym, ap, ◌∙◌, subst, true, false, Option, none, some, ok, ok_inj, if◌then◌else◌,
  ◌==◌, arith, Bool-cases, Option-cases, inl, inr,
}
use dsvalue.Prelude.Map.{lookup-insert}
use dsvalue.Core.{TxIn}
use dsvalue.Coins.{Coins, is_pruned, TxInUndo, spend}
use dsvalue.Coins.View.{live, CoinsView, Cache, cache_view, fetch_coins, set_coins}
use dsvalue.Coins.View.Refinement.{fetch-result, fetch-view}
use dsvalue.Chain.Connect.{spend_found, restore_input}
use dsvalue.Chain.Connect.Restore.{
  IsSound, IsSpent, spend-IsSpent, spent-IsSound, restore-spent, found-is_pruned,
}

-- Two maps of coins that are alive in the same way.
abbrev pub IsSame : (ℕ → Option Coins) → (ℕ → Option Coins) → Type 0
IsSame f g = (j : ℕ) → live (f j) ≡ live (g j)

-- All coins that are not pruned are sound.
abbrev pub AllSound : (ℕ → Option Coins) → Type 0
AllSound f =
    (j : ℕ) (coins : Coins) → f j ≡ some coins → is_pruned coins.vout ≡ false → IsSound coins

-- No coins come to life.
abbrev pub Shrinks : (ℕ → Option Coins) → (ℕ → Option Coins) → Type 0
Shrinks f g = (j : ℕ) → live (f j) ≡ none → live (g j) ≡ none

abbrev pub put : (ℕ → Option Coins) → ℕ → Coins → ℕ → Option Coins
put f hash coins j = if hash == j then some coins else f j

found_spend :
    (r : Option Coins) (n : ℕ) (spent : Coins × TxInUndo)
    → spend_found r n ≡ ok spent
    → (coins : Coins) × (r ≡ some coins) × (spend coins n ≡ some spent)
found_spend none n spent h = absurd (ground arith)
found_spend (some coins) n spent h = elim (Option-cases (spend coins n)) [
  | inl e ↦ let t = rw (spend_found, e) at h in absurd (ground arith)
  | inr (found, e) ↦
      (coins, refl, e ∙ ap (λ (x : Coins × TxInUndo). some x) (ok_inj (rw (spend_found, e) at h)))
]

pub put-AllSound :
    (f g : ℕ → Option Coins) (hash : ℕ) (coins : Coins)
    → AllSound f
    → IsSound coins
    → ((j : ℕ) → g j ≡ put f hash coins j)
    → AllSound g
put-AllSound f g hash coins s new same j found e unspent = elim (Bool-cases (hash == j)) [
  | inl here ↦
      let equal : some coins ≡ some found = ground (arith, same j, here, e) in
      let same_coins : coins ≡ found = cc in subst IsSound same_coins new
  | inr there ↦ s j found (ground (arith, same j, there, e)) unspent
]

pub put_self :
    (f : ℕ → Option Coins) (hash : ℕ) (coins : Coins) → put f hash coins hash ≡ some coins
put_self f hash coins = ground arith

pub put_other :
    (f : ℕ → Option Coins) (hash j : ℕ) (coins : Coins)
    → (hash == j) ≡ false
    → put f hash coins j ≡ f j
put_other f hash j coins other = rw other refl

-- Coins put back where others were put.
put_back :
    (f g : ℕ → Option Coins) (hash : ℕ) (coins left : Coins)
    → f hash ≡ some coins
    → IsSame g (put f hash left)
    → IsSame (put g hash coins) f
put_back f g hash coins left there same j = elim (Bool-cases (hash == j)) [
  | inl e ↦ let equal : hash ≡ j = ground arith in rw e (ap live (sym there ∙ ap f equal))
  | inr e ↦ rw e (rw e at (same j))
]

module _ {S : Type 0} (v : CoinsView S) where
  pub set-view :
      (c : Cache S) (hash : ℕ) (coins : Coins) (j : ℕ)
      → cache_view v (set_coins v c hash coins) j ≡ put (cache_view v c) hash coins j
  unfolding set_coins
  set-view c hash coins j = ground (arith, lookup-insert j hash coins c.cache_coins)

  -- SetCoins behind GetCoins.
  pub set_fetched-view :
      (c : Cache S) (hash : ℕ) (coins : Coins) (j : ℕ)
      → cache_view v (set_coins v (fetch_coins v c hash).1 hash coins) j
        ≡ put (cache_view v c) hash coins j
  unfolding set_coins
  set_fetched-view c hash coins j =
      let r = (fetch_coins v c hash).1 in
      ground (arith, lookup-insert j hash coins r.cache_coins, fetch-view v c hash j)

  -- One input: what UpdateCoins has made of the cache, with the coins that it has spent from.
  pub record IsTaken (c : Cache S) (txin : TxIn) (spent : Coins × TxInUndo) : Type 0 where
    pub coins : Coins
    pub there : cache_view v c txin.prevout.hash ≡ some coins
    pub parts : IsSpent coins txin.prevout.n (spent.0) (spent.1)

  taken_unspent :
      (c : Cache S) (txin : TxIn) (spent : Coins × TxInUndo) (t : IsTaken c txin spent)
      → is_pruned t.coins.vout ≡ false
  taken_unspent c txin spent t =
      found-is_pruned t.coins.vout txin.prevout.n t.parts.txout t.parts.found t.parts.unspent

  pub found-IsTaken :
      (c : Cache S) (txin : TxIn) (spent : Coins × TxInUndo)
      → spend_found (fetch_coins v c txin.prevout.hash).0 txin.prevout.n ≡ ok spent
      → IsTaken c txin spent
  found-IsTaken c txin spent h =
      let (coins, found, e) = found_spend _ txin.prevout.n spent h in
      record {
        coins = coins;
        there = sym (fetch-result v c txin.prevout.hash) ∙ found;
        parts = spend-IsSpent coins txin.prevout.n (spent.0) (spent.1) e;
      }

  module _ (c : Cache S) (txin : TxIn) (spent : Coins × TxInUndo) (t : IsTaken c txin spent) where
    abbrev pub next : Cache S
    next = set_coins v (fetch_coins v c txin.prevout.hash).1 txin.prevout.hash (spent.0)

    pub next-AllSound : AllSound (cache_view v c) → AllSound (cache_view v next)
    next-AllSound s =
        put-AllSound (cache_view v c) (cache_view v next) txin.prevout.hash (spent.0) s
          (spent-IsSound t.coins txin.prevout.n (spent.0) (spent.1)
            (s txin.prevout.hash t.coins t.there (taken_unspent c txin spent t)) t.parts)
          (set_fetched-view c txin.prevout.hash (spent.0))

    pub next-Shrinks : Shrinks (cache_view v c) (cache_view v next)
    next-Shrinks j dead = elim (Bool-cases (txin.prevout.hash == j)) [
      | inl here ↦
          let same = set_fetched-view c txin.prevout.hash (spent.0) j in
          let unspent = taken_unspent c txin spent t in
          let equal : txin.prevout.hash ≡ j = ground arith in
          let there = rw equal at (t.there) in absurd (ground (arith, dead, there, unspent))
      | inr other ↦
          let same = set_fetched-view c txin.prevout.hash (spent.0) j in
          ground (arith, same, other, dead)
    ]

    -- DisconnectBlock restores the input, from a cache that is alive like the one that was left.
    pub restore-next :
        (c' : Cache S)
        → AllSound (cache_view v c)
        → IsSame (cache_view v c') (cache_view v next)
        → (c'' : Cache S) × (restore_input v (true, c') txin (spent.1) ≡ ok (true, c''))
          × IsSame (cache_view v c'') (cache_view v c)
    unfolding restore_input
    restore-next c' s same =
        let hash = txin.prevout.hash in
        let found = fetch-result v c' hash in
        let left =
          set_fetched-view c hash (spent.0) hash ∙ put_self (cache_view v c) hash (spent.0) in
        let alive : live (cache_view v c' hash) ≡ live (some (spent.0)) =
          same hash ∙ ap live left in
        let back =
          restore-spent t.coins txin.prevout.n (spent.0) (spent.1) (cache_view v c' hash)
            (s hash t.coins t.there (taken_unspent c txin spent t)) t.parts alive in
        (
          set_coins v (fetch_coins v c' hash).1 hash t.coins,
          rw (found, back) refl,
          λ j.
              ap live (set_fetched-view c' hash t.coins j)
              ∙ put_back (cache_view v c) (cache_view v c') hash t.coins (spent.0) t.there
                  (λ k. same k ∙ ap live (set_fetched-view c hash (spent.0) k)) j,
        )
