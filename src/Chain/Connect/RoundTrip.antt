-- ===== src/Chain/Connect/RoundTrip.antt =====
-- The coins of a block, connected and disconnected: UpdateCoins and DisconnectBlock (src/main.cpp).
use dsvalue.Prelude.{
  ℕ, suc, ◌+◌, ◌<◌, ◌≡◌, ◌≢◌, refl, sym, ap, ◌∙◌, subst, Bool, true, false, List, [], ◌∷◌, none,
  some, ok, >>=-eq-ok, ok_inj, if◌then◌else◌, ◌==◌, length, map, All, arith,
}
use dsvalue.Core.{Transaction}
use dsvalue.Coins.{TxInUndo, coins_of, is_coin_base}
use dsvalue.Coins.View.{live, CoinsView, Cache, cache_view, set_coins}
use dsvalue.Chain.Connect.{
  update_coins, disconnect_tx, connect_txs, disconnect_txs, disconnect_block,
}
use dsvalue.Chain.Blocks.Accepted.{IsApart}
use dsvalue.Chain.Connect.Inputs.{IsSame, AllSound, Shrinks, put-AllSound, put_other, set-view}
use dsvalue.Chain.Connect.Loops.{spend_inputs-IsUndone}
use dsvalue.Chain.Connect.Removal.{IsKept, coins_of-IsSound, remove_outputs-back}

module _ {S : Type 0} (v : CoinsView S) (n_height : ℕ) (above : 0 < n_height) where
  -- What UpdateCoins leaves of a cache, for the rest of the block.
  record IsUpdated (c : Cache S) (txhash : ℕ) (c1 : Cache S) : Type 0 where
    pub sound : AllSound (cache_view v c1)
    pub others :
        (j : ℕ)
        → (txhash == j) ≡ false
        → live (cache_view v c j) ≡ none
        → live (cache_view v c1 j) ≡ none

  put-IsUpdated :
      (c spent : Cache S) (tx : Transaction) (txhash : ℕ)
      → IsKept tx
      → AllSound (cache_view v spent)
      → Shrinks (cache_view v c) (cache_view v spent)
      → IsUpdated c txhash (set_coins v spent txhash (coins_of tx n_height))
  put-IsUpdated c spent tx txhash k s shrinks =
      let coins = coins_of tx n_height in
      let c1 = set_coins v spent txhash coins in
      record {
        sound =
            put-AllSound (cache_view v spent) (cache_view v c1) txhash coins s
              (coins_of-IsSound tx n_height k above) (set-view v spent txhash coins);
        others = λ j other dead.
            ap live (
              set-view v spent txhash coins j ∙ put_other (cache_view v spent) txhash j coins other)
            ∙ shrinks j dead;
      }

  -- UpdateCoins on a transaction that is no coinbase, taken back by a round of DisconnectBlock.
  update_coins-undone :
      (c : Cache S) (tx : Transaction) (txhash : ℕ) (undos : List TxInUndo) (c1 : Cache S)
      → AllSound (cache_view v c)
      → live (cache_view v c txhash) ≡ none
      → IsKept tx
      → is_coin_base tx ≡ false
      → update_coins v c tx n_height txhash ≡ ok (undos, c1)
      → IsUpdated c txhash c1
        × ((c2 : Cache S)
            → IsSame (cache_view v c2) (cache_view v c1)
            → (c3 : Cache S) × (disconnect_tx v (true, c2) tx n_height txhash undos
                ≡ ok (some (true, c3)))
              × IsSame (cache_view v c3) (cache_view v c))
  unfolding update_coins disconnect_tx
  update_coins-undone c tx txhash undos c1 s dead k plain h =
      let h' = rw (update_coins, plain) at h in
      let (spent, found, e) = >>=-eq-ok {A = List TxInUndo × Cache S} _ _ h' in
      let u = spend_inputs-IsUndone v c tx.vin (spent.0) (spent.1) s found in
      let coins = coins_of tx n_height in
      subst
        (λ (x : List TxInUndo × Cache S).
          IsUpdated c txhash (x.1)
          × ((c2 : Cache S)
              → IsSame (cache_view v c2) (cache_view v (x.1))
              → (c3 : Cache S) × (disconnect_tx v (true, c2) tx n_height txhash (x.0)
                  ≡ ok (some (true, c3)))
                × IsSame (cache_view v c3) (cache_view v c)))
        (ok_inj e)
        (
          put-IsUpdated c (spent.1) tx txhash k u.sound u.shrinks,
          λ c2 same.
              let (c', removed, same') =
                remove_outputs-back v c2 (cache_view v (spent.1)) tx n_height txhash
                  (u.shrinks txhash dead)
                  (λ j. same j ∙ ap live (set-view v (spent.1) txhash coins j)) in
              let (c3, restored, same'') = u.back c' same' in
              let size : (length (spent.0) == length tx.vin) ≡ true = ground (arith, u.size) in
              (c3, rw (size, removed, restored) refl, same''),
        )

  coin_base_updated :
      (c : Cache S) (tx : Transaction) (txhash : ℕ)
      → is_coin_base tx ≡ true
      → update_coins v c tx n_height txhash ≡ ok ([], set_coins v c txhash (coins_of tx n_height))
  unfolding update_coins
  coin_base_updated c tx txhash first = rw first refl

  module _ (get_hash : Transaction → ℕ) where
    -- A transaction behind the coinbase.
    abbrev pub IsPlain : Transaction → Type 0
    IsPlain tx = IsKept tx × (is_coin_base tx ≡ false)

    -- No transaction of these is alive.
    abbrev pub IsNew : Cache S → List Transaction → Type 0
    IsNew c vtx = All (λ hash. live (cache_view v c hash) ≡ none) (map get_hash vtx)

    untouched_rest :
        (c c1 : Cache S) (txhash : ℕ) (vtx : List Transaction)
        → IsUpdated c txhash c1
        → All (λ later. later ≢ txhash) (map get_hash vtx)
        → IsNew c vtx
        → IsNew c1 vtx
    untouched_rest c c1 txhash [] u apart dead = tt
    untouched_rest c c1 txhash (tx ∷ vtx) u apart dead = (
      u.others (get_hash tx) (ground (arith, apart.0)) (dead.0),
      untouched_rest c c1 txhash vtx u (apart.1) (dead.1),
    )

    -- The transactions behind the coinbase.
    connect_txs-undone :
        (c : Cache S) (vtx : List Transaction) (vtxundo : List (List TxInUndo)) (c1 : Cache S)
        → AllSound (cache_view v c)
        → All IsPlain vtx
        → IsApart (map get_hash vtx)
        → IsNew c vtx
        → connect_txs v get_hash n_height c vtx ≡ ok (vtxundo, c1)
        → (length vtxundo ≡ length vtx)
          × ((c2 : Cache S)
              → IsSame (cache_view v c2) (cache_view v c1)
              → (c3 : Cache S) × (disconnect_txs v get_hash n_height (true, c2) vtx vtxundo
                  ≡ ok (some (true, c3)))
                × IsSame (cache_view v c3) (cache_view v c))
    unfolding connect_txs disconnect_txs
    connect_txs-undone c [] vtxundo c1 s plain apart dead h =
        subst
          (λ (x : List (List TxInUndo) × Cache S).
            (length (x.0) ≡ 0)
            × ((c2 : Cache S)
                → IsSame (cache_view v c2) (cache_view v (x.1))
                → (c3 : Cache S) × (disconnect_txs v get_hash n_height (true, c2) [] (x.0)
                    ≡ ok (some (true, c3)))
                  × IsSame (cache_view v c3) (cache_view v c)))
          (ok_inj h) (refl, λ c2 same. (c2, refl, same))
    connect_txs-undone c (tx ∷ vtx) vtxundo c1 s plain apart dead h =
        let (updated, e, h1) = >>=-eq-ok {A = List TxInUndo × Cache S} _ _ h in
        let (rest, e', h2) = >>=-eq-ok {A = List (List TxInUndo) × Cache S} _ _ h1 in
        let made = ap (λ (b : Bool). if b then rest.0 else updated.0 ∷ rest.0) (sym (plain.0.1)) in
        let (u, back) =
          update_coins-undone c tx (get_hash tx) (updated.0) (updated.1) s (dead.0) (plain.0.0)
            (plain.0.1) e in
        let (size, back') =
          connect_txs-undone (updated.1) vtx (rest.0) (rest.1) u.sound (plain.1) (apart.1)
            (untouched_rest c (updated.1) (get_hash tx) vtx u (apart.0) (dead.1)) e' in
        subst
          (λ (x : List (List TxInUndo) × Cache S).
            (length (x.0) ≡ suc (length vtx))
            × ((c2 : Cache S)
                → IsSame (cache_view v c2) (cache_view v (x.1))
                → (c3 : Cache S) × (disconnect_txs v get_hash n_height (true, c2) (tx ∷ vtx) (x.0)
                    ≡ ok (some (true, c3)))
                  × IsSame (cache_view v c3) (cache_view v c)))
          (ap (λ (l : List (List TxInUndo)). (l, rest.1)) made ∙ ok_inj h2)
          (
            ap suc size,
            λ c2 same.
                let (c3, later, same') = back' c2 same in
                let (c4, first, same'') = back c3 same' in (c4, rw later first, same''),
          )

    coin_base_connected :
        (c : Cache S) (tx : Transaction) (vtx : List Transaction) (vtxundo : List (List TxInUndo))
        (c1 : Cache S)
        → is_coin_base tx ≡ true
        → connect_txs v get_hash n_height c (tx ∷ vtx) ≡ ok (vtxundo, c1)
        → connect_txs v get_hash n_height (set_coins v c (get_hash tx) (coins_of tx n_height)) vtx
          ≡ ok (vtxundo, c1)
    unfolding connect_txs
    coin_base_connected c tx vtx vtxundo c1 first h =
        let (updated, e, h1) = >>=-eq-ok {A = List TxInUndo × Cache S} _ _ h in
        let (rest, e', h2) =
          >>=-eq-ok {A = List (List TxInUndo) × Cache S}
            (connect_txs v get_hash n_height (updated.1) vtx) _ h1 in
        let made = ap (λ (b : Bool). if b then rest.0 else updated.0 ∷ rest.0) first in
        let cache =
          ap (λ (x : List TxInUndo × Cache S). connect_txs v get_hash n_height (x.1) vtx)
            (ok_inj (sym (coin_base_updated c tx (get_hash tx) first) ∙ e)) in
        cache ∙ e' ∙ ap (λ (l : List (List TxInUndo)). ok (l, rest.1)) (sym made) ∙ h2

    -- A block above height 0 that UpdateCoins has gone through, its coinbase first and no other
    -- behind it, is taken back by DisconnectBlock, from every cache in which the same coins are alive as
    -- in the one that is left: it returns true and finds nothing unclean, the same coins are alive as
    -- before the block, and the best block is the previous one. Before the block, the coins that are not
    -- pruned are sound and those of the block's hashes are not alive, the hashes differ, no output of the
    -- block is null, and a transaction has fewer than 2 ^ 32 outputs.
    pub connect_txs-disconnect_block :
        (c : Cache S) (coin_base : Transaction) (vtx : List Transaction)
        (vtxundo : List (List TxInUndo)) (c1 c2 : Cache S) (prev_hash : ℕ)
        → AllSound (cache_view v c)
        → is_coin_base coin_base ≡ true
        → IsKept coin_base
        → All IsPlain vtx
        → IsApart (map get_hash (coin_base ∷ vtx))
        → IsNew c (coin_base ∷ vtx)
        → connect_txs v get_hash n_height c (coin_base ∷ vtx) ≡ ok (vtxundo, c1)
        → IsSame (cache_view v c2) (cache_view v c1)
        → (c3 : Cache S) × (disconnect_block v get_hash n_height c2
              (coin_base ∷ vtx)
              vtxundo
              prev_hash
            ≡ ok (some (true, c3)))
          × IsSame (cache_view v c3) (cache_view v c)
          × (c3.hash_block ≡ prev_hash)
    unfolding connect_txs disconnect_block
    connect_txs-disconnect_block c coin_base vtx vtxundo c1 c2 prev_hash s first k plain apart dead
          h same =
        let coins = coins_of coin_base n_height in
        let txhash = get_hash coin_base in
        let c' = set_coins v c txhash coins in
        let u = put-IsUpdated c c coin_base txhash k s (λ j gone. gone) in
        let (size, back) =
          connect_txs-undone c' vtx vtxundo c1 u.sound plain (apart.1)
            (untouched_rest c c' txhash vtx u (apart.0) (dead.1))
            (coin_base_connected c coin_base vtx vtxundo c1 first h) in
        let (c3, later, same') = back c2 same in
        let (c4, removed, same'') =
          remove_outputs-back v c3 (cache_view v c) coin_base n_height txhash (dead.0)
            (λ j. same' j ∙ ap live (set-view v c txhash coins j)) in
        let complete : (length vtxundo + 1 == suc (length vtx)) ≡ true = ground (arith, size) in
        (record c4 { hash_block = prev_hash }, rw (complete, later, removed) refl, same'', refl)
