-- ===== src/Chain/Connect.antt =====
-- The coins of a block, spent and given back: UpdateCoins and the loop over the transactions of
-- DisconnectBlock (src/main.cpp), with the comparison of two CCoins (src/coins.h). A version is not
-- negative. What the undo file holds for a block is a list of lists, and an error is `none`.
pub mod Outputs
pub mod Restore
pub mod Inputs
pub mod Loops
pub mod Removal
pub mod RoundTrip
mod Tests
use dsvalue.Prelude.{
  ℕ, zero, suc, ◌+◌, ◌%◌, ◌^◌, Bool, true, false, not, ◌&&◌, ◌||◌, List, [], ◌∷◌, Option, none,
  some, Result, ok, err, Error, ◌>>=◌, if◌then◌else◌, ltb, ◌==◌, length, set,
}
use dsvalue.Core.{TxIn, TxOut, Transaction}
use dsvalue.Pool.{same_list, same_out}
use dsvalue.Coins.{
  Coins, empty_coins, null_out, TxInUndo, spend, coins_of, is_coin_base, clear_unspendable,
  is_pruned, is_available,
}
use dsvalue.Coins.View.{CoinsView, Cache, fetch_coins, have_coins, set_coins}

-- CCoins::operator==
abbrev pub same_bool : Bool → Bool → Bool
same_bool true b = b
same_bool false b = not b

unfoldable pub same_coins : Coins → Coins → Bool
unfolding is_pruned
same_coins a b =
    (is_pruned a.vout && is_pruned b.vout)
    || (same_bool a.f_coin_base b.f_coin_base
        && a.n_height == b.n_height
        && a.n_version == b.n_version
        && same_list same_out a.vout b.vout)

-- if (vout.size() < n_size) vout.resize(n_size)
unfoldable pub grow : List TxOut → ℕ → List TxOut
grow vout zero = vout
grow [] (suc n_size) = null_out ∷ grow [] n_size
grow (txout ∷ vout) (suc n_size) = txout ∷ grow vout n_size

-- Spend on what GetCoins returns, with the assertions of both.
abbrev pub spend_found : Option Coins → ℕ → Result (Coins × TxInUndo)
spend_found none n = err Error.assertion
spend_found (some coins) n = elim (spend coins n) [ none ↦ err Error.assertion | some r ↦ ok r ]

abbrev pub or_empty : Option Coins → Coins
or_empty none = empty_coins
or_empty (some coins) = coins

-- The coins that an undo entry starts from, with the metadata where it has them.
abbrev pub base_of : Coins → TxInUndo → Coins
base_of coins undo = if undo.n_height == 0 then coins else record {
  f_coin_base = undo.f_coin_base;
  vout = [];
  n_height = undo.n_height;
  n_version = undo.n_version;
}

-- Whether the undo entry fits the coins.
abbrev pub undo_fits : Coins → ℕ → TxInUndo → Bool
undo_fits coins n undo =
    (if undo.n_height == 0 then not (is_pruned coins.vout) else is_pruned coins.vout)
    && not (is_available (base_of coins undo).vout n)

-- The output of an undo entry, written back. The size is an unsigned int.
abbrev pub write_back : List TxOut → ℕ → TxOut → Result (List TxOut)
write_back vout n txout =
    let grown = grow vout ((n + 1) % 2 ^ 32) in
    if ltb n (length grown) then ok (set grown n txout) else err Error.undefined

-- The coins with the output of an undo entry, and whether the entry fits.
unfoldable pub restore_coins : Coins → ℕ → TxInUndo → Result (Coins × Bool)
unfolding grow
restore_coins coins n undo = write_back (base_of coins undo).vout n undo.txout >>= λ vout.
    ok (record (base_of coins undo) { vout = vout }, undo_fits coins n undo)

module _ {S : Type 0} (v : CoinsView S) where
  -- The loop of UpdateCoins over the inputs: the undo entries, and the cache.
  unfoldable pub spend_inputs : Cache S → List TxIn → Result (List TxInUndo × Cache S)
  spend_inputs c [] = ok ([], c)
  spend_inputs c (txin ∷ vin) =
      let r = fetch_coins v c txin.prevout.hash in
      spend_found r.0 txin.prevout.n >>= λ spent.
      spend_inputs (set_coins v r.1 txin.prevout.hash spent.0) vin >>= λ rest.
      ok (spent.1 ∷ rest.0, rest.1)

  -- UpdateCoins
  unfoldable pub update_coins : Cache S → Transaction → ℕ → ℕ → Result (List TxInUndo × Cache S)
  unfolding spend_inputs
  update_coins c tx n_height txhash =
      (if is_coin_base tx then ok ([], c) else spend_inputs c tx.vin) >>= λ spent.
      ok (spent.0, set_coins v spent.1 txhash (coins_of tx n_height))

  -- The body of the loop of DisconnectBlock over the inputs.
  unfoldable pub restore_input : Bool × Cache S → TxIn → TxInUndo → Result (Bool × Cache S)
  unfolding restore_coins
  restore_input (f_clean, c) txin undo =
      let r = fetch_coins v c txin.prevout.hash in
      restore_coins (or_empty r.0) txin.prevout.n undo >>= λ restored.
      ok (f_clean && restored.1, set_coins v r.1 txin.prevout.hash restored.0)

  -- The loop, from the last input on, over as many inputs as undo entries.
  unfoldable pub restore_inputs :
      Bool × Cache S → List TxIn → List TxInUndo → Result (Bool × Cache S)
  unfolding restore_input
  restore_inputs s (txin ∷ vin) (undo ∷ vprevout) =
      restore_inputs s vin vprevout >>= λ later. restore_input later txin undo
  restore_inputs s _ _ = ok s

  -- The part of DisconnectBlock that takes the outputs of a transaction away.
  unfoldable pub remove_outputs : Bool × Cache S → Transaction → ℕ → ℕ → Bool × Cache S
  unfolding same_coins
  remove_outputs (f_clean, c) tx n_height txhash =
      let outs = have_coins v c txhash in
      let found = fetch_coins v outs.1 txhash in
      let cleared = λ (coins : Coins). record coins { vout = clear_unspendable coins.vout } in
      if outs.0
      then (
        f_clean && same_coins (cleared (or_empty found.0)) (coins_of tx n_height),
        set_coins v found.1 txhash empty_coins,
      )
      else (f_clean && same_coins (cleared empty_coins) (coins_of tx n_height), outs.1)

  -- One round of the loop over the transactions behind the coinbase.
  unfoldable pub disconnect_tx :
      Bool × Cache S → Transaction → ℕ → ℕ → List TxInUndo → Result (Option (Bool × Cache S))
  unfolding remove_outputs restore_inputs
  disconnect_tx s tx n_height txhash vprevout =
      let removed = remove_outputs s tx n_height txhash in
      if not (length vprevout == length tx.vin)
      then ok none
      else (restore_inputs removed tx.vin vprevout >>= λ restored. ok (some restored))

  module _ (get_hash : Transaction → ℕ) (n_height : ℕ) where
    -- The calls of UpdateCoins that ConnectBlock makes for these transactions, one after the other, and
    -- the undo entries of those that are no coinbase. The checks of a transaction before its call only
    -- fill the cache from the view behind it.
    unfoldable pub connect_txs :
        Cache S → List Transaction → Result (List (List TxInUndo) × Cache S)
    unfolding update_coins
    connect_txs c [] = ok ([], c)
    connect_txs c (tx ∷ vtx) = update_coins c tx n_height (get_hash tx) >>= λ updated.
        connect_txs updated.1 vtx >>= λ rest.
        ok (if is_coin_base tx then rest.0 else updated.0 ∷ rest.0, rest.1)

    -- The loop of DisconnectBlock over the transactions behind the coinbase, from the last one on.
    unfoldable pub disconnect_txs :
        Bool × Cache S → List Transaction → List (List TxInUndo) → Result (Option (Bool × Cache S))
    unfolding disconnect_tx
    disconnect_txs s (tx ∷ vtx) (vprevout ∷ vtxundo) = disconnect_txs s vtx vtxundo >>= λ later.
        elim later [
          | none ↦ ok none
          | some s' ↦ disconnect_tx s' tx n_height (get_hash tx) vprevout
        ]
    disconnect_txs s _ _ = ok (some s)

    -- DisconnectBlock, from the undo data on: fClean and the cache.
    unfoldable pub disconnect_block :
        Cache S → List Transaction → List (List TxInUndo) → ℕ → Result (Option (Bool × Cache S))
    unfolding disconnect_txs
    disconnect_block c [] vtxundo prev_hash = ok none
    disconnect_block c (tx ∷ vtx) vtxundo prev_hash =
        if not (length vtxundo + 1 == suc (length vtx))
        then ok none
        else (disconnect_txs (true, c) vtx vtxundo >>= λ later. elim later [
          | none ↦ ok none
          | some s ↦
              let removed = remove_outputs s tx n_height (get_hash tx) in
              ok (some (removed.0, record removed.1 { hash_block = prev_hash }))
        ])
