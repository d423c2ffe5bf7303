-- ===== src/Chain/Connect/Tests.antt =====
-- A block that spends a transaction to the last output, connected and disconnected, at concrete values.
use dsvalue.Prelude.{
  ap, ℕ, ◌≡◌, refl, subst, true, false, List, [], ◌∷◌, some, ok, ◌==◌, Bool-cases, inl, inr, arith,
}
use dsvalue.Prelude.Int.{pos}
use dsvalue.Prelude.Map.{Map, lookup}
use dsvalue.Core.{TxIn, TxOut, Transaction}
use dsvalue.Coins.{Coins, TxInUndo, cleanup, coins_of, spend}
use dsvalue.Coins.View.{live, CoinsView, Cache, cache_view, write_all, fetch_coins, set_coins}
use dsvalue.Coins.View.Refinement.{lookup-write_all}
use dsvalue.Chain.Connect.{spend_inputs, update_coins, connect_txs, disconnect_block}
use dsvalue.Chain.Connect.Restore.{IsSound}
use dsvalue.Chain.Connect.Inputs.{IsSame, AllSound}
use dsvalue.Chain.Connect.RoundTrip.{connect_txs-disconnect_block}

abbrev paid : TxOut
paid = record { n_value = pos 500; script_pub_key = 1 ∷ [] }

abbrev two_paid : Coins
two_paid = record { f_coin_base = true; vout = paid ∷ paid ∷ []; n_height = 3; n_version = 1 }

abbrev disk_view : CoinsView (Map Coins)
disk_view = record {
  view = λ s txid. lookup txid s;
  get_coins = λ s txid. (lookup txid s, s);
  batch_write = λ s m hash. (true, write_all m s);
  get_coins-result = λ s txid. refl;
  get_coins-view = λ s txid j. refl;
  batch_write-view = λ s m hash j a done. ap live (lookup-write_all m s j a);
}

abbrev disk_cache : Cache (Map Coins)
disk_cache = record { base = (4, two_paid) ∷ []; cache_coins = []; hash_block = 70 }

abbrev input_of : ℕ → ℕ → TxIn
input_of hash n = record {
  prevout = record { hash = hash; n = n };
  script_sig = [];
  n_sequence = 1;
}

abbrev reward : Transaction
reward = record {
  n_version = 1;
  vin = input_of 0 0xffffffff ∷ [];
  vout = paid ∷ [];
  n_lock_time = 100;
}

-- The transaction spends both outputs.
abbrev payment : Transaction
payment = record {
  n_version = 1;
  vin = input_of 4 0 ∷ input_of 4 1 ∷ [];
  vout = paid ∷ [];
  n_lock_time = 101;
}

-- The lock time stands for the hash.
abbrev hash_by_time : Transaction → ℕ
hash_by_time tx = tx.n_lock_time

abbrev paid_coins : ℕ → List TxOut → Coins
paid_coins n_height vout = record {
  f_coin_base = n_height == 3;
  vout = vout;
  n_height = n_height;
  n_version = 1;
}

abbrev undos : List TxInUndo
undos =
    record { txout = paid; f_coin_base = false; n_height = 0; n_version = 0 }
    ∷ record { txout = paid; f_coin_base = true; n_height = 3; n_version = 1 }
    ∷ []

abbrev connected : Cache (Map Coins)
connected = record disk_cache {
  cache_coins =
      (4, paid_coins 3 [])
      ∷ (100, record two_paid { vout = paid ∷ []; n_height = 9 })
      ∷ (101, paid_coins 9 (paid ∷ []))
      ∷ [];
}

connected_lem :
    connect_txs disk_view hash_by_time 9 disk_cache (reward ∷ payment ∷ [])
    ≡ ok (undos ∷ [], connected)
unfolding connect_txs update_coins spend_inputs coins_of fetch_coins set_coins spend
connected_lem = refl

two_paid-IsSound : IsSound two_paid
unfolding cleanup
two_paid-IsSound = record {
  clean = refl;
  exact = ((λ e. cc), ((λ e. cc), tt));
  above = omega arith;
  short = omega arith;
}

disk_cache-AllSound : AllSound (cache_view disk_view disk_cache)
disk_cache-AllSound j coins e unspent = elim (Bool-cases (4 == j)) [
  | inl here ↦
      let same : two_paid ≡ coins = ground (arith, here, e) in subst IsSound same two_paid-IsSound
  | inr other ↦ absurd (ground (arith, other, e))
]

connect_txs-disconnect_block_example :
    (c3 : Cache (Map Coins)) × (disconnect_block disk_view hash_by_time 9 connected
        (reward ∷ payment ∷ [])
        (undos ∷ [])
        70
      ≡ ok (some (true, c3)))
    × IsSame (cache_view disk_view c3) (cache_view disk_view disk_cache)
    × (c3.hash_block ≡ 70)
connect_txs-disconnect_block_example =
    connect_txs-disconnect_block disk_view 9 (omega arith) hash_by_time disk_cache reward
      (payment ∷ []) (undos ∷ []) connected connected 70 disk_cache-AllSound refl
      (record { valued = (refl, tt); short = omega arith })
      ((record { valued = (refl, tt); short = omega arith }, refl), tt)
      (((λ e. ground (arith, e)), tt), (tt, tt)) (refl, (refl, tt)) connected_lem (λ j. refl)
