-- ===== src/Coins/Tests.antt =====
-- Coins and their views at concrete values.
use dsvalue.Prelude.{
  ℕ, ◌≡◌, ◌⊎◌, refl, true, false, List, [], ◌∷◌, none, some, Option, ap, if◌then◌else◌, ◌==◌, ◌||◌,
  ok, ◌++◌, replicate, arith, All, zero, suc, inl, inr,
}
use dsvalue.Prelude.Int.{pos}
use dsvalue.Prelude.Map.{Map, lookup}
use dsvalue.Core.{TxOut, Transaction}
use dsvalue.Coins.{Coins, null_out, is_available, TxInUndo, cleanup, spend, is_coin_base}
use dsvalue.Coins.Spend.{spend-is_available}
use dsvalue.Coins.Undo.{write_undo, read_undo, read_undo-write_undo}
use dsvalue.Coins.Codec.{calc_mask_size, write_coins, read_coins}
use dsvalue.Coins.Codec.RoundTrip.{IsStorable, read_coins-write_coins}
use dsvalue.Coins.Codec.Outputs.{IsStored}
use dsvalue.Compressor.{Curve}
use dsvalue.Compressor.Scripts.{Decompresses}
use dsvalue.Compressor.Outputs.{IsCompact}
use dsvalue.Coins.View.{
  overlay, live, CoinsView, Cache, write_all, cache_view, fetch_coins, set_coins, have_coins,
  batch_write, have_inputs,
}
use dsvalue.Coins.View.Refinement.{lookup-write_all, is_some, cache-refines}
use dsvalue.Coins.Database.{KeyStore, replay, later_best}
use dsvalue.Coins.View.Inputs.{all_outputs, have_inputs-all_outputs}

abbrev paid : TxOut
paid = record { n_value = pos 500; script_pub_key = 1 ∷ [] }

-- The outputs 0 and 2 are there, and output 1 is spent.
abbrev two_left : Coins
two_left = record {
  f_coin_base = true;
  vout = paid ∷ null_out ∷ paid ∷ [];
  n_height = 9;
  n_version = 1;
}

spend-is_available_example :
    (rest : List TxOut) × (undo : TxInUndo) × (spend two_left 2
      ≡ some (record two_left { vout = rest }, undo))
    × ((j : ℕ) → is_available rest j ≡ (if j == 2 then false else is_available two_left.vout j))
    × (undo.txout ≡ paid)
    × (((rest ≡ [])
          × (undo.f_coin_base ≡ two_left.f_coin_base)
          × (undo.n_height ≡ two_left.n_height)
          × (undo.n_version ≡ two_left.n_version))
        ⊎ (((j : ℕ) × (is_available rest j ≡ true))
            × (undo.f_coin_base ≡ false)
            × (undo.n_height ≡ 0)
            × (undo.n_version ≡ 0)))
unfolding is_available
spend-is_available_example = spend-is_available two_left 2 paid refl refl

-- A view that keeps all coins in a map.
map_view : CoinsView (Map Coins)
map_view = record {
  view = λ s txid. lookup txid s;
  get_coins = λ s txid. (lookup txid s, s);
  batch_write = λ s m hash. (true, write_all m s);
  get_coins-result = λ s txid. refl;
  get_coins-view = λ s txid j. refl;
  batch_write-view = λ s m hash j a done. ap live (lookup-write_all m s j a);
}

abbrev a_cache : Cache (Map Coins)
a_cache = record { base = (4, two_left) ∷ []; cache_coins = (7, two_left) ∷ []; hash_block = 3 }

cache-refines_example :
    ((fetch_coins map_view a_cache 4).0 ≡ cache_view map_view a_cache 4)
    × ((have_coins map_view a_cache 4).0 ≡ is_some (cache_view map_view a_cache 4))
    × (cache_view map_view (fetch_coins map_view a_cache 4).1 7 ≡ cache_view map_view a_cache 7)
    × (cache_view map_view (have_coins map_view a_cache 4).1 7 ≡ cache_view map_view a_cache 7)
    × (cache_view map_view (set_coins map_view a_cache 4 two_left) 7
        ≡ (if 4 == 7 then some two_left else cache_view map_view a_cache 7))
    × (cache_view map_view (batch_write map_view a_cache ((5, two_left) ∷ []) 8).1 7
        ≡ overlay ((5, two_left) ∷ []) (cache_view map_view a_cache 7) 7)
cache-refines_example = cache-refines map_view a_cache ((5, two_left) ∷ []) two_left 8 4 7 tt

-- A database that is a function, and the best block.
abbrev store : KeyStore ((ℕ → Option Coins) × Option ℕ)
store = record {
  read = λ s txid. s.0 txid;
  read_best = λ s. s.1;
  write_batch = λ s b. (true, ((λ txid. replay b.writes (s.0 txid) txid), later_best b.best s.1));
  write_batch-read = λ s b j done. refl;
  write_batch-best = λ s b done. refl;
}

abbrev spent_cache : Cache ((ℕ → Option Coins) × Option ℕ)
spent_cache = record {
  base = ((λ txid. if txid == 4 then some two_left else none), some 2);
  cache_coins = (4, record two_left { vout = [] }) ∷ (7, two_left) ∷ [];
  hash_block = 3;
}

-- A transaction that spends the outputs 0 and 2.
abbrev spender : Transaction
spender = record {
  n_version = 1;
  vin =
      record { prevout = record { hash = 7; n = 0 }; script_sig = []; n_sequence = 1 }
      ∷ record { prevout = record { hash = 4; n = 2 }; script_sig = []; n_sequence = 1 }
      ∷ [];
  vout = [];
  n_lock_time = 0;
}

have_inputs-all_outputs_example :
    (c' : Cache (Map Coins)) × (have_inputs map_view a_cache spender
      ≡ ok (is_coin_base spender || all_outputs (cache_view map_view a_cache) spender.vin, c'))
    × ((j : ℕ) → cache_view map_view c' j ≡ cache_view map_view a_cache j)
have_inputs-all_outputs_example = have_inputs-all_outputs map_view a_cache spender

-- A curve without keys.
abbrev no_curve : Curve
no_curve = record { is_fully_valid = λ key. false; decompress_key = λ key. none }

no_curve-Decompresses : Decompresses no_curve
no_curve-Decompresses pubkey n b f = cc

paid-IsCompact : IsCompact paid
paid-IsCompact = record {
  amount = 500;
  amount_eq = refl;
  amount_lt = omega arith;
  script_lt = omega arith;
}

abbrev last_spent : TxInUndo
last_spent = record { txout = paid; f_coin_base = true; n_height = 77; n_version = 1 }

abbrev fresh_undo : TxInUndo
fresh_undo = record { txout = null_out; f_coin_base = false; n_height = 0; n_version = 0 }

read_undo-write_undo_example :
    (out : List ℕ) × (write_undo no_curve last_spent ≡ ok out)
    × (read_undo no_curve fresh_undo (out ++ 5 ∷ []) ≡ ok (last_spent, 5 ∷ []))
read_undo-write_undo_example =
    read_undo-write_undo no_curve no_curve-Decompresses last_spent fresh_undo (5 ∷ [])
      paid-IsCompact (omega arith) (omega arith)

-- Only the last of twelve outputs is there: its bit stands in the second byte of the mask.
abbrev late_output : Coins
late_output = record {
  f_coin_base = false;
  vout = replicate 11 null_out ++ paid ∷ [];
  n_height = 300;
  n_version = 2;
}

late_mask : calc_mask_size late_output.vout ≡ (2, 1)
unfolding calc_mask_size
late_mask = refl

late_output-IsStored : (n : ℕ) → All IsStored (replicate n null_out ++ paid ∷ [])
late_output-IsStored zero = (inr paid-IsCompact, tt)
late_output-IsStored (suc n) = (inl refl, late_output-IsStored n)

late_output-IsStorable : IsStorable late_output
unfolding cleanup
late_output-IsStorable = record {
  is_clean = refl;
  has_output = omega arith;
  few = omega arith;
  outs = late_output-IsStored 11;
  height_lt = omega arith;
  version_lt = omega arith;
}

read_coins-write_coins_example :
    (out : List ℕ) × (write_coins no_curve late_output ≡ ok out)
    × (read_coins no_curve (out ++ 5 ∷ []) ≡ ok (late_output, 5 ∷ []))
read_coins-write_coins_example =
    read_coins-write_coins no_curve no_curve-Decompresses late_output (5 ∷ [])
      late_output-IsStorable
