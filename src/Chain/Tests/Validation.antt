-- ===== src/Chain/Tests/Validation.antt =====
-- A transaction and a block that are checked, at concrete values (src/main.cpp: CheckTransaction,
-- CheckInputs, CheckBlock).
use dsvalue.Prelude.{
  Bool, ℕ, ◌+◌, ◌*◌, All, ◌≡◌, refl, true, false, ◌≤◌, ◌↔◌, arith, [], ◌∷◌, Option, none, some, ok,
  if◌then◌else◌, ◌==◌,
}
use dsvalue.Prelude.Int.{pos, add64, sub64}
use dsvalue.Core.{Transaction}
use dsvalue.Script.{get_op}
use dsvalue.Chain.Parts.{Block}
use dsvalue.Coins.{Coins, is_available}
use dsvalue.Core.{max_money, value_out_from, get_value_out}
use dsvalue.Core.Value.{value_sum}
use dsvalue.Coins.View.{CoinsView, Cache, cache_view, fetch_coins, have_inputs}
use dsvalue.Coins.View.Inputs.{all_outputs}
use dsvalue.Serialize.{get_size_of_compact_size}
use dsvalue.Chain.Verdict.{accepted}
use dsvalue.Chain.Transactions.{check_transaction}
use dsvalue.Chain.Transactions.WellFormed.{IsWellFormed, check_transaction-IsWellFormed}
use dsvalue.Chain.Inputs.{check_inputs}
use dsvalue.Chain.Inputs.Amounts.{input_sum, all_matured, check_inputs-covered}
use dsvalue.Core.Merkle.{build_merkle_tree}
use dsvalue.Chain.Blocks.{starts_with_coinbase, more_coinbases, check_block}
use dsvalue.Chain.Blocks.Accepted.{IsApart, check_block-accepted}
use dsvalue.Chain.Tests.{betting, zero_header}

check_transaction-IsWellFormed_example :
    (check_transaction betting ≡ ok accepted) ↔ IsWellFormed betting
check_transaction-IsWellFormed_example = check_transaction-IsWellFormed betting

betting_passes : check_transaction betting ≡ ok accepted
unfolding check_transaction get_size_of_compact_size add64
betting_passes = refl

-- A view that has one output of 3 coins.
abbrev three_coins : Coins
three_coins = record {
  f_coin_base = true;
  vout = record { n_value = pos 300000000; script_pub_key = 7 ∷ [] } ∷ [];
  n_height = 50;
  n_version = 1;
}

abbrev found_coins : ℕ → Option Coins
found_coins txid = if txid == 4 then some three_coins else none

not_written : {A : Type 0} → ◌≡◌ {A = Bool} false true → A
not_written h = absurd (ground arith)

abbrev fixed_view : CoinsView (Unit {0})
fixed_view = record {
  view = λ s txid. found_coins txid;
  get_coins = λ s txid. (found_coins txid, s);
  batch_write = λ s m hash. (false, s);
  get_coins-result = λ s txid. refl;
  get_coins-view = λ s txid j. refl;
  batch_write-view = λ s m hash j order h. not_written h;
}

abbrev empty_cache : Cache (Unit {0})
empty_cache = record { base = tt; cache_coins = []; hash_block = 0 }

abbrev filled_cache : Cache (Unit {0})
filled_cache = record { base = tt; cache_coins = (4, three_coins) ∷ []; hash_block = 0 }

check_inputs-covered_example :
    (all_outputs (cache_view fixed_view empty_cache) betting.vin ≡ true)
    × (all_matured 150 100 (cache_view fixed_view empty_cache) betting.vin ≡ true)
    × (input_sum (cache_view fixed_view empty_cache) betting.vin ≤ max_money)
    × (value_sum betting.vout ≤ input_sum (cache_view fixed_view empty_cache) betting.vin)
    × ((j : ℕ) → cache_view fixed_view filled_cache j ≡ cache_view fixed_view empty_cache j)
unfolding check_inputs have_inputs fetch_coins value_out_from get_value_out is_available add64 sub64
check_inputs-covered_example =
    check_inputs-covered fixed_view 150 100 empty_cache betting filled_cache refl refl

abbrev short_coinbase : Transaction
short_coinbase = record {
  n_version = 2;
  vin =
      record {
        prevout = record { hash = 0; n = 0xffffffff };
        script_sig = 5 ∷ 6 ∷ [];
        n_sequence = 0;
      }
      ∷ [];
  vout = record { n_value = pos 20; script_pub_key = [] } ∷ [];
  n_lock_time = 0;
}

abbrev small_block : Block
small_block = record {
  hash = 92;
  hash_prev_block = 91;
  hash_merkle_root = 7;
  n_time = 100;
  lotto_header = zero_header;
  vtx = short_coinbase ∷ betting ∷ [];
}

-- With the version for the hash of a transaction, and 3 a + b for that of two hashes.
check_block-accepted_example :
    (starts_with_coinbase small_block.vtx ≡ true)
    × (more_coinbases small_block.vtx ≡ false)
    × All IsWellFormed small_block.vtx
    × IsApart (2 ∷ 1 ∷ [])
    × (true ≡ true → (build_merkle_tree (λ a b. 3 * a + b) (2 ∷ 1 ∷ [])).1 ≡ 7)
unfolding check_block get_size_of_compact_size add64 get_op build_merkle_tree
check_block-accepted_example =
    check_block-accepted (λ tx. tx.n_version) (λ a b. 3 * a + b) (λ block. true) 1000 true true
      small_block refl
