-- ===== src/Coins.antt =====
-- The unspent outputs of a transaction: CCoins (src/coins.h, coins.cpp).
pub mod Spend
pub mod View
pub mod Database
pub mod Undo
pub mod Codec
mod Tests
use dsvalue.Prelude.{
  ℕ, ◌+◌, Bool, true, false, ◌&&◌, ◌||◌, List, [], ◌∷◌, map, Option, none, some, if◌then◌else◌, ltb,
  ◌==◌, length, get_elem?, set,
}
use dsvalue.Prelude.Int.{ℤ, pos, negsuc}
use dsvalue.Core.{TxOut, Transaction, OutPoint, TxIn}

-- CTxOut::IsNull: the value is -1.
abbrev pub is_null : TxOut → Bool
is_null txout = elim txout.n_value [ pos _ ↦ false | negsuc k ↦ k == 0 ]

-- CTxOut::SetNull
abbrev pub null_out : TxOut
null_out = record { n_value = negsuc 0; script_pub_key = [] }

pub record Coins : Type 0 where
  pub f_coin_base : Bool
  pub vout : List TxOut
  pub n_height : ℕ
  pub n_version : ℕ

abbrev pub empty_coins : Coins
empty_coins = record { f_coin_base = false; vout = []; n_height = 0; n_version = 0 }

-- An output before the cleaned rest: it is dropped where it is spent and nothing follows.
abbrev pub cleaned : TxOut → List TxOut → List TxOut
cleaned txout [] = if is_null txout then [] else txout ∷ []
cleaned txout (y ∷ ys) = txout ∷ y ∷ ys

-- CCoins::Cleanup, on vout: the spent outputs at the end are dropped.
unfoldable pub cleanup : List TxOut → List TxOut
cleanup [] = []
cleanup (txout ∷ vout) = cleaned txout (cleanup vout)

abbrev pub op_return : ℕ
op_return = 0x6a

abbrev pub op_lottounspend : ℕ
op_lottounspend = 0xc2

-- CScript::IsUnspendable
abbrev pub is_unspendable : List ℕ → Bool
is_unspendable [] = false
is_unspendable (opcode ∷ _) = opcode == op_return || opcode == op_lottounspend

-- CCoins::ClearUnspendable, on vout.
unfoldable pub clear_unspendable : List TxOut → List TxOut
unfolding cleanup
clear_unspendable vout =
    cleanup (map (λ txout. if is_unspendable txout.script_pub_key then null_out else txout) vout)

-- CTransaction::IsCoinBase
abbrev pub is_coin_base : Transaction → Bool
is_coin_base tx = elim tx.vin [
  | [] ↦ false
  | a ∷ vin ↦ elim vin [ [] ↦ a.prevout.hash == 0 && a.prevout.n == 0xffffffff | b ∷ rest ↦ false ]
]

-- CCoins::CCoins(const CTransaction&, int)
unfoldable pub coins_of : Transaction → ℕ → Coins
unfolding clear_unspendable
coins_of tx n_height = record {
  f_coin_base = is_coin_base tx;
  vout = clear_unspendable tx.vout;
  n_height = n_height;
  n_version = tx.n_version;
}

-- CCoins::IsAvailable
unfoldable pub is_available : List TxOut → ℕ → Bool
is_available vout n_pos = elim (get_elem? vout n_pos) [
  | none ↦ false
  | some txout ↦ (elim (is_null txout) [ true ↦ false | false ↦ true ])
]

-- CCoins::IsPruned
unfoldable pub is_pruned : List TxOut → Bool
is_pruned [] = true
is_pruned (txout ∷ vout) = is_null txout && is_pruned vout

-- CTxInUndo
pub record TxInUndo : Type 0 where
  pub txout : TxOut
  pub f_coin_base : Bool
  pub n_height : ℕ
  pub n_version : ℕ

-- The undo information of a spent output: with the metadata if it was the last one.
abbrev pub undo_of : Coins → TxOut → List TxOut → TxInUndo
undo_of c txout [] = record {
  txout = txout;
  f_coin_base = c.f_coin_base;
  n_height = c.n_height;
  n_version = c.n_version;
}
undo_of c txout (x ∷ xs) = record {
  txout = txout;
  f_coin_base = false;
  n_height = 0;
  n_version = 0;
}

-- CCoins::Spend, which returns false on an output that is not there or is spent.
unfoldable pub spend : Coins → ℕ → Option (Coins × TxInUndo)
unfolding cleanup
spend c n = elim (get_elem? c.vout n) [
  | none ↦ none
  | some txout ↦
      if is_null txout
      then none
      else (let rest = cleanup (set c.vout n null_out) in
          some (record c { vout = rest }, undo_of c txout rest))
]
