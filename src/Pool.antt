-- ===== src/Pool.antt =====
-- The pool of transactions that wait for a block: CTxMemPool (src/txmempool.h, txmempool.cpp). A CInPoint
-- (src/core.h) points to a transaction inside mapTx; here it has the key of that transaction, and to
-- follow it where mapTx has no such key is the use of a dangling pointer.
pub mod Next
pub mod Invariant
pub mod Erasing
pub mod Remove
pub mod Conflicts
pub mod Prune
mod Tests
use dsvalue.Prelude.{
  ℕ, zero, suc, ◌+◌, ◌%◌, ◌^◌, Bool, true, false, not, ◌&&◌, ◌||◌, List, [], ◌∷◌, Option, none,
  some, Result, ok, err, Error, ◌>>=◌, if◌then◌else◌, ltb, ◌==◌, list_eq,
}
use dsvalue.Prelude.Int.{ℤ, pos, negsuc}
use dsvalue.Prelude.Map.{Map, lookup, insert, erase, has_key, keys}
use dsvalue.Core.{OutPoint, TxIn, TxOut, Transaction, same_out_point}

-- CInPoint
pub record InPoint : Type 0 where
  pub ptx : ℕ
  pub n : ℕ

-- CTxMemPoolEntry; dPriority by its bits, with which nothing is computed here.
pub record Entry : Type 0 where
  pub tx : Transaction
  pub n_fee : ℤ
  pub n_tx_size : ℕ
  pub n_time : ℤ
  pub d_priority : ℕ
  pub n_height : ℕ

-- operator< of two COutPoint
abbrev pub out_point_lt : OutPoint → OutPoint → Bool
out_point_lt a b = ltb a.hash b.hash || (a.hash == b.hash && ltb a.n b.n)

-- mapNextTx, in the order of its keys.
abbrev pub NextTx : Type 0
NextTx = List (OutPoint × InPoint)

-- mapNextTx.find(out)
abbrev pub find_next : OutPoint → NextTx → Option InPoint
find_next out [] = none
find_next out ((o, q) ∷ m) = if same_out_point o out then some q else find_next out m

-- mapNextTx[out] = in
abbrev pub put_next : OutPoint → InPoint → NextTx → NextTx
put_next out q [] = (out, q) ∷ []
put_next out q ((o, r) ∷ m) =
    let rest = put_next out q m in
    if same_out_point o out
    then (out, q) ∷ m
    else if out_point_lt out o
    then (out, q) ∷ (o, r) ∷ m
    else (o, r) ∷ rest

-- mapNextTx.erase(out)
abbrev pub erase_next : OutPoint → NextTx → NextTx
erase_next out [] = []
erase_next out ((o, r) ∷ m) =
    let rest = erase_next out m in if same_out_point o out then rest else (o, r) ∷ rest

-- CTxMemPool
pub record TxMemPool : Type 0 where
  pub f_sanity_check : Bool
  pub n_transactions_updated : ℕ
  pub map_tx : Map Entry
  pub map_next_tx : NextTx

-- CTxMemPool::CTxMemPool
abbrev pub empty_pool : TxMemPool
empty_pool = record {
  f_sanity_check = false;
  n_transactions_updated = 0;
  map_tx = [];
  map_next_tx = [];
}

-- CTxMemPool::AddTransactionsUpdated
abbrev pub add_transactions_updated : ℕ → TxMemPool → TxMemPool
add_transactions_updated n pool = record pool {
  n_transactions_updated = (pool.n_transactions_updated + n) % 2 ^ 32;
}

-- The loop of addUnchecked over the inputs, from input `i` on.
unfoldable pub link_inputs : ℕ → ℕ → List TxIn → NextTx → NextTx
link_inputs hash i [] m = m
link_inputs hash i (txin ∷ vin) m =
    link_inputs hash (suc i) vin (put_next txin.prevout (record { ptx = hash; n = i }) m)

-- CTxMemPool::addUnchecked
unfoldable pub add_unchecked : ℕ → Entry → TxMemPool → TxMemPool
unfolding link_inputs
add_unchecked hash entry pool = add_transactions_updated 1 (record pool {
  map_tx = insert hash entry pool.map_tx;
  map_next_tx = link_inputs hash 0 entry.tx.vin pool.map_next_tx;
})

-- The loop of remove over the inputs.
unfoldable pub unlink_inputs : List TxIn → NextTx → NextTx
unlink_inputs [] m = m
unlink_inputs (txin ∷ vin) m = unlink_inputs vin (erase_next txin.prevout m)

-- What a removal works on: the pool, and the list of what was removed.
pub record Removal : Type 0 where
  pub pool : TxMemPool
  pub removed : List Transaction

-- The transaction that a CInPoint points to.
unfoldable pub deref : InPoint → TxMemPool → Result Transaction
deref q pool = elim (lookup q.ptx pool.map_tx) [
  | none ↦ err Error.undefined
  | some entry ↦ ok entry.tx
]

-- CTxMemPool::clear
abbrev pub clear : TxMemPool → TxMemPool
clear pool = add_transactions_updated 1 (record pool { map_tx = []; map_next_tx = [] })

-- operator== of two CTxIn, of two CTxOut and of two CTransaction
abbrev pub same_in : TxIn → TxIn → Bool
same_in a b =
    same_out_point a.prevout b.prevout
    && list_eq a.script_sig b.script_sig
    && a.n_sequence == b.n_sequence

abbrev pub same_value : ℤ → ℤ → Bool
same_value (pos a) (pos b) = a == b
same_value (negsuc a) (negsuc b) = a == b
same_value _ _ = false

abbrev pub same_out : TxOut → TxOut → Bool
same_out a b = same_value a.n_value b.n_value && list_eq a.script_pub_key b.script_pub_key

abbrev pub same_list {ℓ} : {A : Type ℓ} → (A → A → Bool) → List A → List A → Bool
same_list same [] [] = true
same_list same (x ∷ xs) (y ∷ ys) = same x y && same_list same xs ys
same_list same _ _ = false

unfoldable pub same_transaction : Transaction → Transaction → Bool
same_transaction a b =
    a.n_version == b.n_version
    && same_list same_in a.vin b.vin
    && same_list same_out a.vout b.vout
    && a.n_lock_time == b.n_lock_time

module _ (get_hash : Transaction → ℕ) where
  -- The last part of remove: the transaction itself.
  unfoldable pub take_out : Transaction → Removal → Removal
  unfolding unlink_inputs
  take_out tx s =
      if has_key (get_hash tx) s.pool.map_tx
      then record {
        pool = add_transactions_updated 1 (record (s.pool) {
          map_tx = erase (get_hash tx) s.pool.map_tx;
          map_next_tx = unlink_inputs tx.vin s.pool.map_next_tx;
        });
        removed = tx ∷ s.removed;
      }
      else s

  -- Output `i` in the loop of remove: a transaction that spends it is removed by `call`.
  unfoldable pub remove_spender :
      (Transaction → Removal → Result Removal) → OutPoint → Removal → Result Removal
  unfolding deref
  remove_spender call out s = elim (find_next out s.pool.map_next_tx) [
    | none ↦ ok s
    | some q ↦ deref q s.pool >>= λ tx. call tx s
  ]

  -- The loop of remove over the outputs, from output `i` on.
  unfoldable pub remove_spenders :
      (Transaction → Removal → Result Removal) → ℕ → ℕ → List TxOut → Removal → Result Removal
  unfolding remove_spender
  remove_spenders call hash i [] s = ok s
  remove_spenders call hash i (txout ∷ vout) s =
      remove_spender call (record { hash = hash; n = i }) s >>= λ t.
      remove_spenders call hash (suc i) vout t

  -- CTxMemPool::remove; the fuel bounds the depth of the recursion.
  unfoldable pub remove : ℕ → Bool → Transaction → Removal → Result Removal
  unfolding remove_spenders take_out
  remove zero f_recursive tx s = err Error.fuel
  remove (suc fuel) f_recursive tx s =
      (if f_recursive then remove_spenders (remove fuel true) (get_hash tx) 0 tx.vout s else ok s)
      >>= λ t. ok (take_out tx t)

  -- An input in the loop of removeConflicts.
  unfoldable pub remove_conflict : ℕ → Transaction → TxIn → Removal → Result Removal
  unfolding remove deref same_transaction
  remove_conflict fuel tx txin s = elim (find_next txin.prevout s.pool.map_next_tx) [
    | none ↦ ok s
    | some q ↦ deref q s.pool >>= λ tx_conflict.
        if same_transaction tx_conflict tx then ok s else remove fuel true tx_conflict s
  ]

  unfoldable pub conflicts_from : ℕ → Transaction → List TxIn → Removal → Result Removal
  unfolding remove_conflict
  conflicts_from fuel tx [] s = ok s
  conflicts_from fuel tx (txin ∷ vin) s =
      remove_conflict fuel tx txin s >>= λ t. conflicts_from fuel tx vin t

  -- CTxMemPool::removeConflicts
  unfoldable pub remove_conflicts : ℕ → Transaction → Removal → Result Removal
  unfolding conflicts_from
  remove_conflicts fuel tx s = conflicts_from fuel tx tx.vin s
