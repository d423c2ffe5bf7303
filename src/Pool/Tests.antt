-- ===== src/Pool/Tests.antt =====
-- The pool with three transactions, each of which spends an output of the one before; the hash of a
-- transaction is its lock time here.
use dsvalue.Prelude.{
  ℕ, zero, suc, ◌-◌, ◌<◌, ◌≡◌, refl, sym, ap, ◌∙◌, ◌++◌, ◌&&◌, not, false, true, [], ◌∷◌, none,
  some, ok, get_elem?, arith, inl, inr, Bool-cases, map,
}
use dsvalue.Prelude.Int.{pos}
use dsvalue.Prelude.Map.{lookup, lookup-insert_cases}
use dsvalue.Core.{OutPoint, TxIn, Transaction, same_out_point}
use dsvalue.Pool.{
  Entry, TxMemPool, Removal, empty_pool, add_unchecked, find_next, remove, remove_conflicts,
}
use dsvalue.Coins.{Coins, is_available, is_null, spend}
use dsvalue.Pool.Prune.{prune_spent, is_marked, prune_spent-is_available}
use dsvalue.Pool.Next.{spends, same_out_point→≡}
use dsvalue.Pool.Invariant.{IsConsistent, SpendsFresh, Within, add_unchecked-IsConsistent}
use dsvalue.Pool.Remove.{IsRanked, some_inj}
use dsvalue.Pool.Conflicts.{OnlyBy, remove_conflicts-OnlyBy}

abbrev hash : Transaction → ℕ
hash tx = tx.n_lock_time

abbrev transaction : ℕ → ℕ → Transaction
transaction id spent = record {
  n_version = 1;
  vin = record { prevout = record { hash = spent; n = 0 }; script_sig = []; n_sequence = 0 } ∷ [];
  vout = record { n_value = pos 5; script_pub_key = [] } ∷ [];
  n_lock_time = id;
}

abbrev entry : ℕ → ℕ → Entry
entry id spent = record {
  tx = transaction id spent;
  n_fee = pos 1;
  n_tx_size = 60;
  n_time = pos 7;
  d_priority = 0;
  n_height = 100;
}

abbrev with_one : TxMemPool
with_one = add_unchecked 10 (entry 10 1) empty_pool

abbrev with_two : TxMemPool
with_two = add_unchecked 20 (entry 20 10) with_one

abbrev with_three : TxMemPool
with_three = add_unchecked 30 (entry 30 20) with_two

empty_pool-IsConsistent : IsConsistent hash empty_pool
empty_pool-IsConsistent = record {
  hashed = λ h e l. absurd (cc);
  marked = λ h i e txin l g. absurd (cc);
  owned = λ out q l. absurd (cc);
}

spends_one :
    (id spent : ℕ) (pool : TxMemPool)
    → find_next (record { hash = spent; n = 0 }) pool.map_next_tx ≡ none
    → SpendsFresh pool (transaction id spent)
spends_one id spent pool free = record { distinct = (refl, tt); unspent = unspent }
  where
    unspent :
        (out : OutPoint)
        → spends (transaction id spent).vin out ≡ true
        → find_next out pool.map_next_tx ≡ none
    unspent out h = elim (Bool-cases (same_out_point (record { hash = spent; n = 0 }) out)) [
      | inl e ↦
          ap (λ (o : OutPoint). find_next o pool.map_next_tx)
            (sym (same_out_point→≡ (record { hash = spent; n = 0 }) out e))
          ∙ free
      | inr e ↦ let t = rw e at h in absurd (cc)
    ]

with_one-IsConsistent : IsConsistent hash with_one
with_one-IsConsistent =
    add_unchecked-IsConsistent hash (entry 10 1) empty_pool-IsConsistent refl
      (spends_one 10 1 empty_pool refl)

with_two-IsConsistent : IsConsistent hash with_two
unfolding add_unchecked
with_two-IsConsistent =
    add_unchecked-IsConsistent hash (entry 20 10) with_one-IsConsistent refl
      (spends_one 20 10 with_one refl)

add_unchecked-IsConsistent_example : IsConsistent hash with_three
unfolding add_unchecked
add_unchecked-IsConsistent_example =
    add_unchecked-IsConsistent hash (entry 30 20) with_two-IsConsistent refl
      (spends_one 30 20 with_two refl)

with_three-IsConsistent : IsConsistent hash with_three
unfolding add_unchecked
with_three-IsConsistent =
    add_unchecked-IsConsistent hash (entry 30 20) with_two-IsConsistent refl
      (spends_one 30 20 with_two refl)

abbrev rank : ℕ → ℕ
rank h = 100 - h

input_rank :
    (spent i : ℕ) (txin : TxIn)
    → get_elem? (transaction 0 spent).vin i ≡ some txin
    → txin.prevout.hash ≡ spent
input_rank spent zero txin g = ap (λ (x : TxIn). x.prevout.hash) (some_inj (sym g))
input_rank spent (suc i) txin g = absurd (cc)

add-IsRanked :
    (id spent : ℕ) (pool : TxMemPool)
    → IsRanked hash rank pool
    → rank id < rank spent
    → IsRanked hash rank (add_unchecked id (entry id spent) pool)
unfolding add_unchecked
add-IsRanked id spent pool r k = record { lower = lower }
  where
    lower :
        (h i : ℕ) (e : Entry) (txin : TxIn)
        → lookup h (add_unchecked id (entry id spent) pool).map_tx ≡ some e
        → get_elem? e.tx.vin i ≡ some txin
        → rank h < rank txin.prevout.hash
    lower h i e txin l g = elim (lookup-insert_cases h id (entry id spent) pool.map_tx l) [
      | inl (same, own) ↦
          let g' : get_elem? (transaction 0 spent).vin i ≡ some txin =
            ap (λ (x : Entry). get_elem? x.tx.vin i) own ∙ g in
          omega (arith, k, same, input_rank spent i txin g')
      | inr (other, old) ↦ r.lower h i e txin old g
    ]

with_three-IsRanked : IsRanked hash rank with_three
with_three-IsRanked =
    add-IsRanked 30 20 with_two
      (add-IsRanked 20 10 with_one
        (add-IsRanked 10 1 empty_pool (record { lower = λ h i e txin l g. absurd (cc) })
          (omega arith))
        (omega arith))
      (omega arith)

abbrev at_three : Removal
at_three = record { pool = with_three; removed = [] }

-- The removal takes all three out, the last one first.
remove_all :
    (t : Removal) × (remove hash 3 true (transaction 10 1) at_three ≡ ok t)
    × (map hash t.removed ≡ 10 ∷ 20 ∷ 30 ∷ [])
    × (t.pool.map_tx ≡ [])
    × (t.pool.map_next_tx ≡ [])
unfolding remove add_unchecked
remove_all = (_, refl, refl, refl, refl)

-- Another transaction that spends the output that the first one spends.
remove_conflicts-OnlyBy_example :
    (t : Removal) × (remove_conflicts hash 101 (transaction 40 1) at_three ≡ ok t)
    × IsConsistent hash t.pool
    × Within t.pool with_three
    × ((i : ℕ) (txin : TxIn)
        → get_elem? (transaction 40 1).vin i ≡ some txin
        → OnlyBy t.pool (transaction 40 1) txin.prevout)
remove_conflicts-OnlyBy_example =
    remove_conflicts-OnlyBy hash rank 101 (transaction 40 1) at_three with_three-IsConsistent
      with_three-IsRanked (λ h e l. omega arith)

abbrev paid_coins : Coins
paid_coins = record {
  f_coin_base = false;
  vout = (transaction 10 1).vout ++ (transaction 10 1).vout;
  n_height = 90;
  n_version = 1;
}

prune_spent-is_available_example : is_available (prune_spent 10 with_three paid_coins).vout 0 ≡ (
    is_available paid_coins.vout 0
    && not (is_marked (record { hash = 10; n = 0 }) with_three.map_next_tx))
unfolding add_unchecked
prune_spent-is_available_example =
    prune_spent-is_available 10 0 with_three paid_coins ((refl, (refl, tt)), ((refl, tt), (tt, tt)))

-- Of the two outputs the first one is spent by the pool.
pruned : map is_null (prune_spent 10 with_three paid_coins).vout ≡ true ∷ false ∷ []
unfolding add_unchecked prune_spent spend
pruned = refl
