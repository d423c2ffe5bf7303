-- ===== src/Pool/Erasing.antt =====
-- Taking a transaction out keeps mapTx and mapNextTx in agreement (src/txmempool.cpp:
-- CTxMemPool::remove).
use dsvalue.Prelude.{
  ℕ, ◌≡◌, ◌≢◌, ap, ◌∙◌, sym, false, none, some, get_elem?, Bool-cases, Option-cases, inl, inr,
}
use dsvalue.Prelude.Map.{
  Map, lookup, erase, has_key, lookup-erase_cases, lookup-erase_kept, lookup-erase_self,
}
use dsvalue.Core.{OutPoint, TxIn, Transaction}
use dsvalue.Pool.{InPoint, Entry, find_next, TxMemPool, Removal, unlink_inputs, take_out}
use dsvalue.Pool.Next.{
  spends, find_next-unlink_inputs, find_next-unlink_cases, spends-input, input-spends,
}
use dsvalue.Pool.Invariant.{IsConsistent, HoldsNoOther, Within, some_inj}

module _ (get_hash : Transaction → ℕ) where
  -- An output that is marked with another transaction is not spent by this one.
  other_mark :
      {pool : TxMemPool} (e : Entry)
      → IsConsistent get_hash pool
      → lookup (get_hash e.tx) pool.map_tx ≡ some e
      → (out : OutPoint) (q : InPoint) → find_next out pool.map_next_tx ≡ some q
      → get_hash e.tx ≢ q.ptx
      → spends e.tx.vin out ≡ false
  other_mark {pool} e c held out q mark other = elim (Bool-cases (spends e.tx.vin out)) [
    | inr s ↦ s
    | inl s ↦
        let (i, txin, at, same) = spends-input e.tx.vin out s in
        let own =
          ap (λ (o : OutPoint). find_next o pool.map_next_tx) (sym same)
          ∙ c.marked (get_hash e.tx) i e txin held at in
        absurd (other (ap (λ (p : InPoint). p.ptx) (some_inj (sym own ∙ mark))))
  ]

  not_owner :
      (e : Entry) (m : Map Entry) (q : InPoint) (f : Entry) (txin : TxIn)
      → lookup (get_hash e.tx) m ≡ some e
      → lookup q.ptx m ≡ some f
      → get_elem? f.tx.vin q.n ≡ some txin
      → spends e.tx.vin txin.prevout ≡ false
      → get_hash e.tx ≢ q.ptx
  not_owner e m q f txin held found at free same =
      let again : lookup q.ptx m ≡ some e = rw (← same) held in
      let equal : f ≡ e = some_inj (sym found ∙ again) in
      let spent = input-spends e.tx.vin q.n (input_of equal at) in absurd (cc)
    where
      input_of :
          {f e : Entry}
          → f ≡ e
          → get_elem? f.tx.vin q.n ≡ some txin
          → get_elem? e.tx.vin q.n ≡ some txin
      input_of equal at = ap (λ (x : Entry). get_elem? x.tx.vin q.n) (sym equal) ∙ at

  pub erase-IsConsistent :
      {pool : TxMemPool} (e : Entry) (updated : ℕ)
      → IsConsistent get_hash pool
      → lookup (get_hash e.tx) pool.map_tx ≡ some e
      → IsConsistent get_hash (record pool {
        n_transactions_updated = updated;
        map_tx = erase (get_hash e.tx) pool.map_tx;
        map_next_tx = unlink_inputs e.tx.vin pool.map_next_tx;
      })
  erase-IsConsistent {pool} e updated c held = record {
    hashed = λ h f l. c.hashed h f (lookup-erase_cases h (get_hash e.tx) pool.map_tx l).1;
    marked = marked;
    owned = owned;
  }
    where
      marked :
          (h i : ℕ) (f : Entry) (txin : TxIn)
          → lookup h (erase (get_hash e.tx) pool.map_tx) ≡ some f
          → get_elem? f.tx.vin i ≡ some txin
          → find_next txin.prevout (unlink_inputs e.tx.vin pool.map_next_tx)
            ≡ some (record { ptx = h; n = i })
      marked h i f txin l g =
          let (other, old) = lookup-erase_cases h (get_hash e.tx) pool.map_tx l in
          let mark = c.marked h i f txin old g in
          let free = other_mark e c held txin.prevout (record { ptx = h; n = i }) mark other in
          find_next-unlink_inputs e.tx.vin txin.prevout pool.map_next_tx ∙ rw free mark

      owned :
          (out : OutPoint) (q : InPoint)
          → find_next out (unlink_inputs e.tx.vin pool.map_next_tx) ≡ some q
          → (f : Entry) × (txin : TxIn) × (lookup q.ptx (erase (get_hash e.tx) pool.map_tx)
              ≡ some f)
            × (get_elem? f.tx.vin q.n ≡ some txin)
            × (txin.prevout ≡ out)
      owned out q l =
          let (free, mark) = find_next-unlink_cases e.tx.vin out pool.map_next_tx l in
          let (f, txin, found, at, same) = c.owned out q mark in
          let other = not_owner e pool.map_tx q f txin held found at (rw same free) in
          (f, txin, lookup-erase_kept q.ptx (get_hash e.tx) pool.map_tx other found, at, same)

  -- The last part of remove keeps the two maps in agreement, adds nothing, and takes the transaction out.
  pub take_out-IsConsistent :
      (tx : Transaction) (s : Removal)
      → IsConsistent get_hash s.pool
      → HoldsNoOther get_hash s.pool tx
      → IsConsistent get_hash (take_out get_hash tx s).pool
        × Within (take_out get_hash tx s).pool s.pool
        × (lookup (get_hash tx) (take_out get_hash tx s).pool.map_tx ≡ none)
  unfolding take_out
  take_out-IsConsistent tx s c only = elim (Option-cases (lookup (get_hash tx) s.pool.map_tx)) [
    | inl gone ↦ rw (has_key, gone) (c, record { txs = λ h e l. l; marks = λ out q l. l }, gone)
    | inr (e, held) ↦
        let same = only e held in
        rw (has_key, held)
          (rw (← same) (
            erase-IsConsistent e _ c
                (ap (λ (t : Transaction). lookup (get_hash t) s.pool.map_tx) same ∙ held),
            record {
              txs = λ h f l. (lookup-erase_cases h (get_hash e.tx) s.pool.map_tx l).1;
              marks = λ out q l. (find_next-unlink_cases e.tx.vin out s.pool.map_next_tx l).1;
            },
            lookup-erase_self (get_hash e.tx) s.pool.map_tx,
          ))
  ]
