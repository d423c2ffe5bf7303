-- ===== src/Pool/Invariant.antt =====
-- The agreement of mapTx with mapNextTx, which CTxMemPool::check asserts, and that adding a transaction
-- keeps it (src/txmempool.cpp).
use dsvalue.Prelude.{
  ℕ, ◌+◌, ◌≡◌, refl, ap, ◌∙◌, sym, true, false, List, Option, none, some, get_elem?, arith,
  Bool-cases, inl, inr,
}
use dsvalue.Prelude.Map.{lookup, insert, lookup-insert, lookup-insert_cases, lookup-insert_kept}
use dsvalue.Core.{OutPoint, TxIn, Transaction}
use dsvalue.Pool.{InPoint, Entry, NextTx, find_next, TxMemPool, link_inputs, add_unchecked}
use dsvalue.Pool.Next.{spends, spends-input, Distinct, find_next-link_inputs, link_inputs-input}

at_point :
    (h k i j : ℕ)
    → h ≡ k
    → i ≡ j
    → ◌≡◌ {A = Option InPoint} (some (record { ptx = h; n = i })) (some (record { ptx = k; n = j }))
at_point h k i j e f = rw (e, f) refl

pub some_inj {ℓ} : {A : Type ℓ} {x y : A} → some x ≡ some y → x ≡ y
some_inj h = cc

-- What is marked in the pool is not spent by inputs that spend only what is not.
not_spent :
    (vin : List TxIn) (out : OutPoint) (m : NextTx) {q : InPoint}
    → ((o : OutPoint) → spends vin o ≡ true → find_next o m ≡ none)
    → find_next out m ≡ some q
    → spends vin out ≡ false
not_spent vin out m fresh h = elim (Bool-cases (spends vin out)) [
  | inl s ↦ let t = fresh out s in cc
  | inr s ↦ s
]

-- None of the outputs that a transaction spends is spent by the pool, or twice by itself.
pub record SpendsFresh (pool : TxMemPool) (tx : Transaction) : Type 0 where
  pub distinct : Distinct tx.vin
  pub unspent : (out : OutPoint) → spends tx.vin out ≡ true → find_next out pool.map_next_tx ≡ none

-- A pool that has only what another one has.
pub record Within (after before : TxMemPool) : Type 0 where
  pub txs : (h : ℕ) (e : Entry) → lookup h after.map_tx ≡ some e → lookup h before.map_tx ≡ some e
  pub marks :
      (out : OutPoint) (q : InPoint)
      → find_next out after.map_next_tx ≡ some q
      → find_next out before.map_next_tx ≡ some q

module _ (get_hash : Transaction → ℕ) where
  -- What check asserts: every input of a transaction in the pool is marked with it, and every mark is
  -- that of an input of a transaction in the pool; and a transaction stands under its hash.
  pub record IsConsistent (pool : TxMemPool) : Type 0 where
    pub hashed : (h : ℕ) (e : Entry) → lookup h pool.map_tx ≡ some e → get_hash e.tx ≡ h
    pub marked :
        (h i : ℕ) (e : Entry) (txin : TxIn)
        → lookup h pool.map_tx ≡ some e
        → get_elem? e.tx.vin i ≡ some txin
        → find_next txin.prevout pool.map_next_tx ≡ some (record { ptx = h; n = i })
    pub owned :
        (out : OutPoint) (q : InPoint)
        → find_next out pool.map_next_tx ≡ some q
        → (e : Entry) × (txin : TxIn) × (lookup q.ptx pool.map_tx ≡ some e)
          × (get_elem? e.tx.vin q.n ≡ some txin)
          × (txin.prevout ≡ out)

  add_marked :
      {pool : TxMemPool} (entry : Entry)
      → IsConsistent pool
      → SpendsFresh pool entry.tx
      → (h i : ℕ) (e : Entry) (txin : TxIn)
      → lookup h (insert (get_hash entry.tx) entry pool.map_tx) ≡ some e
      → get_elem? e.tx.vin i ≡ some txin
      → find_next txin.prevout (link_inputs (get_hash entry.tx) 0 entry.tx.vin pool.map_next_tx)
        ≡ some (record { ptx = h; n = i })
  add_marked {pool} entry c f h i e txin l g =
      elim (lookup-insert_cases h (get_hash entry.tx) entry pool.map_tx l) [
        | inl (same, own) ↦
            let input : get_elem? entry.tx.vin i ≡ some txin = rw own g in
            link_inputs-input (get_hash entry.tx) 0 i entry.tx.vin pool.map_next_tx f.distinct input
            ∙ at_point (get_hash entry.tx) h (0 + i) i same (omega arith)
        | inr (other, old) ↦
            let mark = c.marked h i e txin old g in
            let free = not_spent entry.tx.vin txin.prevout pool.map_next_tx f.unspent mark in
            find_next-link_inputs (get_hash entry.tx) 0 entry.tx.vin txin.prevout pool.map_next_tx
              free
            ∙ mark
      ]

  add_owned :
      {pool : TxMemPool} (entry : Entry)
      → IsConsistent pool
      → SpendsFresh pool entry.tx
      → lookup (get_hash entry.tx) pool.map_tx ≡ none
      → (out : OutPoint) (q : InPoint)
      → find_next out (link_inputs (get_hash entry.tx) 0 entry.tx.vin pool.map_next_tx) ≡ some q
      → (e : Entry) × (txin : TxIn) × (lookup q.ptx (insert (get_hash entry.tx) entry pool.map_tx)
          ≡ some e)
        × (get_elem? e.tx.vin q.n ≡ some txin)
        × (txin.prevout ≡ out)
  add_owned {pool} entry c f new out q l = elim (Bool-cases (spends entry.tx.vin out)) [
    | inl s ↦
        let (k, txin, at, same) = spends-input entry.tx.vin out s in
        let linked =
          link_inputs-input (get_hash entry.tx) 0 k entry.tx.vin pool.map_next_tx f.distinct at in
        let number : q ≡ record { ptx = get_hash entry.tx; n = k } = some_inj (
          sym l
          ∙ ap
              (λ (o : OutPoint).
                find_next o (link_inputs (get_hash entry.tx) 0 entry.tx.vin pool.map_next_tx))
              (sym same)
          ∙ linked
          ∙ at_point (get_hash entry.tx) (get_hash entry.tx) (0 + k) k refl (omega arith)) in
        (
          entry,
          txin,
          rw (number, lookup-insert (get_hash entry.tx) (get_hash entry.tx) entry pool.map_tx)
              (ground arith),
          rw number at,
          same,
        )
    | inr s ↦
        let old =
          sym (find_next-link_inputs (get_hash entry.tx) 0 entry.tx.vin out pool.map_next_tx s)
          ∙ l in
        let (e, txin, held, at, same) = c.owned out q old in
        (e, txin, lookup-insert_kept q.ptx (get_hash entry.tx) entry pool.map_tx new held, at, same)
  ]

  add_hashed :
      {pool : TxMemPool} (entry : Entry)
      → IsConsistent pool
      → (h : ℕ) (e : Entry) → lookup h (insert (get_hash entry.tx) entry pool.map_tx) ≡ some e
      → get_hash e.tx ≡ h
  add_hashed {pool} entry c h e l =
      elim (lookup-insert_cases h (get_hash entry.tx) entry pool.map_tx l) [
        | inl (same, own) ↦ rw (← own) same
        | inr (other, old) ↦ c.hashed h e old
      ]

  -- addUnchecked keeps the two maps in agreement where the transaction is added under its hash, is not
  -- in the pool, and spends nothing that the pool spends, and nothing twice.
  pub add_unchecked-IsConsistent :
      {pool : TxMemPool} (entry : Entry)
      → IsConsistent pool
      → lookup (get_hash entry.tx) pool.map_tx ≡ none
      → SpendsFresh pool entry.tx
      → IsConsistent (add_unchecked (get_hash entry.tx) entry pool)
  unfolding add_unchecked
  add_unchecked-IsConsistent entry c new f = record {
    hashed = add_hashed entry c;
    marked = add_marked entry c f;
    owned = add_owned entry c f new;
  }

  -- The pool has no other transaction under the hash of this one.
  abbrev pub HoldsNoOther : TxMemPool → Transaction → Type 0
  HoldsNoOther pool tx = (e : Entry) → lookup (get_hash tx) pool.map_tx ≡ some e → e.tx ≡ tx
