-- ===== src/Pool/Remove.antt =====
-- The recursive removal from the pool: CTxMemPool::remove (src/txmempool.cpp).
use dsvalue.Prelude.{
  ℕ, zero, suc, ◌+◌, ◌<◌, ◌≤◌, ◌≡◌, refl, ap, ◌∙◌, sym, true, List, [], ◌∷◌, none, some, Result, ok,
  length, get_elem?, arith, Option-cases, inl, inr,
}
use dsvalue.Prelude.Map.{lookup}
use dsvalue.Core.{OutPoint, TxIn, TxOut, Transaction}
use dsvalue.Pool.{
  InPoint, Entry, find_next, TxMemPool, Removal, deref, take_out, remove_spender, remove_spenders,
  remove,
}
use dsvalue.Pool.Invariant.{IsConsistent, HoldsNoOther, Within}
use dsvalue.Pool.Erasing.{take_out-IsConsistent}

pub some_inj {ℓ} : {A : Type ℓ} {x y : A} → some x ≡ some y → x ≡ y
some_inj h = cc

pub some-none {ℓ} : {A : Type ℓ} {x : A} → some x ≡ none → ⊥
some-none h = cc

module _ (get_hash : Transaction → ℕ) (rank : ℕ → ℕ) where
  -- The transactions of the pool follow one another without a cycle: one that spends an output of
  -- another one has a lower rank.
  pub record IsRanked (pool : TxMemPool) : Type 0 where
    pub lower :
        (h i : ℕ) (e : Entry) (txin : TxIn)
        → lookup h pool.map_tx ≡ some e
        → get_elem? e.tx.vin i ≡ some txin
        → rank h < rank txin.prevout.hash

  pub Within-IsRanked : {p q : TxMemPool} → Within p q → IsRanked q → IsRanked p
  Within-IsRanked w r = record { lower = λ h i e txin l g. r.lower h i e txin (w.txs h e l) g }

  pub Within-trans : {p q r : TxMemPool} → Within p q → Within q r → Within p r
  Within-trans v w = record {
    txs = λ h e l. w.txs h e (v.txs h e l);
    marks = λ out q l. w.marks out q (v.marks out q l);
  }

  pub Within-refl : (p : TxMemPool) → Within p p
  Within-refl p = record { txs = λ h e l. l; marks = λ out q l. l }

  pub holds_only :
      (pool : TxMemPool) (e : Entry) (h : ℕ)
      → get_hash e.tx ≡ h
      → lookup h pool.map_tx ≡ some e
      → HoldsNoOther get_hash pool e.tx
  holds_only pool e h same held f l =
      let again : lookup (get_hash e.tx) pool.map_tx ≡ some e =
        ap (λ (k : ℕ). lookup k pool.map_tx) same ∙ held in
      let equal : f ≡ e = some_inj (sym l ∙ again) in ap (λ (x : Entry). x.tx) equal

  -- The mark of a transaction that is gone is gone.
  pub mark_gone :
      (before after : TxMemPool) (out : OutPoint) (q : InPoint)
      → IsConsistent get_hash after
      → Within after before
      → find_next out before.map_next_tx ≡ some q
      → lookup q.ptx after.map_tx ≡ none
      → find_next out after.map_next_tx ≡ none
  mark_gone before after out q c w mark gone =
      elim (Option-cases (find_next out after.map_next_tx)) [
        | inl free ↦ free
        | inr (q', mark') ↦
            let same : q' ≡ q = some_inj (sym (w.marks out q' mark') ∙ mark) in
            let (e, txin, held, at, prev) = c.owned out q' mark' in
            let held' : lookup q.ptx after.map_tx ≡ some e =
              ap (λ (p : InPoint). lookup p.ptx after.map_tx) (sym same) ∙ held in
            absurd (some-none (sym held' ∙ gone))
      ]

  -- An output that is unspent stays so where nothing is added.
  stays_unspent :
      {after before : TxMemPool} (out : OutPoint)
      → Within after before
      → find_next out before.map_next_tx ≡ none
      → find_next out after.map_next_tx ≡ none
  stays_unspent {after} out w free = elim (Option-cases (find_next out after.map_next_tx)) [
    | inl still ↦ still
    | inr (q, mark) ↦ absurd (some-none (sym (w.marks out q mark) ∙ free))
  ]

  each :
      (i : ℕ) (vout : List TxOut) (t u : Removal) (hash : ℕ)
      → Within u.pool t.pool
      → find_next (record { hash = hash; n = i }) t.pool.map_next_tx ≡ none
      → ((k : ℕ)
          → k < length vout
          → find_next (record { hash = hash; n = suc i + k }) u.pool.map_next_tx ≡ none)
      → (k : ℕ) → k < suc (length vout)
      → find_next (record { hash = hash; n = i + k }) u.pool.map_next_tx ≡ none
  each i vout t u hash w free later zero l =
      let e : i + 0 ≡ i = omega arith in rw e (stays_unspent (record { hash = hash; n = i }) w free)
  each i vout t u hash w free later (suc k) l =
      let e : i + suc k ≡ suc i + k = omega arith in rw e (later k (omega arith))

  -- What the removal of a transaction leaves: the transaction is gone, and nothing in the pool spends
  -- an output of it.
  pub record IsRemoved (tx : Transaction) (before after : TxMemPool) : Type 0 where
    pub consistent : IsConsistent get_hash after
    pub within : Within after before
    pub gone : lookup (get_hash tx) after.map_tx ≡ none
    pub unspent :
        (i : ℕ)
        → i < length tx.vout
        → find_next (record { hash = get_hash tx; n = i }) after.map_next_tx ≡ none

  -- A call removes every transaction of a rank below the fuel.
  abbrev Removes : ℕ → (Transaction → Removal → Result Removal) → Type 0
  Removes fuel call =
      (tx : Transaction) (s : Removal)
      → IsConsistent get_hash s.pool
      → IsRanked s.pool
      → HoldsNoOther get_hash s.pool tx
      → rank (get_hash tx) < fuel
      → (t : Removal) × (call tx s ≡ ok t) × IsRemoved tx s.pool t.pool

  module _ (fuel : ℕ) (call : Transaction → Removal → Result Removal)
      (removes : Removes fuel call) where
    spender_removed :
        (out : OutPoint) (s : Removal) (q : InPoint)
        → IsConsistent get_hash s.pool
        → IsRanked s.pool
        → rank out.hash ≤ fuel
        → find_next out s.pool.map_next_tx ≡ some q
        → (t : Removal) × (remove_spender get_hash call out s ≡ ok t)
          × IsConsistent get_hash t.pool
          × Within t.pool s.pool
          × (find_next out t.pool.map_next_tx ≡ none)
    unfolding remove_spender deref
    spender_removed out s q c r k mark =
        let (e, txin, held, at, same) = c.owned out q mark in
        let hash_eq = c.hashed q.ptx e held in
        let lower = r.lower q.ptx q.n e txin held at in
        let below : rank (get_hash e.tx) < fuel =
          omega (arith, ap rank hash_eq, lower, ap (λ (o : OutPoint). rank o.hash) same) in
        let (t, called, done) = removes e.tx s c r (holds_only s.pool e q.ptx hash_eq held) below in
        let gone : lookup q.ptx t.pool.map_tx ≡ none =
          ap (λ (h : ℕ). lookup h t.pool.map_tx) (sym hash_eq) ∙ done.gone in
        (
          t,
          rw (remove_spender, mark, deref, held) called,
          done.consistent,
          done.within,
          mark_gone s.pool t.pool out q done.consistent done.within mark gone,
        )

    -- One output in the loop.
    remove_spender-unspent :
        (out : OutPoint) (s : Removal)
        → IsConsistent get_hash s.pool
        → IsRanked s.pool
        → rank out.hash ≤ fuel
        → (t : Removal) × (remove_spender get_hash call out s ≡ ok t)
          × IsConsistent get_hash t.pool
          × Within t.pool s.pool
          × (find_next out t.pool.map_next_tx ≡ none)
    unfolding remove_spender
    remove_spender-unspent out s c r k = elim (Option-cases (find_next out s.pool.map_next_tx)) [
      | inl free ↦ (s, rw (remove_spender, free) refl, c, Within-refl s.pool, free)
      | inr (q, mark) ↦ spender_removed out s q c r k mark
    ]

    -- The loop over the outputs.
    remove_spenders-unspent :
        (hash i : ℕ) (vout : List TxOut) (s : Removal)
        → IsConsistent get_hash s.pool
        → IsRanked s.pool
        → rank hash ≤ fuel
        → (t : Removal) × (remove_spenders get_hash call hash i vout s ≡ ok t)
          × IsConsistent get_hash t.pool
          × Within t.pool s.pool
          × ((k : ℕ)
              → k < length vout
              → find_next (record { hash = hash; n = i + k }) t.pool.map_next_tx ≡ none)
    unfolding remove_spenders
    remove_spenders-unspent hash i [] s c r k =
        (s, refl, c, Within-refl s.pool, λ j l. absurd (omega arith))
    remove_spenders-unspent hash i (txout ∷ vout) s c r k =
        let (t, called, c', w, free) =
          remove_spender-unspent (record { hash = hash; n = i }) s c r k in
        let (u, looped, c'', w', later) =
          remove_spenders-unspent hash (suc i) vout t c' (Within-IsRanked w r) k in
        (u, rw called looped, c'', Within-trans w' w, each i vout t u hash w' free later)

  pub remove-IsRemoved :
      (fuel : ℕ) (tx : Transaction) (s : Removal)
      → IsConsistent get_hash s.pool
      → IsRanked s.pool
      → HoldsNoOther get_hash s.pool tx
      → rank (get_hash tx) < fuel
      → (t : Removal) × (remove get_hash fuel true tx s ≡ ok t) × IsRemoved tx s.pool t.pool
  unfolding remove
  remove-IsRemoved zero tx s c r only l = absurd (omega arith)
  remove-IsRemoved (suc fuel) tx s c r only l =
      let (t, looped, c', w, free) =
        remove_spenders-unspent fuel (remove get_hash fuel true) (remove-IsRemoved fuel)
          (get_hash tx) 0 tx.vout s c r (omega arith) in
      let (consistent, within, gone) =
        take_out-IsConsistent get_hash tx t c' (λ e held. only e (w.txs (get_hash tx) e held)) in
      (
        take_out get_hash tx t,
        rw looped refl,
        record {
          consistent = consistent;
          within = Within-trans within w;
          gone = gone;
          unspent = λ i k.
              stays_unspent (record { hash = get_hash tx; n = i }) within
                (from_zero t (get_hash tx) tx.vout free i k);
        },
      )
    where
      from_zero :
          (t : Removal) (hash : ℕ) (vout : List TxOut)
          → ((k : ℕ)
              → k < length vout
              → find_next (record { hash = hash; n = 0 + k }) t.pool.map_next_tx ≡ none)
          → (i : ℕ) → i < length vout
          → find_next (record { hash = hash; n = i }) t.pool.map_next_tx ≡ none
      from_zero t hash vout free i k =
          let e : 0 + i ≡ i = omega arith in
          ap (λ (j : ℕ). find_next (record { hash = hash; n = j }) t.pool.map_next_tx) (sym e)
          ∙ free i k
