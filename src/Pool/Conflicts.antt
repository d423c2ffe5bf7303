-- ===== src/Pool/Conflicts.antt =====
-- Conflicts with a transaction: CTxMemPool::removeConflicts (src/txmempool.cpp).
use dsvalue.Prelude.{
  ℕ, zero, suc, ◌<◌, ◌≡◌, refl, ap, ◌∙◌, sym, Bool, true, false, ◌&&◌, List, [], ◌∷◌, none, some,
  ok, ◌==◌, get_elem?, arith, Bool-cases, Option-cases, inl, inr, list_eq, list_eq→≡,
}
use dsvalue.Prelude.Int.{ℤ, pos, negsuc}
use dsvalue.Prelude.Map.{lookup}
use dsvalue.Core.{OutPoint, TxIn, TxOut, Transaction, same_out_point}
use dsvalue.Pool.{
  InPoint, Entry, find_next, TxMemPool, Removal, deref, remove_conflict, conflicts_from,
  remove_conflicts, same_in, same_out, same_value, same_list, same_transaction,
}
use dsvalue.Pool.Next.{same_out_point→≡}
use dsvalue.Pool.Invariant.{IsConsistent, Within}
use dsvalue.Pool.Remove.{
  IsRanked, Within-IsRanked, Within-trans, Within-refl, holds_only, mark_gone, remove-IsRemoved,
  some_inj, some-none,
}

pub same_list→≡ {ℓ} :
    {A : Type ℓ} (same : A → A → Bool) (xs ys : List A)
    → ((x y : A) → same x y ≡ true → x ≡ y)
    → same_list same xs ys ≡ true
    → xs ≡ ys
same_list→≡ same [] [] h e = refl
same_list→≡ same [] (y ∷ ys) h e = cc
same_list→≡ same (x ∷ xs) [] h e = cc
same_list→≡ same (x ∷ xs) (y ∷ ys) h e = elim (Bool-cases (same x y)) [
  | inl p ↦ let rest = same_list→≡ same xs ys h (rw p at e) in let first = h x y p in cc
  | inr p ↦ let t = rw p at e in cc
]

pub same_value→≡ : (a b : ℤ) → same_value a b ≡ true → a ≡ b
same_value→≡ (pos a) (pos b) h = ground arith
same_value→≡ (negsuc a) (negsuc b) h = ground arith
same_value→≡ (pos a) (negsuc b) h = cc
same_value→≡ (negsuc a) (pos b) h = cc

and_parts : (a b : Bool) → (a && b) ≡ true → (a ≡ true) × (b ≡ true)
and_parts true b h = (refl, h)
and_parts false b h = cc

same_in→≡ : (a b : TxIn) → same_in a b ≡ true → a ≡ b
same_in→≡ a b h =
    let (r, n) =
      and_parts (same_out_point a.prevout b.prevout && list_eq a.script_sig b.script_sig)
        (a.n_sequence == b.n_sequence) h in
    let (p, s) =
      and_parts (same_out_point a.prevout b.prevout) (list_eq a.script_sig b.script_sig) r in
    let prevout = same_out_point→≡ a.prevout b.prevout p in
    let script = list_eq→≡ a.script_sig b.script_sig s in ground arith

pub same_out→≡ : (a b : TxOut) → same_out a b ≡ true → a ≡ b
same_out→≡ a b h =
    let (v, s) = and_parts (same_value a.n_value b.n_value) _ h in
    let value = same_value→≡ a.n_value b.n_value v in
    let script = list_eq→≡ a.script_pub_key b.script_pub_key s in ground arith

-- operator== says whether two transactions are equal.
pub same_transaction→≡ : (a b : Transaction) → same_transaction a b ≡ true → a ≡ b
unfolding same_transaction
same_transaction→≡ a b h =
    let version = a.n_version == b.n_version in
    let vin = same_list same_in a.vin b.vin in
    let vout = same_list same_out a.vout b.vout in
    let (r, l) = and_parts (version && vin && vout) (a.n_lock_time == b.n_lock_time) h in
    let (r', o) = and_parts (version && vin) vout r in
    let (v, i) = and_parts version vin r' in
    let ins = same_list→≡ same_in a.vin b.vin same_in→≡ i in
    let outs = same_list→≡ same_out a.vout b.vout same_out→≡ o in ground arith

-- If the pool spends the output at all, it is by this transaction.
abbrev pub OnlyBy : TxMemPool → Transaction → OutPoint → Type 0
OnlyBy pool tx out =
    (q : InPoint)
    → find_next out pool.map_next_tx ≡ some q
    → (e : Entry) × (lookup q.ptx pool.map_tx ≡ some e) × (e.tx ≡ tx)

module _ (get_hash : Transaction → ℕ) (rank : ℕ → ℕ) where
  -- The fuel is above the rank of every transaction of the pool.
  abbrev pub IsBelow : ℕ → TxMemPool → Type 0
  IsBelow fuel pool = (h : ℕ) (e : Entry) → lookup h pool.map_tx ≡ some e → rank h < fuel

  Within-OnlyBy :
      {after before : TxMemPool} (tx : Transaction) (out : OutPoint)
      → IsConsistent get_hash after
      → Within after before
      → OnlyBy before tx out
      → OnlyBy after tx out
  Within-OnlyBy {after} tx out c w only q mark =
      let (e, held, same) = only q (w.marks out q mark) in
      let (f, txin, found, at, prev) = c.owned out q mark in
      let equal : f ≡ e = some_inj (sym (w.txs q.ptx f found) ∙ held) in
      (f, found, ap (λ (x : Entry). x.tx) equal ∙ same)

  conflict_removed :
      (fuel : ℕ) (tx : Transaction) (txin : TxIn) (s : Removal) (q : InPoint)
      → IsConsistent get_hash s.pool
      → IsRanked get_hash rank s.pool
      → IsBelow fuel s.pool
      → find_next txin.prevout s.pool.map_next_tx ≡ some q
      → (t : Removal) × (remove_conflict get_hash fuel tx txin s ≡ ok t)
        × IsConsistent get_hash t.pool
        × Within t.pool s.pool
        × OnlyBy t.pool tx txin.prevout
  unfolding remove_conflict deref
  conflict_removed fuel tx txin s q c r b mark =
      let (e, found, held, at, prev) = c.owned txin.prevout q mark in
      let hash_eq = c.hashed q.ptx e held in
      elim (Bool-cases (same_transaction e.tx tx)) [
        | inl same ↦ (
          s,
          rw (remove_conflict, mark, deref, held, same) refl,
          c,
          Within-refl get_hash rank s.pool,
          λ p l. (
            e,
            ap (λ (x : InPoint). lookup x.ptx s.pool.map_tx) (some_inj (sym l ∙ mark)) ∙ held,
            same_transaction→≡ e.tx tx same,
          ),
        )
        | inr other ↦
            let (t, removed, done) =
              remove-IsRemoved get_hash rank fuel e.tx s c r
                (holds_only get_hash rank s.pool e q.ptx hash_eq held)
                (omega (arith, ap rank hash_eq, b q.ptx e held)) in
            let gone : lookup q.ptx t.pool.map_tx ≡ none =
              ap (λ (h : ℕ). lookup h t.pool.map_tx) (sym hash_eq) ∙ done.gone in
            let free =
              mark_gone get_hash rank s.pool t.pool txin.prevout q done.consistent done.within mark
                gone in
            (
              t,
              rw (remove_conflict, mark, deref, held, other) removed,
              done.consistent,
              done.within,
              λ p l. absurd (some-none (sym l ∙ free)),
            )
      ]

  remove_conflict-OnlyBy :
      (fuel : ℕ) (tx : Transaction) (txin : TxIn) (s : Removal)
      → IsConsistent get_hash s.pool
      → IsRanked get_hash rank s.pool
      → IsBelow fuel s.pool
      → (t : Removal) × (remove_conflict get_hash fuel tx txin s ≡ ok t)
        × IsConsistent get_hash t.pool
        × Within t.pool s.pool
        × OnlyBy t.pool tx txin.prevout
  unfolding remove_conflict
  remove_conflict-OnlyBy fuel tx txin s c r b =
      elim (Option-cases (find_next txin.prevout s.pool.map_next_tx)) [
        | inr (q, mark) ↦ conflict_removed fuel tx txin s q c r b mark
        | inl free ↦ (
          s,
          rw (remove_conflict, free) refl,
          c,
          Within-refl get_hash rank s.pool,
          λ q l. absurd (some-none (sym l ∙ free)),
        )
      ]

  conflicts_from-OnlyBy :
      (fuel : ℕ) (tx : Transaction) (vin : List TxIn) (s : Removal)
      → IsConsistent get_hash s.pool
      → IsRanked get_hash rank s.pool
      → IsBelow fuel s.pool
      → (t : Removal) × (conflicts_from get_hash fuel tx vin s ≡ ok t)
        × IsConsistent get_hash t.pool
        × Within t.pool s.pool
        × ((i : ℕ) (txin : TxIn) → get_elem? vin i ≡ some txin → OnlyBy t.pool tx txin.prevout)
  unfolding conflicts_from
  conflicts_from-OnlyBy fuel tx [] s c r b =
      (s, refl, c, Within-refl get_hash rank s.pool, λ i txin e. absurd (none_some e))
    where
      none_some : {x : TxIn} → none ≡ some x → ⊥
      none_some e = cc
  conflicts_from-OnlyBy fuel tx (txin ∷ vin) s c r b =
      let (t, first, c', w, only) = remove_conflict-OnlyBy fuel tx txin s c r b in
      let (u, others, c'', w', later) =
        conflicts_from-OnlyBy fuel tx vin t c' (Within-IsRanked get_hash rank w r)
          (λ h e l. b h e (w.txs h e l)) in
      (
        u,
        rw first others,
        c'',
        Within-trans get_hash rank w' w,
        each tx txin vin u (Within-OnlyBy tx txin.prevout c'' w' only) later,
      )
    where
      each :
          (tx : Transaction) (txin : TxIn) (vin : List TxIn) (u : Removal)
          → OnlyBy u.pool tx txin.prevout
          → ((i : ℕ) (x : TxIn) → get_elem? vin i ≡ some x → OnlyBy u.pool tx x.prevout)
          → (i : ℕ) (x : TxIn) → get_elem? (txin ∷ vin) i ≡ some x
          → OnlyBy u.pool tx x.prevout
      each tx txin vin u only later zero x e =
          let same : txin ≡ x = some_inj e in
          λ q l. only q (ap (λ (y : TxIn). find_next y.prevout u.pool.map_next_tx) same ∙ l)
      each tx txin vin u only later (suc i) x e = later i x e

  -- With a fuel above the ranks of the pool, removeConflicts returns: an output that the transaction
  -- spends is then spent in the pool by the transaction itself or not at all, nothing is added, and the
  -- two maps agree as before.
  pub remove_conflicts-OnlyBy :
      (fuel : ℕ) (tx : Transaction) (s : Removal)
      → IsConsistent get_hash s.pool
      → IsRanked get_hash rank s.pool
      → IsBelow fuel s.pool
      → (t : Removal) × (remove_conflicts get_hash fuel tx s ≡ ok t)
        × IsConsistent get_hash t.pool
        × Within t.pool s.pool
        × ((i : ℕ) (txin : TxIn) → get_elem? tx.vin i ≡ some txin → OnlyBy t.pool tx txin.prevout)
  unfolding remove_conflicts
  remove_conflicts-OnlyBy fuel tx s c r b = conflicts_from-OnlyBy fuel tx tx.vin s c r b
