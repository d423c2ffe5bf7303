-- ===== src/BitcoinNet/Active.antt =====
-- ConnectBestBlock, from the choice of a chain to the tip (src/bitcoinnet/CChainManager.cpp).
use dsvalue.Prelude.{
  ℕ, suc, ◌≡◌, ◌⊎◌, refl, ap, ◌∙◌, Bool, true, false, ◌&&◌, Option, some, ok, length, arith,
}
use dsvalue.Index.{IndexChain}
use dsvalue.Index.Ancestors.{IsChainOf}
use dsvalue.Index.Tip.{IsActive}
use dsvalue.BitcoinNet.{
  ChainManager, last_valid, find_most_work_chain, switch_chain, connect_best_block,
}
use dsvalue.BitcoinNet.Parts.{IsStarted, tip_of, with_active, disconnect_tips-IsPart}
use dsvalue.BitcoinNet.Best.{connect_tips-IsChainOf}
use dsvalue.BitcoinNet.Choice.{IsOrdered, NoneBehind, find_most_work_chain-IsChosen}

module _ (s : ChainManager) (start_block btc_start_height : ℕ) (write_index write_best : ℕ → Bool)
    (w : IsStarted s.entry btc_start_height start_block) (old : Option ℕ)
    (active : IsActive s.entry s.chain_active old)
    (written : (p : ℕ) → (write_index p && write_best p) ≡ true) where
  -- The two loops, once a chain is chosen.
  reorganised :
      (chain : IndexChain) (most : ℕ)
      → IsChainOf s.entry chain most
      → find_most_work_chain s ≡ ok (record s { chain_most_work = chain })
      → (s' : ChainManager) × (connect_best_block start_block btc_start_height write_index
            write_best s
          ≡ ok (true, s'))
        × IsChainOf s.entry s'.chain_active most
  unfolding connect_best_block switch_chain
  reorganised chain most best found =
      let s1 = record s { chain_most_work = chain } in
      let last = tip_of s.entry chain most best in
      let (chain', fork, left, e, a, part) =
        disconnect_tips-IsPart s1 start_block btc_start_height most w best
          (suc (length s.chain_active)) s.chain_active s.f_fork old (omega arith) active in
      let (chain'', e', whole) =
        connect_tips-IsChainOf s1 start_block btc_start_height most w best btc_start_height refl
          write_index write_best written (suc (length chain)) chain' fork left
          (omega (arith, best.size)) a part in
      (
        with_active s1 chain'' fork,
        rw found (
            ap (switch_chain start_block btc_start_height write_index write_best s1) last
            ∙ rw e e'),
        whole,
      )

  -- With one first block at the height that the manager starts from, where no block has failed, the
  -- writes to the database succeed and there is a candidate, ConnectBestBlock returns true, from the
  -- active chain and the chain with the most work of any block, or none. The active chain is then that of
  -- the last candidate or of the block that had the most work before, and no candidate comes behind that
  -- block in the order of the comparator.
  pub connect_best_block-IsChainOf :
      (best : Option ℕ) (n : ℕ)
      → ((p : ℕ) → (s.entry p).f_failed ≡ false)
      → IsActive s.entry s.chain_most_work best
      → IsOrdered s.entry s.valid
      → last_valid s.valid ≡ some n
      → (s' : ChainManager) × (most : ℕ) × (connect_best_block start_block btc_start_height
            write_index write_best s
          ≡ ok (true, s'))
        × IsChainOf s.entry s'.chain_active most
        × NoneBehind s.entry most s.valid
        × ((most ≡ n) ⊎ (best ≡ some most))
  connect_best_block-IsChainOf best n sound a o e =
      let (s', found, c) =
        find_most_work_chain-IsChosen s btc_start_height w.index sound best n a o e in
      let (s'', done, whole) =
        reorganised c.chain c.most c.is_chain (found ∙ ap (λ (x : ChainManager). ok x) c.state) in
      (s'', c.most, done, whole, c.last, c.origin)
