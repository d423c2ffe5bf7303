-- ===== src/BitcoinNet.antt =====
-- The choice of the best chain of Bitcoin headers: ConnectBestBlock, FindMostWorkChain, DisconnectTip
-- and ConnectTip of CChainManager (src/bitcoinnet/CChainManager.cpp), with the order of the candidates (CChainManager.h).
-- ConnectTip fails only where the
-- database does, so the branch of ConnectBestBlock for an invalid block is never taken.
pub mod Parts
pub mod Best
pub mod Order
pub mod Choice
pub mod Active
mod Tests
use dsvalue.Prelude.{
  ℕ, zero, suc, ◌+◌, Bool, true, false, not, ◌&&◌, ◌||◌, List, [], ◌∷◌, Option, none, some, Result,
  ok, err, Error, ◌>>=◌, if◌then◌else◌, ltb, ◌==◌, length,
}
use dsvalue.Index.{IndexEntry, IndexChain, block_at, tip, points_to, chain_contains, set_tip}

-- CBlockIndexWorkComparator of the namespace Bitcoin, which does not look at the key of a lottery: whether
-- the entry a comes before the entry b.
unfoldable pub header_less : (ℕ → IndexEntry) → ℕ → ℕ → Bool
header_less entry pa pb =
    if ltb (entry pb).n_chain_work (entry pa).n_chain_work
    then false
    else if ltb (entry pa).n_chain_work (entry pb).n_chain_work
    then true
    else if ltb (entry pa).n_sequence_id (entry pb).n_sequence_id
    then false
    else if ltb (entry pb).n_sequence_id (entry pa).n_sequence_id
    then true
    else if ltb pa pb
    then false
    else ltb pb pa

-- CChainManager, as far as the best chain goes: `entry` are the blocks of mapBitcoinBlockIndex, `valid`
-- is setBitcoinBlockIndexValid, in its order.
pub record ChainManager : Type 0 where
  pub entry : ℕ → IndexEntry
  pub chain_active : IndexChain
  pub chain_most_work : IndexChain
  pub valid : List ℕ
  pub best_invalid : Option ℕ
  pub f_fork : Bool

-- setBitcoinBlockIndexValid.erase(pindex)
abbrev pub erase_valid : List ℕ → ℕ → List ℕ
erase_valid [] pindex = []
erase_valid (p ∷ valid) pindex =
    let rest = erase_valid valid pindex in if p == pindex then valid else p ∷ rest

-- *setBitcoinBlockIndexValid.rbegin()
abbrev pub last_valid : List ℕ → Option ℕ
last_valid [] = none
last_valid (p ∷ []) = some p
last_valid (p ∷ q ∷ valid) = last_valid (q ∷ valid)

-- pindexBestInvalidBitcoin, where a new one has more work.
abbrev pub more_invalid : (ℕ → IndexEntry) → Option ℕ → ℕ → Option ℕ
more_invalid entry none pindex = some pindex
more_invalid entry (some p) pindex =
    if ltb (entry p).n_chain_work (entry pindex).n_chain_work then some pindex else some p

-- pindex->nStatus |= BLOCK_FAILED_CHILD
abbrev pub fail_child : (ℕ → IndexEntry) → ℕ → ℕ → IndexEntry
fail_child entry pindex p = if pindex == p then record (entry p) { f_failed = true } else entry p

-- The first loop of FindMostWorkChain, with a fuel for its rounds.
unfoldable pub drop_failed : ℕ → ChainManager → Result ChainManager
drop_failed zero s = err Error.fuel
drop_failed (suc fuel) s = elim (tip s.chain_most_work) [
  | none ↦ ok s
  | some pindex ↦
      if (s.entry pindex).f_failed
      then (set_tip s.entry s.chain_most_work (s.entry pindex).pprev >>= λ r.
          drop_failed fuel (record s { chain_most_work = r.0; valid = erase_valid s.valid pindex }))
      else ok s
]

-- The failed block between a candidate and the active chain, if there is one.
unfoldable pub failed_ancestor : ℕ → ChainManager → Option ℕ → Result (Option ℕ)
failed_ancestor fuel s none = ok none
failed_ancestor zero s (some pindex) = err Error.fuel
failed_ancestor (suc fuel) s (some pindex) =
    let rest = failed_ancestor fuel s (s.entry pindex).pprev in
    if chain_contains s.entry s.chain_active pindex
    then ok none
    else if (s.entry pindex).f_failed
    then ok (some pindex)
    else rest

-- The blocks behind a failed one fail and are no candidates any more.
unfoldable pub fail_children : ℕ → ChainManager → Option ℕ → ℕ → Result ChainManager
fail_children fuel s none pindex_test = err Error.undefined
fail_children zero s (some pindex) pindex_test = err Error.fuel
fail_children (suc fuel) s (some pindex) pindex_test =
    let rest =
      fail_children fuel
        (record s { entry = fail_child s.entry pindex; valid = erase_valid s.valid pindex })
        (s.entry pindex).pprev pindex_test in
    if pindex == pindex_test then ok s else rest

-- The second loop of FindMostWorkChain: the candidate.
unfoldable pub find_candidate : ℕ → ChainManager → Result (ChainManager × Option ℕ)
unfolding failed_ancestor fail_children
find_candidate zero s = err Error.fuel
find_candidate (suc fuel) s = elim (last_valid s.valid) [
  | none ↦ ok (s, none)
  | some pindex_new ↦
      let n = suc (s.entry pindex_new).n_height in
      failed_ancestor n s (some pindex_new) >>= λ failed. elim failed [
        | none ↦ ok (s, some pindex_new)
        | some pindex_test ↦
            let invalid = more_invalid s.entry s.best_invalid pindex_new in
            fail_children n (record s { best_invalid = invalid }) (some pindex_new) pindex_test
            >>= λ s'. find_candidate fuel s'
      ]
]

-- Whether the candidate is no improvement.
abbrev pub no_better : ChainManager → ℕ → Bool
no_better s pindex_new = elim (tip s.chain_most_work) [
  | none ↦ false
  | some pindex ↦ not (header_less s.entry pindex pindex_new)
]

-- CChainManager::FindMostWorkChain
unfoldable pub find_most_work_chain : ChainManager → Result ChainManager
unfolding drop_failed find_candidate
find_most_work_chain s = drop_failed (suc (length s.chain_most_work)) s >>= λ s1.
    find_candidate (suc (length s1.valid)) s1 >>= λ r. elim r.1 [
      | none ↦ ok r.0
      | some pindex_new ↦
          if no_better r.0 pindex_new
          then ok r.0
          else (set_tip r.0.entry r.0.chain_most_work (some pindex_new) >>= λ t.
              ok (record r.0 { chain_most_work = t.0 }))
    ]

module _ (start_block : ℕ) where
  -- CChainManager::DisconnectTip
  unfoldable pub disconnect_tip : ChainManager → ℕ → Result ChainManager
  disconnect_tip s pindex = elim (s.entry pindex).pprev [
    | none ↦ ok s
    | some prev ↦
        if pindex == start_block
        then ok s
        else (set_tip s.entry s.chain_active (some prev) >>= λ r.
            ok (record s { chain_active = r.0; f_fork = true }))
  ]

  -- The loop of ConnectBestBlock that disconnects, with a fuel for its rounds.
  unfoldable pub disconnect_tips : ℕ → ChainManager → Result ChainManager
  unfolding disconnect_tip
  disconnect_tips zero s = err Error.fuel
  disconnect_tips (suc fuel) s = elim (tip s.chain_active) [
    | none ↦ ok s
    | some pindex ↦
        if chain_contains s.entry s.chain_most_work pindex
        then ok s
        else (disconnect_tip s pindex >>= λ s'. disconnect_tips fuel s')
  ]

  module _ (btc_start_height : ℕ) (write_index write_best : ℕ → Bool) where
    -- CChainManager::ConnectTip: whether the database was written.
    unfoldable pub connect_tip : ChainManager → Option ℕ → Result (Bool × ChainManager)
    connect_tip s none = err Error.undefined
    connect_tip s (some pindex_new) =
        let follows : Bool = elim (tip s.chain_active) [
          | none ↦ elim (s.entry pindex_new).pprev [ none ↦ true | some prev ↦ false ]
          | some pindex ↦ points_to (s.entry pindex_new).pprev pindex
        ] in
        if not (pindex_new == start_block || follows)
        then err Error.assertion
        else (set_tip s.entry s.chain_active (some pindex_new) >>= λ r.
            ok (write_index pindex_new && write_best pindex_new, record s { chain_active = r.0 }))

    -- The loop of ConnectBestBlock that connects, up to the tip of the chain with the most work.
    unfoldable pub connect_tips : ℕ → ChainManager → ℕ → Result (Bool × ChainManager)
    unfolding connect_tip
    connect_tips zero s most = err Error.fuel
    connect_tips (suc fuel) s most =
        let n_height : ℕ = elim (tip s.chain_active) [
          | none ↦ length s.chain_active + btc_start_height
          | some pindex ↦ length s.chain_active
        ] in
        if chain_contains s.entry s.chain_active most
        then ok (true, s)
        else (connect_tip s (block_at s.chain_most_work n_height) >>= λ r.
            if r.0 then connect_tips fuel r.1 most else ok (false, r.1))

    -- The round of ConnectBestBlock, for the tip that FindMostWorkChain has chosen.
    unfoldable pub switch_chain : ChainManager → Option ℕ → Result (Bool × ChainManager)
    unfolding disconnect_tips connect_tips
    switch_chain s none = ok (true, s)
    switch_chain s (some most) = disconnect_tips (suc (length s.chain_active)) s >>= λ s2.
        connect_tips (suc (length s.chain_most_work)) s2 most

    -- CChainManager::ConnectBestBlock
    unfoldable pub connect_best_block : ChainManager → Result (Bool × ChainManager)
    unfolding find_most_work_chain switch_chain
    connect_best_block s = find_most_work_chain s >>= λ s1. switch_chain s1 (tip s1.chain_most_work)
