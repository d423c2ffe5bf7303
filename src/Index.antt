-- ===== src/Index.antt =====
-- The block index and the chains over it: CBlockIndex, CBlockIndexWorkComparator and CChain
-- (src/main.h, main.cpp). A pointer to a CBlockIndex is a number, its address, and `entry` is what it
-- points to. A height is not negative. A chain is its vector, where `none` is the null pointer.
pub mod Ancestors
pub mod Vector
pub mod Fill
pub mod Tip
pub mod Order
use dsvalue.Prelude.{
  ℕ, zero, suc, ◌-◌, Bool, true, false, not, ◌&&◌, List, [], ◌∷◌, Option, none, some, Result, ok,
  err, Error, if◌then◌else◌, ltb, ◌==◌, length, set,
}

-- CBlockIndex, as far as the chains and the comparator read it; f_failed is the test of nStatus by
-- BLOCK_FAILED_MASK.
pub record IndexEntry : Type 0 where
  pub n_height : ℕ
  pub pprev : Option ℕ
  pub n_chain_work : ℕ
  pub u_lotto_key : ℕ
  pub n_sequence_id : ℕ
  pub f_failed : Bool

-- CBlockIndexWorkComparator: whether the entry a comes before the entry b.
abbrev pub tie_break : ℕ → ℕ → Bool
tie_break pa pb = if ltb pa pb then false else ltb pb pa

unfoldable pub earlier_last : IndexEntry → IndexEntry → ℕ → ℕ → Bool
earlier_last a b pa pb =
    if ltb a.n_sequence_id b.n_sequence_id
    then false
    else if ltb b.n_sequence_id a.n_sequence_id
    then true
    else tie_break pa pb

unfoldable pub keyed_last : IndexEntry → IndexEntry → ℕ → ℕ → Bool
unfolding earlier_last
keyed_last a b pa pb =
    if not (0 == a.u_lotto_key) && 0 == b.u_lotto_key
    then false
    else if 0 == a.u_lotto_key && not (0 == b.u_lotto_key)
    then true
    else earlier_last a b pa pb

abbrev pub IndexChain : Type 0
IndexChain = List (Option ℕ)

-- CChain::operator[]
abbrev pub block_at : IndexChain → ℕ → Option ℕ
block_at [] n_height = none
block_at (p ∷ chain) zero = p
block_at (p ∷ chain) (suc n_height) = block_at chain n_height

-- CChain::Tip
abbrev pub tip : IndexChain → Option ℕ
tip chain = block_at chain (length chain - 1)

-- CChain::Genesis
abbrev pub genesis : IndexChain → Option ℕ
genesis chain = block_at chain 0

-- The comparison of a pointer of the vector with one that is not null.
abbrev pub points_to : Option ℕ → ℕ → Bool
points_to none pindex = false
points_to (some p) pindex = p == pindex

-- vChain.resize(n)
unfoldable pub resize : IndexChain → ℕ → IndexChain
resize chain zero = []
resize [] (suc n) = none ∷ resize [] n
resize (p ∷ chain) (suc n) = p ∷ resize chain n

module _ (entry : ℕ → IndexEntry) where
  unfoldable pub work_less : ℕ → ℕ → Bool
  unfolding keyed_last
  work_less pa pb =
      if ltb (entry pb).n_chain_work (entry pa).n_chain_work
      then false
      else if ltb (entry pa).n_chain_work (entry pb).n_chain_work
      then true
      else keyed_last (entry pa) (entry pb) pa pb

  -- CChain::Contains
  abbrev pub chain_contains : IndexChain → ℕ → Bool
  chain_contains chain pindex = points_to (block_at chain (entry pindex).n_height) pindex

  -- CChain::Next
  abbrev pub next_block : IndexChain → ℕ → Option ℕ
  next_block chain pindex =
      if chain_contains chain pindex then block_at chain (suc (entry pindex).n_height) else none

  -- The loop of SetTip, with a fuel for its rounds: the vector, and where it has stopped.
  unfoldable pub fill : ℕ → IndexChain → Option ℕ → Result (IndexChain × Option ℕ)
  fill fuel chain none = ok (chain, none)
  fill zero chain (some pindex) = err Error.fuel
  fill (suc fuel) chain (some pindex) =
      let n_height = (entry pindex).n_height in
      let rest = fill fuel (set chain n_height (some pindex)) (entry pindex).pprev in
      if not (ltb n_height (length chain))
      then err Error.undefined
      else if points_to (block_at chain n_height) pindex
      then ok (chain, some pindex)
      else rest

  -- CChain::SetTip
  unfoldable pub set_tip : IndexChain → Option ℕ → Result (IndexChain × Option ℕ)
  unfolding fill
  set_tip chain none = ok ([], none)
  set_tip chain (some pindex) =
      let n = suc (entry pindex).n_height in fill n (resize chain n) (some pindex)

  -- CChain::FindFork: the first block of a locator that the chain has.
  unfoldable pub find_fork : (ℕ → Option ℕ) → IndexChain → List ℕ → Option ℕ
  find_fork map_block_index chain [] = genesis chain
  find_fork map_block_index chain (hash ∷ v_have) =
      let rest = find_fork map_block_index chain v_have in
      elim (map_block_index hash) [
        | none ↦ rest
        | some pindex ↦ if chain_contains chain pindex then some pindex else rest
      ]
