-- ===== src/BitcoinNet/Tests.antt =====
-- A fork of the chain of headers, at concrete values: the active chain changes to the longer branch.
use dsvalue.Prelude.{
  ℕ, zero, suc, ◌≡◌, ◌⊎◌, refl, sym, subst, true, false, [], ◌∷◌, Option, none, some, ok,
  if◌then◌else◌, ◌==◌, ◌&&◌, not, arith, inl, inr,
}
use dsvalue.Index.{IndexEntry, IndexChain, block_at, set_tip, work_less}
use dsvalue.Index.Order.{work_less_ordered}
use dsvalue.Index.Ancestors.{Ancestor, here, up, IsIndex, IsChainOf}
use dsvalue.Index.Tip.{IsActive, IsFork, set_tip-IsActive}
use dsvalue.BitcoinNet.{header_less, ChainManager, connect_best_block}
use dsvalue.BitcoinNet.Parts.{IsStarted}
use dsvalue.BitcoinNet.Choice.{NoneBehind}
use dsvalue.BitcoinNet.Active.{connect_best_block-IsChainOf}

-- Block 10 is the first one, at height 1; 12 comes behind 11, and all others come behind 10.
abbrev headers : ℕ → IndexEntry
headers p =
    if p == 10
    then record {
      n_height = 1;
      pprev = none;
      n_chain_work = 1;
      u_lotto_key = 0;
      n_sequence_id = 1;
      f_failed = false;
    }
    else if p == 12
    then record {
      n_height = 3;
      pprev = some 11;
      n_chain_work = 3;
      u_lotto_key = 0;
      n_sequence_id = 4;
      f_failed = false;
    }
    else record {
      n_height = 2;
      pprev = some 10;
      n_chain_work = 2;
      u_lotto_key = 0;
      n_sequence_id = 2;
      f_failed = false;
    }

headers-IsIndex : IsIndex headers 1
headers-IsIndex = record { linked = λ p q e. ground (arith, e); rooted = λ p e. ground (arith, e) }

-- The chain of block 13.
abbrev short_branch : IndexChain
short_branch = none ∷ some 10 ∷ some 13 ∷ []

of_first : (a : ℕ) → Ancestor headers 10 a → a ≡ 10
of_first a (here _ _ e) = sym e
of_first a (up _ q _ link l) = absurd (ground (arith, link))

of_short : (a : ℕ) → Ancestor headers 13 a → (a ≡ 13) ⊎ (a ≡ 10)
of_short a (here _ _ e) = inl (sym e)
of_short a (up _ q _ link l) =
    let first : q ≡ 10 = ground (arith, link) in
    inr (of_first a (subst (λ x. Ancestor headers x a) first l))

short_at :
    (i a : ℕ)
    → block_at short_branch i ≡ some a
    → ((headers a).n_height ≡ i) × Ancestor headers 13 a
short_at zero a e = absurd (ground (arith, e))
short_at (suc zero) a e =
    let first : 10 ≡ a = ground (arith, e) in
    subst (λ x. ((headers x).n_height ≡ 1) × Ancestor headers 13 x) first
      (refl, up 13 10 10 refl (here 10 10 refl))
short_at (suc (suc zero)) a e =
    let second : 13 ≡ a = ground (arith, e) in
    subst (λ x. ((headers x).n_height ≡ 2) × Ancestor headers 13 x) second (refl, here 13 13 refl)
short_at (suc (suc (suc i))) a e = absurd (ground (arith, e))

short_branch-IsChainOf : IsChainOf headers short_branch 13
short_branch-IsChainOf = record {
  size = refl;
  has = λ a l. elim (of_short a l) [
    | inl e ↦ subst (λ x. block_at short_branch (headers x).n_height ≡ some x) (sym e) refl
    | inr e ↦ subst (λ x. block_at short_branch (headers x).n_height ≡ some x) (sym e) refl
  ];
  only = short_at;
}

work_less_ordered_example :
    ((work_less headers 13 11 && work_less headers 11 12 && not (work_less headers 13 12)) ≡ false)
    × (work_less headers 13 11 ≡ (if 13 == 11 then false else not (work_less headers 11 13)))
work_less_ordered_example = work_less_ordered headers 13 11 12

set_tip-IsActive_example :
    (chain' : IndexChain) × (fork : Option ℕ) × (set_tip headers short_branch (some 12)
      ≡ ok (chain', fork))
    × IsActive headers chain' (some 12)
    × IsFork headers short_branch 12 fork
set_tip-IsActive_example =
    set_tip-IsActive headers 1 headers-IsIndex short_branch (some 13) 12 short_branch-IsChainOf

abbrev forked : ChainManager
forked = record {
  entry = headers;
  chain_active = short_branch;
  chain_most_work = short_branch;
  valid = 10 ∷ 13 ∷ 11 ∷ 12 ∷ [];
  best_invalid = none;
  f_fork = false;
}

headers-IsStarted : IsStarted headers 1 10
headers-IsStarted = record {
  index = headers-IsIndex;
  start = λ p e. ground (arith, e);
  first = refl;
}

connect_best_block-IsChainOf_example :
    (s' : ChainManager) × (most : ℕ) × (connect_best_block 10 1 (λ p. true) (λ p. true) forked
      ≡ ok (true, s'))
    × IsChainOf headers s'.chain_active most
    × NoneBehind headers most (10 ∷ 13 ∷ 11 ∷ 12 ∷ [])
    × ((most ≡ 12) ⊎ (some 13 ≡ some most))
unfolding header_less
connect_best_block-IsChainOf_example =
    connect_best_block-IsChainOf forked 10 1 (λ p. true) (λ p. true) headers-IsStarted (some 13)
      short_branch-IsChainOf (λ p. refl) (some 13) 12 (λ p. ground arith) short_branch-IsChainOf
      ((refl, (refl, (refl, tt))), ((refl, (refl, tt)), ((refl, tt), (tt, tt)))) refl
