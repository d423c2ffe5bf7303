-- ===== src/BitcoinNet/Parts.antt =====
-- The loop of ConnectBestBlock that disconnects leaves a part of the chain with the most work
-- (src/bitcoinnet/CChainManager.cpp).
use dsvalue.Prelude.{
  ℕ, zero, suc, ◌-◌, ◌<◌, ◌≡◌, refl, ap, ◌∙◌, subst, Bool, true, false, Option, none, some, ok,
  ◌==◌, length, arith, Bool-cases, Option-cases, inl, inr,
}
use dsvalue.Index.{IndexEntry, IndexChain, block_at, tip, chain_contains, set_tip}
use dsvalue.Index.Ancestors.{
  Ancestor, here, up, IsIndex, IsChainOf, above_base, Ancestor-trans, Ancestor-linear,
  Ancestor-same, contains_iff,
}
use dsvalue.Index.Fill.{elder_at}
use dsvalue.Index.Tip.{IsActive, set_tip-IsActive}
use dsvalue.BitcoinNet.{ChainManager, disconnect_tip, disconnect_tips}

-- The tip of a chain is its last block.
pub tip_of :
    (entry : ℕ → IndexEntry) (chain : IndexChain) (last : ℕ)
    → IsChainOf entry chain last
    → tip chain ≡ some last
tip_of entry chain last c =
    let e : length chain - 1 ≡ (entry last).n_height = omega (arith, c.size) in
    ap (block_at chain) e ∙ c.has last (here last last refl)

-- The parent of a block behind an ancestor.
pub next_parent :
    (entry : ℕ → IndexEntry) (base : ℕ) (w : IsIndex entry base) (most t c : ℕ)
    → Ancestor entry most t
    → Ancestor entry most c
    → (entry c).n_height ≡ suc (entry t).n_height
    → (entry c).pprev ≡ some t
next_parent entry base w most t c l l' h = elim (Option-cases ((entry c).pprev)) [
  | inl root ↦
      absurd (omega (arith, w.rooted c root, h, above_base entry base w (entry t).n_height t refl))
  | inr (q, link) ↦
      let height = w.linked c q link in
      let same =
        Ancestor-same entry base w t q
          (Ancestor-linear entry base w most t q l
            (Ancestor-trans entry base w most c q l' (up c q q link (here q q refl)))
            (omega (arith, height, h)))
          (omega (arith, height, h)) in
      link ∙ ap (λ (x : ℕ). some x) same
]

-- One first block, the one that the manager starts with.
pub record IsStarted (entry : ℕ → IndexEntry) (base start_block : ℕ) : Type 0 where
  pub index : IsIndex entry base
  pub start : (p : ℕ) → (entry p).pprev ≡ none → p ≡ start_block
  pub first : (entry start_block).pprev ≡ none

-- The manager with another active chain.
abbrev pub with_active : ChainManager → IndexChain → Bool → ChainManager
with_active s chain fork = record s { chain_active = chain; f_fork = fork }

-- The active chain is a part of the chain of `most`.
abbrev pub IsPart : (ℕ → IndexEntry) → ℕ → Option ℕ → Type 0
IsPart entry most none = Unit
IsPart entry most (some t) = Ancestor entry most t

module _ (s : ChainManager) (start_block base most : ℕ) (w : IsStarted s.entry base start_block)
    (best : IsChainOf s.entry s.chain_most_work most) where
  -- Every chain has the first block.
  pub start_part : Ancestor s.entry most start_block × ((s.entry start_block).n_height ≡ base)
  start_part =
      let low = above_base s.entry base w.index (s.entry most).n_height most refl in
      let (b, l, height) =
        elder_at s.entry base w.index most base ((s.entry most).n_height - base) (omega arith)
          (omega (arith, low)) in
      let root : (s.entry b).pprev ≡ none = elim (Option-cases ((s.entry b).pprev)) [
        | inl e ↦ e
        | inr (q, link) ↦ absurd (
            omega (
              arith,
              w.index.linked b q link,
              height,
              above_base s.entry base w.index (s.entry q).n_height q refl,
            ))
      ] in
      let same = w.start b root in
      subst (λ x. Ancestor s.entry most x × ((s.entry x).n_height ≡ base)) same (l, height)

  -- A block that is not in the chain with the most work has a parent, and is not the first block.
  has_parent :
      (t : ℕ)
      → chain_contains s.entry s.chain_most_work t ≡ false
      → (q : ℕ) × ((s.entry t).pprev ≡ some q) × ((t == start_block) ≡ false)
  has_parent t other =
      let start : chain_contains s.entry s.chain_most_work start_block ≡ true =
        (contains_iff s.entry s.chain_most_work most start_block best).1 (start_part.0) in
      let apart : (t == start_block) ≡ false = elim (Bool-cases (t == start_block)) [
        | inl e ↦
            let same : t ≡ start_block = ground arith in
            absurd (ground (arith, start, rw same at other))
        | inr e ↦ e
      ] in
      elim (Option-cases ((s.entry t).pprev)) [
        | inl root ↦ absurd (ground (arith, w.start t root, apart))
        | inr (q, link) ↦ (q, link, apart)
      ]

  disconnect_parent :
      (chain chain' : IndexChain) (fork : Bool) (t q : ℕ) (f : Option ℕ)
      → (s.entry t).pprev ≡ some q
      → (t == start_block) ≡ false
      → set_tip s.entry chain (some q) ≡ ok (chain', f)
      → disconnect_tip start_block (with_active s chain fork) t ≡ ok (with_active s chain' true)
  unfolding disconnect_tip
  disconnect_parent chain chain' fork t q f link apart e =
      rw (link, disconnect_tip) (rw (apart, e) refl)

  pub disconnect_tips-IsPart :
      (fuel : ℕ) (chain : IndexChain) (fork : Bool) (old : Option ℕ)
      → length chain < fuel
      → IsActive s.entry chain old
      → (chain' : IndexChain) × (fork' : Bool) × (left : Option ℕ) × (disconnect_tips start_block
            fuel
            (with_active s chain fork)
          ≡ ok (with_active s chain' fork'))
        × IsActive s.entry chain' left
        × IsPart s.entry most left
  unfolding disconnect_tips
  disconnect_tips-IsPart zero chain fork old enough a = absurd (omega (arith, enough))
  disconnect_tips-IsPart (suc fuel) chain fork none enough a =
      let empty : tip chain ≡ none = ap tip a in (chain, fork, none, rw empty refl, a, tt)
  disconnect_tips-IsPart (suc fuel) chain fork (some t) enough a =
      let last = tip_of s.entry chain t a in
      elim (Bool-cases (chain_contains s.entry s.chain_most_work t)) [
        | inl there ↦ (
          chain,
          fork,
          some t,
          rw (last, there) refl,
          a,
          (contains_iff s.entry s.chain_most_work most t best).0 there,
        )
        | inr other ↦
            let (q, link, apart) = has_parent t other in
            let (chain', f, e, a', _) = set_tip-IsActive s.entry base w.index chain (some t) q a in
            let height = w.index.linked t q link in
            let (chain'', fork', left, e', a'', part) =
              disconnect_tips-IsPart fuel chain' true (some q)
                (omega (arith, a.size, a'.size, height, enough)) a' in
            let gone = disconnect_parent chain chain' fork t q f link apart e in
            (chain'', fork', left, rw (last, other, gone) e', a'', part)
      ]
