-- ===== src/BitcoinNet/Best.antt =====
-- The loop of ConnectBestBlock that connects brings the active chain to the chain with the most work
-- (src/bitcoinnet/CChainManager.cpp).
use dsvalue.Prelude.{
  ℕ, zero, suc, ◌+◌, ◌-◌, ◌<◌, ◌≡◌, ◌⊎◌, refl, sym, ap, ◌∙◌, subst, Bool, true, false, ◌&&◌, Option,
  none, some, Result, ok, ◌==◌, length, arith, Bool-cases, inl, inr, dec_le,
}
use dsvalue.Index.{IndexChain, block_at, tip, chain_contains, set_tip}
use dsvalue.Index.Ancestors.{
  Ancestor, here, IsChainOf, above_base, Ancestor-height, Ancestor-same, contains_iff,
}
use dsvalue.Index.Fill.{elder_at}
use dsvalue.Index.Tip.{IsActive, set_tip-IsActive}
use dsvalue.BitcoinNet.{ChainManager, connect_tip, connect_tips}
use dsvalue.BitcoinNet.Parts.{IsStarted, with_active, IsPart, tip_of, next_parent, start_part}

module _ (s : ChainManager) (start_block base most : ℕ) (w : IsStarted s.entry base start_block)
    (best : IsChainOf s.entry s.chain_most_work most) (btc_start_height : ℕ)
    (height : base ≡ btc_start_height) (write_index write_best : ℕ → Bool)
    (written : (p : ℕ) → (write_index p && write_best p) ≡ true) where
  connect_next :
      (chain chain' : IndexChain) (fork : Bool) (left : Option ℕ) (c : ℕ) (f : Option ℕ)
      → tip chain ≡ left
      → ((c == start_block) ≡ true) ⊎ ((t : ℕ) × (left ≡ some t) × ((s.entry c).pprev ≡ some t))
      → set_tip s.entry chain (some c) ≡ ok (chain', f)
      → connect_tip start_block btc_start_height write_index write_best
          (with_active s chain fork)
          (some c)
        ≡ ok (true, with_active s chain' fork)
  unfolding connect_tip
  connect_next chain chain' fork left c f last (inl start) e = rw (start, e, written c) refl
  connect_next chain chain' fork left c f last (inr (t, known, link)) e =
      let self : (t == t) ≡ true = ground arith in
      elim (Bool-cases (c == start_block)) [
        | inl b ↦ rw (b, e, written c) refl
        | inr b ↦ rw (b, last ∙ known, link, self, e, written c) refl
      ]

  -- The block of the chain with the most work that is connected next.
  abbrev next_height : IndexChain → ℕ
  next_height chain = elim (tip chain) [
    | none ↦ length chain + btc_start_height
    | some t ↦ length chain
  ]

  record IsNext (chain : IndexChain) (left : Option ℕ) (c : ℕ) : Type 0 where
    pub at : block_at s.chain_most_work (next_height chain) ≡ some c
    pub part : Ancestor s.entry most c
    pub follows :
        ((c == start_block) ≡ true) ⊎ ((t : ℕ) × (left ≡ some t) × ((s.entry c).pprev ≡ some t))
    pub longer : length chain < suc (s.entry c).n_height
    pub is_tip : tip chain ≡ left

  successor_of :
      (chain : IndexChain) (left : Option ℕ)
      → IsActive s.entry chain left
      → IsPart s.entry most left
      → chain_contains s.entry chain most ≡ false
      → (c : ℕ) × IsNext chain left c
  successor_of chain none a part other =
      let empty : tip chain ≡ none = ap tip a in
      let start = start_part s start_block base most w best in
      let n : next_height chain ≡ (s.entry start_block).n_height =
        rw (empty, next_height)
          (omega (arith, ap (λ (l : IndexChain). length l) a, height, start.1)) in
      (
        start_block,
        record {
          at = ap (block_at s.chain_most_work) n ∙ best.has start_block (start.0);
          part = start.0;
          follows = inl (ground arith);
          longer = omega (arith, ap (λ (l : IndexChain). length l) a);
          is_tip = empty;
        },
      )
  successor_of chain (some t) a part other =
      let last = tip_of s.entry chain t a in
      let low = Ancestor-height s.entry base w.index most t part in
      let below : (s.entry t).n_height < (s.entry most).n_height =
        elim (dec_le (s.entry most).n_height (s.entry t).n_height) [
          | yes high ↦
              let same =
                Ancestor-same s.entry base w.index most t part (omega (arith, low, high)) in
              let there = (contains_iff s.entry chain t t a).1 (here t t refl) in
              absurd (ground (arith, rw same at there, other))
          | no high ↦ omega (arith, high)
        ] in
      let (c, l, h) =
        elder_at s.entry base w.index most (suc (s.entry t).n_height)
          ((s.entry most).n_height - suc (s.entry t).n_height)
          (omega (arith, above_base s.entry base w.index (s.entry t).n_height t refl))
          (omega (arith, below)) in
      let n : next_height chain ≡ (s.entry c).n_height = rw (last, next_height) (a.size ∙ sym h) in
      (
        c,
        record {
          at = ap (block_at s.chain_most_work) n ∙ best.has c l;
          part = l;
          follows = inr (t, refl, next_parent s.entry base w.index most t c part l h);
          longer = omega (arith, a.size, h);
          is_tip = last;
        },
      )

  whole_chain :
      (chain : IndexChain) (left : Option ℕ)
      → IsActive s.entry chain left
      → IsPart s.entry most left
      → chain_contains s.entry chain most ≡ true
      → IsChainOf s.entry chain most
  whole_chain chain none a part there = absurd (ground (arith, rw a at there))
  whole_chain chain (some t) a part there =
      let back = (contains_iff s.entry chain t most a).0 there in
      let same = Ancestor-same s.entry base w.index most t part (
        omega (
          arith,
          Ancestor-height s.entry base w.index t most back,
          Ancestor-height s.entry base w.index most t part,
        )) in
      subst (IsChainOf s.entry chain) same a

  connect_step :
      (fuel : ℕ) (chain chain' : IndexChain) (fork : Bool) (c : ℕ)
      (r : Result (Bool × ChainManager))
      → chain_contains s.entry chain most ≡ false
      → block_at s.chain_most_work (next_height chain) ≡ some c
      → connect_tip start_block btc_start_height write_index write_best
          (with_active s chain fork)
          (some c)
        ≡ ok (true, with_active s chain' fork)
      → connect_tips start_block btc_start_height write_index write_best fuel
          (with_active s chain' fork)
          most
        ≡ r
      → connect_tips start_block btc_start_height write_index write_best
          (suc fuel)
          (with_active s chain fork)
          most
        ≡ r
  unfolding connect_tips
  connect_step fuel chain chain' fork c r other at e rest = rw (other, at, e) rest

  pub connect_tips-IsChainOf :
      (fuel : ℕ) (chain : IndexChain) (fork : Bool) (left : Option ℕ)
      → suc (s.entry most).n_height < fuel + length chain
      → IsActive s.entry chain left
      → IsPart s.entry most left
      → (chain' : IndexChain) × (connect_tips start_block btc_start_height write_index write_best
            fuel
            (with_active s chain fork)
            most
          ≡ ok (true, with_active s chain' fork))
        × IsChainOf s.entry chain' most
  unfolding connect_tips
  connect_tips-IsChainOf zero chain fork none enough a part =
      absurd (omega (arith, enough, ap (λ (l : IndexChain). length l) a))
  connect_tips-IsChainOf zero chain fork (some t) enough a part =
      absurd (omega (arith, enough, a.size, Ancestor-height s.entry base w.index most t part))
  connect_tips-IsChainOf (suc fuel) chain fork left enough a part =
      elim (Bool-cases (chain_contains s.entry chain most)) [
        | inl there ↦ (chain, rw there refl, whole_chain chain left a part there)
        | inr other ↦
            let (c, n) = successor_of chain left a part other in
            let (chain', f, e, a', _) = set_tip-IsActive s.entry base w.index chain left c a in
            let next = connect_next chain chain' fork left c f n.is_tip n.follows e in
            let (chain'', rest, whole) =
              connect_tips-IsChainOf fuel chain' fork (some c)
                (omega (arith, a'.size, n.longer, enough)) a' n.part in
            (chain'', connect_step fuel chain chain' fork c _ other n.at next rest, whole)
      ]
