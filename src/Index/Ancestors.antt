-- ===== src/Index/Ancestors.antt =====
-- The chain of a block: its ancestors by pprev, each at its height (src/main.h: CBlockIndex, CChain).
use dsvalue.Prelude.{
  ℕ, zero, suc, ◌≤◌, ◌≡◌, ◌↔◌, sym, ap, subst, true, Option, none, some, length, arith,
  Option-cases, inl, inr,
}
use dsvalue.Index.{IndexEntry, IndexChain, block_at, points_to, chain_contains}

-- The blocks that pprev leads to, the block itself among them.
pub data Ancestor (entry : ℕ → IndexEntry) : ℕ → ℕ → Type 0 where
  here : (p a : ℕ) → p ≡ a → Ancestor entry p a
  up : (p q a : ℕ) → (entry p).pprev ≡ some q → Ancestor entry q a → Ancestor entry p a

-- An index whose heights count from its first blocks on, which have all the height `base`.
pub record IsIndex (entry : ℕ → IndexEntry) (base : ℕ) : Type 0 where
  pub linked : (p q : ℕ) → (entry p).pprev ≡ some q → (entry p).n_height ≡ suc (entry q).n_height
  pub rooted : (p : ℕ) → (entry p).pprev ≡ none → (entry p).n_height ≡ base

-- The chain whose last block is `pindex`.
pub record IsChainOf (entry : ℕ → IndexEntry) (chain : IndexChain) (pindex : ℕ) : Type 0 where
  pub size : length chain ≡ suc (entry pindex).n_height
  pub has : (a : ℕ) → Ancestor entry pindex a → block_at chain (entry a).n_height ≡ some a
  pub only :
      (i a : ℕ) → block_at chain i ≡ some a → ((entry a).n_height ≡ i) × Ancestor entry pindex a

module _ (entry : ℕ → IndexEntry) (base : ℕ) (w : IsIndex entry base) where
  pub above_base : (n p : ℕ) → (entry p).n_height ≡ n → base ≤ (entry p).n_height
  above_base zero p e = elim (Option-cases ((entry p).pprev)) [
    | inl root ↦ omega (arith, w.rooted p root)
    | inr (q, link) ↦ absurd (omega (arith, e, w.linked p q link))
  ]
  above_base (suc n) p e = elim (Option-cases ((entry p).pprev)) [
    | inl root ↦ omega (arith, w.rooted p root)
    | inr (q, link) ↦
        let height = w.linked p q link in
        omega (arith, height, above_base n q (omega (arith, e, height)))
  ]

  pub Ancestor-trans : (p q a : ℕ) → Ancestor entry p q → Ancestor entry q a → Ancestor entry p a
  Ancestor-trans p q a (here _ _ e) r = subst (λ x. Ancestor entry x a) (sym e) r
  Ancestor-trans p q a (up _ p' _ link l) r = up p p' a link (Ancestor-trans p' q a l r)

  pub Ancestor-height : (p a : ℕ) → Ancestor entry p a → (entry a).n_height ≤ (entry p).n_height
  Ancestor-height p a (here _ _ e) = omega (arith, ap (λ x. (entry x).n_height) e)
  Ancestor-height p a (up _ q _ link l) = omega (arith, w.linked p q link, Ancestor-height q a l)

  -- Of two ancestors of a block, the lower one is an ancestor of the other.
  pub Ancestor-linear :
      (p q a : ℕ)
      → Ancestor entry p q
      → Ancestor entry p a
      → (entry a).n_height ≤ (entry q).n_height
      → Ancestor entry q a
  Ancestor-linear p q a (here _ _ e) r h = subst (λ x. Ancestor entry x a) e r
  Ancestor-linear p q a (up _ p' _ link l) (here _ _ e) h =
      absurd (
        omega
          (arith, w.linked p p' link, Ancestor-height p' q l, ap (λ x. (entry x).n_height) e, h))
  Ancestor-linear p q a (up _ p' _ link l) (up _ p'' _ link' r) h =
      let same : p'' ≡ p' = ground (arith, link, link') in
      Ancestor-linear p' q a l (subst (λ x. Ancestor entry x a) same r) h

  -- The only ancestor at the height of a block is the block.
  pub Ancestor-same :
      (p a : ℕ) → Ancestor entry p a → (entry a).n_height ≡ (entry p).n_height → a ≡ p
  Ancestor-same p a (here _ _ e) h = sym e
  Ancestor-same p a (up _ q _ link l) h =
      absurd (omega (arith, w.linked p q link, Ancestor-height q a l, h))

pub points_to→≡ : (o : Option ℕ) (p : ℕ) → points_to o p ≡ true → o ≡ some p
points_to→≡ none p h = absurd (ground arith)
points_to→≡ (some q) p h = ground arith

-- The blocks of a chain are the ancestors of its last one.
pub contains_iff :
    (entry : ℕ → IndexEntry) (chain : IndexChain) (pindex p : ℕ)
    → IsChainOf entry chain pindex
    → (chain_contains entry chain p ≡ true) ↔ Ancestor entry pindex p
contains_iff entry chain pindex p c = (
  λ h. (c.only (entry p).n_height p (points_to→≡ (block_at chain (entry p).n_height) p h)).1,
  λ l. rw (c.has p l) (ground arith),
)
