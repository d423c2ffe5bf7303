-- ===== src/Index/Fill.antt =====
-- A round of SetTip, and where its loop stops (src/main.cpp: CChain::SetTip).
use dsvalue.Prelude.{
  ℕ, zero, suc, ◌+◌, ◌≤◌, ◌<◌, ◌≡◌, ◌≢◌, refl, sym, ap, ◌∙◌, subst, false, some, ◌==◌, length, set,
  arith, Bool-cases, Option-cases, inl, inr, dec_le, ◌-◌,
}
use dsvalue.Index.{IndexEntry, IndexChain, block_at}
use dsvalue.Index.Ancestors.{
  Ancestor, here, up, IsIndex, IsChainOf, above_base, Ancestor-trans, Ancestor-height,
  Ancestor-linear, Ancestor-same,
}
use dsvalue.Index.Vector.{block_at-set, length-set}

-- A vector that holds every block at its height, and with a block all its ancestors.
abbrev pub IsCoherent : (ℕ → IndexEntry) → IndexChain → Type 0
IsCoherent entry chain =
    (i a : ℕ)
    → block_at chain i ≡ some a
    → ((entry a).n_height ≡ i)
      × ((b : ℕ) → Ancestor entry a b → block_at chain (entry b).n_height ≡ some b)

-- From position n on, the vector is that of the chain of `last`, and below it is the old one, which had
-- none of the blocks from n on.
pub record IsFilled (entry : ℕ → IndexEntry) (old : IndexChain) (last : ℕ) (chain : IndexChain)
    (n : ℕ) : Type 0 where
  pub size : length chain ≡ suc (entry last).n_height
  pub has :
      (a : ℕ)
      → Ancestor entry last a
      → n ≤ (entry a).n_height
      → block_at chain (entry a).n_height ≡ some a
  pub only :
      (i a : ℕ)
      → n ≤ i
      → block_at chain i ≡ some a
      → ((entry a).n_height ≡ i) × Ancestor entry last a
  pub below : (i : ℕ) → i < n → block_at chain i ≡ block_at old i
  pub unknown :
      (a : ℕ)
      → Ancestor entry last a
      → n ≤ (entry a).n_height
      → block_at old (entry a).n_height ≢ some a

module _ (entry : ℕ → IndexEntry) (base : ℕ) (w : IsIndex entry base) where
  -- A block has an ancestor at every height from the first one on.
  pub elder_at :
      (p i n : ℕ)
      → base ≤ i
      → (entry p).n_height ≡ i + n
      → (b : ℕ) × Ancestor entry p b × ((entry b).n_height ≡ i)
  elder_at p i zero low e = (p, here p p refl, omega (arith, e))
  elder_at p i (suc n) low e = elim (Option-cases ((entry p).pprev)) [
    | inl root ↦ absurd (omega (arith, w.rooted p root, e, low))
    | inr (q, link) ↦
        let (b, l, height) = elder_at q i n low (omega (arith, w.linked p q link, e)) in
        (b, up p q b link l, height)
  ]

  module _ (old : IndexChain) (coherent : IsCoherent entry old) (last : ℕ) where
    -- The loop stops at a block that the vector has already.
    pub stopped :
        (chain : IndexChain) (p : ℕ)
        → IsFilled entry old last chain (suc (entry p).n_height)
        → Ancestor entry last p
        → block_at chain (entry p).n_height ≡ some p
        → IsChainOf entry chain last
    stopped chain p f path found =
        let known = sym (f.below (entry p).n_height (omega arith)) ∙ found in
        let (_, closed) = coherent (entry p).n_height p known in
        record {
          size = f.size;
          has = λ a l. elim (dec_le (suc (entry p).n_height) (entry a).n_height) [
            | yes high ↦ f.has a l high
            | no low ↦
                f.below (entry a).n_height (omega (arith, low))
                ∙ closed a (Ancestor-linear entry base w last p a path l (omega (arith, low)))
          ];
          only = λ i a e. elim (dec_le (suc (entry p).n_height) i) [
            | yes high ↦ f.only i a high e
            | no low ↦
                let e' = sym (f.below i (omega (arith, low))) ∙ e in
                let (height, _) = coherent i a e' in
                let (b, l, height') =
                  elder_at p i ((entry p).n_height - i)
                    (omega (arith, height, above_base entry base w (entry a).n_height a refl))
                    (omega (arith, low)) in
                let same : a ≡ b = ground (arith, e', closed b l, height') in
                (
                  height,
                  subst (λ x. Ancestor entry last x) (sym same)
                      (Ancestor-trans entry base w last p b path l),
                )
          ];
        }

    -- The loop stops behind a first block.
    pub ended :
        (chain : IndexChain) → IsFilled entry old last chain base → IsChainOf entry chain last
    ended chain f = record {
      size = f.size;
      has = λ a l. f.has a l (above_base entry base w (entry a).n_height a refl);
      only = λ i a e. elim (dec_le base i) [
        | yes high ↦ f.only i a high e
        | no low ↦
            let (height, _) = coherent i a (sym (f.below i (omega (arith, low))) ∙ e) in
            absurd (omega (arith, height, low, above_base entry base w (entry a).n_height a refl))
      ];
    }

    -- A round of the loop.
    pub written :
        (chain : IndexChain) (p : ℕ)
        → IsFilled entry old last chain (suc (entry p).n_height)
        → Ancestor entry last p
        → block_at chain (entry p).n_height ≢ some p
        → IsFilled entry old last (set chain (entry p).n_height (some p)) (entry p).n_height
    written chain p f path other =
        let h = (entry p).n_height in
        let room : h < length chain =
          omega (arith, f.size, Ancestor-height entry base w last p path) in
        let same = λ (a : ℕ) (l : Ancestor entry last a) (e : (entry a).n_height ≡ h).
          Ancestor-same entry base w p a
            (Ancestor-linear entry base w last p a path l (omega (arith, e))) e in
        record {
          size = length-set chain h (some p) ∙ f.size;
          has = λ a l high.
              block_at-set chain h (entry a).n_height (some p) room
              ∙ elim (Bool-cases (h == (entry a).n_height)) [
                | inl e ↦ rw e (ap (λ (x : ℕ). some x) (sym (same a l (ground arith))))
                | inr e ↦ rw e (f.has a l (ground arith))
              ];
          only = λ i a high e.
              let e' = sym (block_at-set chain h i (some p) room) ∙ e in
              elim (Bool-cases (h == i)) [
                | inl t ↦
                    let s : p ≡ a = ground (arith, rw t at e') in
                    (
                      subst (λ x. (entry x).n_height ≡ i) s (ground arith),
                      subst (λ x. Ancestor entry last x) s path,
                    )
                | inr t ↦ f.only i a (ground arith) (rw t at e')
              ];
          below = λ i low.
              block_at-set chain h i (some p) room
              ∙ (let apart : (h == i) ≡ false = ground arith in rw apart (f.below i (omega arith)));
          unknown = λ a l high. elim (Bool-cases (h == (entry a).n_height)) [
            | inl t ↦ λ e.
                let s = same a l (ground (arith, t)) in
                other (
                  f.below h (omega arith)
                  ∙ subst (λ x. block_at old (entry x).n_height ≡ some x) s e)
            | inr t ↦ f.unknown a l (ground arith)
          ];
        }
