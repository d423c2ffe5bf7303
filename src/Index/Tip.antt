-- ===== src/Index/Tip.antt =====
-- CChain::SetTip makes the chain of the block, whatever chain it starts from (src/main.cpp).
use dsvalue.Prelude.{
  ℕ, zero, suc, ◌≤◌, ◌<◌, ◌≡◌, ◌≢◌, refl, sym, ◌∙◌, subst, true, false, [], Option, none, some, ok,
  ltb, length, set, arith, Bool-cases, inl, inr,
}
use dsvalue.Index.{
  IndexEntry, IndexChain, block_at, points_to, chain_contains, resize, fill, set_tip,
}
use dsvalue.Index.Ancestors.{
  Ancestor, here, up, IsIndex, IsChainOf, above_base, Ancestor-trans, Ancestor-height, points_to→≡,
}
use dsvalue.Index.Vector.{block_at-resize, length-resize}
use dsvalue.Index.Fill.{IsCoherent, IsFilled, stopped, ended, written}

-- The chain of a block, or no chain.
abbrev pub IsActive : (ℕ → IndexEntry) → IndexChain → Option ℕ → Type 0
IsActive entry chain none = chain ≡ []
IsActive entry chain (some last) = IsChainOf entry chain last

-- Where two chains part: the highest block of the chain of `last` that the other chain has.
abbrev pub IsFork : (ℕ → IndexEntry) → IndexChain → ℕ → Option ℕ → Type 0
IsFork entry chain last none =
    (a : ℕ) → Ancestor entry last a → chain_contains entry chain a ≡ false
IsFork entry chain last (some f) =
    Ancestor entry last f
    × (chain_contains entry chain f ≡ true)
    × ((a : ℕ)
        → Ancestor entry last a
        → (entry f).n_height < (entry a).n_height
        → chain_contains entry chain a ≡ false)

module _ (entry : ℕ → IndexEntry) (base : ℕ) (w : IsIndex entry base) where
  module _ (old : IndexChain) (coherent : IsCoherent entry old) (last : ℕ) where
    -- Where the loop has stopped: the highest block of the new chain that the old vector has.
    abbrev IsMeeting : Option ℕ → Type 0
    IsMeeting none = (a : ℕ) → Ancestor entry last a → block_at old (entry a).n_height ≢ some a
    IsMeeting (some f) =
        Ancestor entry last f
        × (block_at old (entry f).n_height ≡ some f)
        × ((a : ℕ)
            → Ancestor entry last a
            → (entry f).n_height < (entry a).n_height
            → block_at old (entry a).n_height ≢ some a)

    -- The position above the block that is looked at.
    abbrev AtBlock : Option ℕ → ℕ → Type 0
    AtBlock none n = n ≡ base
    AtBlock (some p) n = (n ≡ suc (entry p).n_height) × Ancestor entry last p

    parent_at :
        (o : Option ℕ) (p : ℕ)
        → (entry p).pprev ≡ o
        → Ancestor entry last p
        → AtBlock o (entry p).n_height
    parent_at none p link path = w.rooted p link
    parent_at (some q) p link path = (
      w.linked p q link,
      Ancestor-trans entry base w last p q path (up p q q link (here q q refl)),
    )

    fill-IsChainOf :
        (fuel n : ℕ) (chain : IndexChain) (pindex : Option ℕ)
        → n ≤ fuel
        → AtBlock pindex n
        → IsFilled entry old last chain n
        → (chain' : IndexChain) × (fork : Option ℕ) × (fill entry fuel chain pindex
            ≡ ok (chain', fork))
          × IsChainOf entry chain' last
          × IsMeeting fork
    unfolding fill
    fill-IsChainOf fuel n chain none enough at f =
        let f' = subst (λ m. IsFilled entry old last chain m) at f in
        (
          chain,
          none,
          refl,
          ended entry base w old coherent last chain f',
          λ a l. f'.unknown a l (above_base entry base w (entry a).n_height a refl),
        )
    fill-IsChainOf zero n chain (some p) enough at f = absurd (omega (arith, at.0, enough))
    fill-IsChainOf (suc fuel) n chain (some p) enough at f =
        let h = (entry p).n_height in
        let f' = subst (λ m. IsFilled entry old last chain m) (at.0) f in
        let path = at.1 in
        let room : ltb h (length chain) ≡ true =
          ground (arith, f'.size, Ancestor-height entry base w last p path) in
        elim (Bool-cases (points_to (block_at chain h) p)) [
          | inl there ↦
              let found = points_to→≡ (block_at chain h) p there in
              (
                chain,
                some p,
                rw (room, there) refl,
                stopped entry base w old coherent last chain p f' path found,
                (path, sym (f'.below h (omega arith)) ∙ found, λ a l high. f'.unknown a l high),
              )
          | inr new ↦
              let other : block_at chain h ≢ some p = λ e. ground (arith, new, e) in
              let (chain', fork, e, c, m) =
                fill-IsChainOf fuel h (set chain h (some p)) (entry p).pprev
                  (omega (arith, at.0, enough)) (parent_at (entry p).pprev p refl path)
                  (written entry base w old coherent last chain p f' path other) in
              (chain', fork, rw (room, new) e, c, m)
        ]

  resize-IsCoherent :
      (chain : IndexChain) (n : ℕ) → IsCoherent entry chain → IsCoherent entry (resize chain n)
  resize-IsCoherent chain n c i a e =
      let e' = sym (block_at-resize chain n i) ∙ e in
      let below : ltb i n ≡ true = ground arith in
      let (height, closed) = c i a (rw below at e') in
      (
        height,
        λ b l.
            let low : ltb (entry b).n_height n ≡ true =
              ground (arith, Ancestor-height entry base w a b l, height) in
            block_at-resize chain n (entry b).n_height ∙ rw low (closed b l),
      )

  active-IsCoherent :
      (chain : IndexChain) (o : Option ℕ) → IsActive entry chain o → IsCoherent entry chain
  active-IsCoherent chain none c i a e = absurd (ground (arith, rw c at e))
  active-IsCoherent chain (some last) c i a e =
      let (height, l) = c.only i a e in
      (height, λ b l'. c.has b (Ancestor-trans entry base w last a b l l'))

  resized_same :
      (chain : IndexChain) (last a : ℕ)
      → Ancestor entry last a
      → block_at (resize chain (suc (entry last).n_height)) (entry a).n_height
        ≡ block_at chain (entry a).n_height
  resized_same chain last a l =
      let low : ltb (entry a).n_height (suc (entry last).n_height) ≡ true =
        ground (arith, Ancestor-height entry base w last a l) in
      block_at-resize chain (suc (entry last).n_height) (entry a).n_height ∙ rw low refl

  missing_block :
      (chain : IndexChain) (last a : ℕ)
      → Ancestor entry last a
      → block_at (resize chain (suc (entry last).n_height)) (entry a).n_height ≢ some a
      → chain_contains entry chain a ≡ false
  missing_block chain last a l other = elim (Bool-cases (chain_contains entry chain a)) [
    | inl e ↦
        absurd (
          other (resized_same chain last a l ∙ points_to→≡ (block_at chain (entry a).n_height) a e))
    | inr e ↦ e
  ]

  resized_meeting :
      (chain : IndexChain) (last : ℕ) (fork : Option ℕ)
      (c : IsCoherent entry (resize chain (suc (entry last).n_height)))
      → IsMeeting (resize chain (suc (entry last).n_height)) c last fork
      → IsFork entry chain last fork
  resized_meeting chain last none c m = λ a l. missing_block chain last a l (m a l)
  resized_meeting chain last (some f) c (l, there, higher) = (
    l,
    rw (sym (resized_same chain last f l) ∙ there) (ground arith),
    λ a l' high. missing_block chain last a l' (higher a l' high),
  )

  -- In an index where a block is one above its previous one and the first blocks have all the same
  -- height, SetTip on the chain of any block, or on no chain, returns, makes the chain of the block that
  -- it is given, with its ancestors at their heights and nothing else, and returns the highest block of
  -- it that the old chain contains, or null where it contains none.
  pub set_tip-IsActive :
      (chain : IndexChain) (old : Option ℕ) (last : ℕ)
      → IsActive entry chain old
      → (chain' : IndexChain) × (fork : Option ℕ) × (set_tip entry chain (some last)
          ≡ ok (chain', fork))
        × IsActive entry chain' (some last)
        × IsFork entry chain last fork
  unfolding set_tip
  set_tip-IsActive chain old last active =
      let n = suc (entry last).n_height in
      let c = active-IsCoherent chain old active in
      let (chain', fork, e, made, m) =
        fill-IsChainOf (resize chain n) (resize-IsCoherent chain n c) last n n (resize chain n)
          (some last) (omega arith) (refl, here last last refl)
          (record {
            size = length-resize chain n;
            has = λ a l high. absurd (omega (arith, high, Ancestor-height entry base w last a l));
            only = λ i a high e. absurd (ground (arith, high, sym (block_at-resize chain n i) ∙ e));
            below = λ i low. refl;
            unknown =
                λ a l high. absurd (omega (arith, high, Ancestor-height entry base w last a l));
          }) in
      (chain', fork, e, made, resized_meeting chain last fork (resize-IsCoherent chain n c) m)
