-- ===== src/BitcoinNet/Choice.antt =====
-- The chain that FindMostWorkChain chooses and ConnectBestBlock makes active
-- (src/bitcoinnet/CChainManager.cpp).
use dsvalue.Prelude.{
  ℕ, zero, suc, ◌<◌, ◌≡◌, ◌⊎◌, refl, true, false, List, [], ◌∷◌, Option, none, some, ok, length,
  arith, Bool-cases, Option-cases, inl, inr, All,
}
use dsvalue.Index.{IndexEntry, IndexChain, tip, chain_contains}
use dsvalue.Index.Ancestors.{IsIndex, IsChainOf}
use dsvalue.BitcoinNet.Order.{header_less_trans, header_less_irrefl}
use dsvalue.Index.Tip.{IsActive, set_tip-IsActive}
use dsvalue.BitcoinNet.{
  header_less, ChainManager, last_valid, no_better, drop_failed, failed_ancestor, find_candidate,
  find_most_work_chain,
}
use dsvalue.BitcoinNet.Parts.{tip_of}

-- The candidates stand in the order of the comparator.
abbrev pub IsOrdered : (ℕ → IndexEntry) → List ℕ → Type 0
IsOrdered entry [] = Unit
IsOrdered entry (p ∷ valid) = All (λ q. header_less entry p q ≡ true) valid × IsOrdered entry valid

-- No candidate comes behind the block.
abbrev pub NoneBehind : (ℕ → IndexEntry) → ℕ → List ℕ → Type 0
NoneBehind entry m valid = All (λ p. header_less entry m p ≡ false) valid

none_behind_step :
    (entry : ℕ → IndexEntry) (m p n : ℕ)
    → header_less entry m n ≡ false
    → header_less entry p n ≡ true
    → header_less entry m p ≡ false
none_behind_step entry m p n h k = elim (Bool-cases (header_less entry m p)) [
  | inl e ↦ absurd (ground (arith, header_less_trans entry m p n e k, h))
  | inr e ↦ e
]

last-member :
    (entry : ℕ → IndexEntry) (p n : ℕ) (valid : List ℕ)
    → All (λ q. header_less entry p q ≡ true) valid
    → last_valid valid ≡ some n
    → header_less entry p n ≡ true
last-member entry p n [] a e = absurd (ground arith)
last-member entry p n (q ∷ []) a e = ground (arith, a.0, e)
last-member entry p n (q ∷ r ∷ valid) a e = last-member entry p n (r ∷ valid) (a.1) e

-- The last candidate is the best one.
last-NoneBehind :
    (entry : ℕ → IndexEntry) (m n : ℕ) (valid : List ℕ)
    → IsOrdered entry valid
    → last_valid valid ≡ some n
    → header_less entry m n ≡ false
    → NoneBehind entry m valid
last-NoneBehind entry m n [] o e h = tt
last-NoneBehind entry m n (p ∷ []) o e h = (ground (arith, e, h), tt)
last-NoneBehind entry m n (p ∷ q ∷ valid) o e h = (
  none_behind_step entry m p n h (last-member entry p n (q ∷ valid) (o.0) e),
  last-NoneBehind entry m n (q ∷ valid) (o.1) e h,
)

module _ (s : ChainManager) (base : ℕ) (w : IsIndex s.entry base)
    (sound : (p : ℕ) → (s.entry p).f_failed ≡ false) where
  drop_failed-none : (fuel : ℕ) → drop_failed (suc fuel) s ≡ ok s
  unfolding drop_failed
  drop_failed-none fuel = elim (Option-cases (tip s.chain_most_work)) [
    | inl e ↦ rw (e, drop_failed) refl
    | inr (p, e) ↦ rw (e, drop_failed) (rw (sound p) refl)
  ]

  failed_ancestor-none :
      (fuel p : ℕ) → (s.entry p).n_height < fuel → failed_ancestor fuel s (some p) ≡ ok none
  unfolding failed_ancestor
  failed_ancestor-none zero p h = absurd (omega (arith, h))
  failed_ancestor-none (suc fuel) p h =
      elim (Bool-cases (chain_contains s.entry s.chain_active p)) [
        | inl there ↦ rw there refl
        | inr other ↦
            rw (other, sound p)
              (elim (Option-cases ((s.entry p).pprev)) [
                | inl root ↦ rw root refl
                | inr (q, link) ↦
                    rw link (failed_ancestor-none fuel q (omega (arith, w.linked p q link, h)))
              ])
      ]

  find_candidate-last :
      (fuel n : ℕ) → last_valid s.valid ≡ some n → find_candidate (suc fuel) s ≡ ok (s, some n)
  unfolding find_candidate
  find_candidate-last fuel n e =
      let clean = failed_ancestor-none (suc (s.entry n).n_height) n (omega arith) in
      rw (e, find_candidate) (rw clean refl)

  -- What FindMostWorkChain leaves: a chain, the one of the last candidate or the one from before, and no
  -- candidate that comes behind its last block.
  pub record IsChosen (best : Option ℕ) (n : ℕ) (s' : ChainManager) : Type 0 where
    pub most : ℕ
    pub chain : IndexChain
    pub state : s' ≡ record s { chain_most_work = chain }
    pub is_chain : IsChainOf s.entry chain most
    pub last : NoneBehind s.entry most s.valid
    pub origin : (most ≡ n) ⊎ (best ≡ some most)

  pub find_most_work_chain-IsChosen :
      (best : Option ℕ) (n : ℕ)
      → IsActive s.entry s.chain_most_work best
      → IsOrdered s.entry s.valid
      → last_valid s.valid ≡ some n
      → (s' : ChainManager) × (find_most_work_chain s ≡ ok s') × IsChosen best n s'
  unfolding find_most_work_chain
  find_most_work_chain-IsChosen best n a o e =
      let kept = drop_failed-none (length s.chain_most_work) in
      let found = find_candidate-last (length s.valid) n e in
      elim (Bool-cases (no_better s n)) [
        | inl worse ↦ (s, rw (kept, found, worse) refl, stays best a worse)
        | inr better ↦
            let (chain, f, made, is_chain, _) =
              set_tip-IsActive s.entry base w s.chain_most_work best n a in
            (
              record s { chain_most_work = chain },
              rw (kept, found, better, made) refl,
              record {
                most = n;
                chain = chain;
                state = refl;
                is_chain = is_chain;
                last = last-NoneBehind s.entry n n s.valid o e (header_less_irrefl s.entry n);
                origin = inl refl;
              },
            )
      ]
    where
      stays :
          (best : Option ℕ)
          → IsActive s.entry s.chain_most_work best
          → no_better s n ≡ true
          → IsChosen best n s
      stays none a worse = absurd (ground (arith, rw a at worse))
      stays (some m) a worse =
          let t = tip_of s.entry s.chain_most_work m a in
          let behind : header_less s.entry m n ≡ false =
            ground (arith, rw (t, no_better) at worse) in
          record {
            most = m;
            chain = s.chain_most_work;
            state = refl;
            is_chain = a;
            last = last-NoneBehind s.entry m n s.valid o e behind;
            origin = inr refl;
          }
