-- ===== src/Index/Order.antt =====
-- The order of the candidates for the tip (src/main.h: CBlockIndexWorkComparator).
use dsvalue.Prelude.{
  ℕ, ◌≡◌, ◌≢◌, true, false, not, ◌&&◌, if◌then◌else◌, ◌==◌, Bool-cases, inl, inr, arith,
}
use dsvalue.Index.{IndexEntry, earlier_last, keyed_last, work_less}

earlier_trans :
    (a b c : IndexEntry) (p q r : ℕ)
    → earlier_last a b p q ≡ true
    → earlier_last b c q r ≡ true
    → earlier_last a c p r ≡ true
unfolding earlier_last
earlier_trans a b c p q r h k = ground arith

keyed_trans :
    (a b c : IndexEntry) (p q r : ℕ)
    → keyed_last a b p q ≡ true
    → keyed_last b c q r ≡ true
    → keyed_last a c p r ≡ true
unfolding keyed_last
keyed_trans a b c p q r h k = ground (arith, earlier_trans a b c p q r)

earlier_total :
    (a b : IndexEntry) (p q : ℕ) → p ≢ q → earlier_last a b p q ≡ not (earlier_last b a q p)
unfolding earlier_last
earlier_total a b p q h = ground arith

keyed_total : (a b : IndexEntry) (p q : ℕ) → p ≢ q → keyed_last a b p q ≡ not (keyed_last b a q p)
unfolding keyed_last
keyed_total a b p q h = ground (arith, earlier_total a b p q h)

module _ (entry : ℕ → IndexEntry) where
  pub work_less_trans :
      (p q r : ℕ)
      → work_less entry p q ≡ true
      → work_less entry q r ≡ true
      → work_less entry p r ≡ true
  unfolding work_less
  work_less_trans p q r h k = ground (arith, keyed_trans (entry p) (entry q) (entry r) p q r)

  pub work_less-total : (p q : ℕ) → p ≢ q → work_less entry p q ≡ not (work_less entry q p)
  unfolding work_less
  work_less-total p q h = ground (arith, keyed_total (entry p) (entry q) p q h)

  pub work_less_irrefl : (p : ℕ) → work_less entry p p ≡ false
  unfolding work_less keyed_last earlier_last
  work_less_irrefl p = ground arith

  -- The comparator of the lottery chain is a strict order of the blocks that leaves no two different
  -- blocks equal, as the std::set of the candidates needs it: a block that comes before one that comes
  -- before a third comes before that, no block comes before itself, and of two different blocks
  -- exactly one comes before the other.
  pub work_less_ordered :
      (p q r : ℕ)
      → ((work_less entry p q && work_less entry q r && not (work_less entry p r)) ≡ false)
        × (work_less entry p q ≡ (if p == q then false else not (work_less entry q p)))
  work_less_ordered p q r = (
    elim (Bool-cases (work_less entry p q && work_less entry q r)) [
      | inl both ↦ ground (arith, work_less_trans p q r, both)
      | inr apart ↦ ground (arith, apart)
    ],
    elim (Bool-cases (p == q)) [
      | inl e ↦ ground (arith, e, work_less_irrefl p)
      | inr e ↦ ground (arith, e, work_less-total p q)
    ],
  )
