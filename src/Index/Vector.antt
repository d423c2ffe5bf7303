-- ===== src/Index/Vector.antt =====
-- The vector of a chain, resized and written (src/main.h: CChain).
use dsvalue.Prelude.{
  ℕ, zero, suc, ◌<◌, ◌≡◌, refl, ap, [], ◌∷◌, Option, none, if◌then◌else◌, ltb, ◌==◌, length, set,
  arith,
}
use dsvalue.Index.{IndexChain, block_at, resize}

pub block_at-set :
    (chain : IndexChain) (i j : ℕ) (p : Option ℕ)
    → i < length chain
    → block_at (set chain i p) j ≡ (if i == j then p else block_at chain j)
block_at-set [] i j p h = absurd (omega (arith, h))
block_at-set (x ∷ xs) zero zero p h = ground arith
block_at-set (x ∷ xs) zero (suc j) p h = ground arith
block_at-set (x ∷ xs) (suc i) zero p h = ground arith
block_at-set (x ∷ xs) (suc i) (suc j) p h = ground (arith, block_at-set xs i j p (omega (arith, h)))

pub length-set : (chain : IndexChain) (i : ℕ) (p : Option ℕ) → length (set chain i p) ≡ length chain
length-set [] i p = refl
length-set (x ∷ xs) zero p = refl
length-set (x ∷ xs) (suc i) p = ap suc (length-set xs i p)

pub block_at-resize :
    (chain : IndexChain) (n i : ℕ)
    → block_at (resize chain n) i ≡ (if ltb i n then block_at chain i else none)
unfolding resize
block_at-resize chain zero i = ground arith
block_at-resize [] (suc n) zero = ground arith
block_at-resize [] (suc n) (suc i) = ground (arith, block_at-resize [] n i)
block_at-resize (x ∷ xs) (suc n) zero = ground arith
block_at-resize (x ∷ xs) (suc n) (suc i) = ground (arith, block_at-resize xs n i)

pub length-resize : (chain : IndexChain) (n : ℕ) → length (resize chain n) ≡ n
unfolding resize
length-resize chain zero = refl
length-resize [] (suc n) = ap suc (length-resize [] n)
length-resize (x ∷ xs) (suc n) = ap suc (length-resize xs n)
