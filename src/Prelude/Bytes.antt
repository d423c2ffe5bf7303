-- ===== src/Prelude/Bytes.antt =====
-- Range checks on byte vectors: std::find_if with a bound, and what it says of every entry.
use Prim.Native.Nat.{ℕ, ◌+◌, ◌≤◌, ◌<◌}
use mathlib.Core.Path.{◌≡◌, refl}
use mathlib.Core.Logic.{◌↔◌}
use mathlib.Core.Bool.{false}
use mathlib.Core.List.{List, [], ◌∷◌}
use native.Mathlib.Omega.{arith}
use dsvalue.Prelude.Tests.{ltb}
use dsvalue.Prelude.Lists.{length, any, All, contains}
use dsvalue.Prelude.Sorted.{Ascending, Rises}

-- No entry is above `b`.
pub none_above : (b : ℕ) (v : List ℕ) → (any (λ no. ltb b no) v ≡ false) ↔ All (λ no. no ≤ b) v
none_above b v = (to v, from v)
  where
    to : (v : List ℕ) → any (λ no. ltb b no) v ≡ false → All (λ no. no ≤ b) v
    to [] h = tt
    to (x ∷ xs) h = (ground arith, to xs (ground arith))

    from : (v : List ℕ) → All (λ no. no ≤ b) v → any (λ no. ltb b no) v ≡ false
    from [] h = refl
    from (x ∷ xs) h = ground (arith, from xs h.1)

-- No entry is below `b`.
pub none_below : (b : ℕ) (v : List ℕ) → (any (λ no. ltb no b) v ≡ false) ↔ All (λ no. b ≤ no) v
none_below b v = (to v, from v)
  where
    to : (v : List ℕ) → any (λ no. ltb no b) v ≡ false → All (λ no. b ≤ no) v
    to [] h = tt
    to (x ∷ xs) h = (ground arith, to xs (ground arith))

    from : (v : List ℕ) → All (λ no. b ≤ no) v → any (λ no. ltb no b) v ≡ false
    from [] h = refl
    from (x ∷ xs) h = ground (arith, from xs h.1)

Rises-length : (l b : ℕ) (v : List ℕ) → Rises l v → All (λ no. no ≤ b) v → l ≤ b → length v + l ≤ b
Rises-length l b [] r h k = omega arith
Rises-length l b (x ∷ xs) r h k = omega (arith, Rises-length x b xs r.1 h.1 h.0)

-- Strictly rising entries between 1 and `b` are at most `b` many.
pub Ascending-length :
    (b : ℕ) (v : List ℕ) → Ascending v → All (λ no. 1 ≤ no) v → All (λ no. no ≤ b) v → length v ≤ b
Ascending-length b [] r l h = omega arith
Ascending-length b (x ∷ xs) r l h = omega (arith, Rises-length x b xs r h.1 h.0, l.0)

-- Entries that stay below a value do not hold it.
pub below_excludes : (b a : ℕ) (v : List ℕ) → All (λ no. no ≤ b) v → b < a → contains v a ≡ false
below_excludes b a [] h k = refl
below_excludes b a (x ∷ xs) h k = ground (arith, below_excludes b a xs h.1 k)
