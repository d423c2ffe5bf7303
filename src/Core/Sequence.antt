-- ===== src/Core/Sequence.antt =====
-- When CTransaction::IsNewerThan holds.
use dsvalue.Prelude.{
  ℕ, ◌^◌, ◌<◌, ◌≡◌, ◌↔◌, ◌⊎◌, ◌-◌, refl, Bool, true, false, ◌&&◌, List, [], ◌∷◌, arith, All,
  if◌then◌else◌, ltb, leb, ◌==◌, Bool-cases, inl, inr,
}
use dsvalue.Core.{TxIn, Transaction, same_prevouts, newer_loop, is_newer_than}

abbrev min : ℕ → ℕ → ℕ
min a b = if leb a b then a else b

-- The lowest number that the first list has where the two differ; 2^32 if they do not.
unfoldable pub lowest_new : List TxIn → List TxIn → ℕ
lowest_new (a ∷ vin) (b ∷ old) =
    let rest = lowest_new vin old in
    if a.n_sequence == b.n_sequence then rest else min a.n_sequence rest
lowest_new _ _ = 2 ^ 32

-- The lowest number that the second list has there.
abbrev pub lowest_old : List TxIn → List TxIn → ℕ
lowest_old vin old = lowest_new old vin

-- The flag that the loop leaves, by the two lowest numbers.
newer_loop-lowest :
    (vin old : List TxIn) (f : Bool) (low : ℕ)
    → low < 2 ^ 32
    → (newer_loop vin old (f, low)).0 ≡ (
        if ltb (lowest_new old vin) (lowest_new vin old) && ltb (lowest_new old vin) low
        then true
        else if leb (lowest_new vin old) low
        then false
        else f)
unfolding newer_loop lowest_new
newer_loop-lowest [] [] f low h = ground arith
newer_loop-lowest [] (b ∷ old) f low h = ground arith
newer_loop-lowest (a ∷ vin) [] f low h = ground arith
newer_loop-lowest (a ∷ vin) (b ∷ old) f low h = elim (Bool-cases (a.n_sequence == b.n_sequence)) [
  | inl e ↦ ground (arith, newer_loop-lowest vin old f low h)
  | inr e ↦ elim (Bool-cases (leb a.n_sequence low)) [
    | inl l ↦ elim (Bool-cases (ltb b.n_sequence a.n_sequence)) [
      | inl m ↦ ground (arith, newer_loop-lowest vin old true b.n_sequence (ground arith))
      | inr m ↦ ground (arith, newer_loop-lowest vin old false a.n_sequence (ground arith))
    ]
    | inr l ↦ elim (Bool-cases (ltb b.n_sequence low)) [
      | inl m ↦ ground (arith, newer_loop-lowest vin old true b.n_sequence (ground arith))
      | inr m ↦ ground (arith, newer_loop-lowest vin old f low h)
    ]
  ]
]

-- Whether all sequence numbers of the inputs are 32 bits wide.
abbrev pub Narrow : List TxIn → Type 0
Narrow vin = All (λ txin. txin.n_sequence < 2 ^ 32) vin

-- Where the sequence numbers differ, both lists have one; where they do not, neither has.
lowest_both :
    (vin old : List TxIn)
    → Narrow vin
    → Narrow old
    → ((lowest_new vin old < 2 ^ 32) × (lowest_new old vin < 2 ^ 32))
      ⊎ ((lowest_new vin old ≡ 2 ^ 32) × (lowest_new old vin ≡ 2 ^ 32))
unfolding lowest_new
lowest_both [] [] p q = inr (refl, refl)
lowest_both [] (b ∷ old) p q = inr (refl, refl)
lowest_both (a ∷ vin) [] p q = inr (refl, refl)
lowest_both (a ∷ vin) (b ∷ old) p q = elim (Bool-cases (a.n_sequence == b.n_sequence)) [
  | inl e ↦ ground (arith, lowest_both vin old p.1 q.1)
  | inr e ↦ inl (ground arith)
]

-- For sequence numbers of 32 bits, a transaction is newer than another exactly when both spend the
-- same outputs in the same order and, among the inputs whose sequence numbers differ, the lowest
-- number of the other is below every number of the transaction itself.
pub is_newer_than-lowest :
    (t old : Transaction)
    → Narrow t.vin
    → Narrow old.vin
    → (is_newer_than t old ≡ true) ↔ (
        (same_prevouts t.vin old.vin ≡ true)
        × (lowest_old t.vin old.vin < lowest_new t.vin old.vin))
unfolding is_newer_than
is_newer_than-lowest t old p q =
    let loop = newer_loop-lowest t.vin old.vin false (2 ^ 32 - 1) (omega arith) in
    let both = lowest_both t.vin old.vin p q in
    (λ k. ground (arith, loop, both), λ k. ground (arith, loop, both))
