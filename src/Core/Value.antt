-- ===== src/Core/Value.antt =====
-- What CTransaction::GetValueOut returns.
use dsvalue.Prelude.{
  ℕ, ◌+◌, ◌≤◌, ◌≡◌, ◌↔◌, ◌⊎◌, refl, true, false, ◌&&◌, List, [], ◌∷◌, ok, arith, All, leb,
  Bool-cases, inl, inr, ◌>>◌, guard, thrown,
}
use dsvalue.Prelude.Int.{ℤ, pos, negsuc, pos_part, add64-pos, add64, ◌≤ℤ◌}
use dsvalue.Core.{TxOut, Transaction, max_money, money_range, value_out_from, get_value_out}

abbrev pub value_sum : List TxOut → ℕ
value_sum [] = 0
value_sum (txout ∷ vout) = pos_part txout.n_value + value_sum vout

abbrev pub InRange : TxOut → Type 0
InRange txout = (pos 0 ≤ℤ txout.n_value) × (txout.n_value ≤ℤ pos max_money)

range_pos : (v : ℤ) → money_range v ≡ true → (n : ℕ) × (v ≡ pos n) × (n ≤ max_money)
range_pos (pos n) h = (n, refl, ground arith)
range_pos (negsuc n) h = absurd (ground arith)

sign : (z : ℤ) → ((n : ℕ) × (z ≡ pos n)) ⊎ ((n : ℕ) × (z ≡ negsuc n))
sign (pos n) = inl (n, refl)
sign (negsuc n) = inr (n, refl)

-- A sum above the limit is refused: by the first test where it wraps around.
refused :
    (a n : ℕ) (vout : List TxOut) (v : ℤ)
    → leb (a + n) max_money ≡ false
    → a ≤ max_money
    → (guard (money_range (pos n) && money_range (add64 (pos a) (pos n))) thrown
        >> value_out_from (add64 (pos a) (pos n)) vout)
      ≡ ok v
    → ⊥
refused a n vout v big h k = elim (Bool-cases (leb n max_money)) [
  | inl small ↦ let sum = add64-pos a n (ground arith) in ground (arith, sum)
  | inr large ↦ ground arith
]

value_out_from-sum :
    (a : ℕ) (vout : List TxOut) (v : ℤ)
    → a ≤ max_money
    → (value_out_from (pos a) vout ≡ ok v)
      ↔ (All InRange vout × (a + value_sum vout ≤ max_money) × (v ≡ pos (a + value_sum vout)))
unfolding value_out_from
value_out_from-sum a [] v h = (λ e. (tt, omega arith, ground arith), λ p. ground arith)
value_out_from-sum a (txout ∷ vout) v h = elim (sign txout.n_value) [
  | inl (n, e) ↦ rw e (elim (Bool-cases (leb (a + n) max_money)) [
    | inl fits ↦
        let small : a + n ≤ max_money = ground arith in
        let (there, back) = value_out_from-sum (a + n) vout v small in
        rw (add64-pos a n (omega arith)) (λ k. ground (arith, there), λ p. ground (arith, back))
    | inr big ↦ (λ k. absurd (refused a n vout v big h k), λ p. absurd (ground arith))
  ])
  | inr (n, e) ↦ rw e (λ k. ground arith, λ p. absurd (omega arith))
]

add_zero : (n : ℕ) → 0 + n ≡ n
add_zero n = omega arith

-- GetValueOut returns the sum of the outputs, exactly when each of them and their sum are from 0 to
-- the greatest amount of money; otherwise it throws.
pub get_value_out-sum :
    (t : Transaction) (v : ℤ)
    → (get_value_out t ≡ ok v)
      ↔ (All InRange t.vout × (value_sum t.vout ≤ max_money) × (v ≡ pos (value_sum t.vout)))
unfolding get_value_out
get_value_out-sum t v =
    rw (← add_zero (value_sum t.vout)) (value_out_from-sum 0 t.vout v (omega arith))
