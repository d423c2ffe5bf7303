-- ===== src/Lotto/Bet/Pick156/Valid.antt =====
-- What CBet_15_6::IsValid accepts.
use dsvalue.Prelude.{
  ℕ, ◌^◌, ◌*◌, ◌≤◌, ◌<◌, ◌≡◌, ◌↔◌, ◌⊎◌, inl, inr, true, false, ok, arith, length, All, ltb,
  Bool-cases,
}
use dsvalue.Prelude.Int.{ℤ, pos, ◌<ℤ◌, mul64-pos}
use dsvalue.Prelude.Sorted.{Ascending}
use dsvalue.Lotto.Data.{type_15_6}
use dsvalue.Lotto.Select.Binomial.{binom, m_select_n-binom}
use dsvalue.Lotto.Bet.{Bet, is_underpaid, base_is_valid}
use dsvalue.Lotto.Bet.Pick156.{is_valid, get_total_ber}

-- A well-formed bet: 6 to 15 distinct numbers from 1 to 15 in rising order, and more than the
-- minimal stake for each of its combinations.
pub record IsProper (b : Bet) : Type 0 where
  pub enough : 6 ≤ length b.vch
  pub rising : Ascending b.vch
  pub positive : All (λ no. 1 ≤ no) b.vch
  pub bounded : All (λ no. no ≤ 15) b.vch
  pub paid : pos (100000 * binom (length b.vch) 6) <ℤ b.n_value

pub get_total_ber-binom :
    (b : Bet)
    → b.bet_type ≡ type_15_6
    → length b.vch ≤ 20
    → get_total_ber b ≡ ok (pos (binom (length b.vch) 6))
unfolding get_total_ber
get_total_ber-binom b t h = rw t (m_select_n-binom (length b.vch) 6 h)

-- The stake test, where the product fits.
pub underpaid_iff :
    (n : ℕ) (v : ℤ) → n < 2 ^ 31 → (is_underpaid (pos n) v ≡ false) ↔ (pos (100000 * n) <ℤ v)
unfolding is_underpaid
underpaid_iff n v h =
    let e = mul64-pos 100000 n (omega arith) in (λ k. ground (arith, e), λ k. ground (arith, e))

any_cases :
    (b : Bet)
    → b.bet_type ≡ type_15_6
    → length b.vch ≤ 15
    → (is_valid b ≡ ok true) ⊎ (is_valid b ≡ ok false)
unfolding is_valid base_is_valid
any_cases b t h = let e = get_total_ber-binom b t (omega arith) in ground (arith, e)

too_long : (b : Bet) → b.bet_type ≡ type_15_6 → 15 < length b.vch → is_valid b ≡ ok false
unfolding is_valid
too_long b t h = ground arith

-- On a bet of its type IsValid returns, with no fault.
pub is_valid-total :
    (b : Bet) → b.bet_type ≡ type_15_6 → (is_valid b ≡ ok true) ⊎ (is_valid b ≡ ok false)
is_valid-total b t = elim (Bool-cases (ltb 15 (length b.vch))) [
  | inl e ↦ inr (too_long b t (ground arith))
  | inr e ↦ any_cases b t (ground arith)
]
