-- ===== src/Lotto/Bet/Mulity/Overflow.antt =====
-- CBetMulity::IsValid where the combinations overflow.
use dsvalue.Prelude.{ℕ, suc, ◌+◌, ◌≤◌, ◌≡◌, refl, ◌∙◌, true, false, List, ok, arith, length}
use dsvalue.Prelude.Int.{pos, negsuc, mul32, mul64}
use dsvalue.Prelude.Bytes.{Ascending-length}
use dsvalue.Lotto.Data.{type_mulilt}
use dsvalue.Lotto.Select.{m_select_n}
use dsvalue.Lotto.Select.Binomial.{binom, m_select_n-binom, binom_pairs}
use dsvalue.Lotto.Bet.{Bet, is_underpaid}
use dsvalue.Lotto.Bet.Mulity.{is_valid, get_total_ber}
use dsvalue.Lotto.Bet.Mulity.Valid.{Splits, IsProper, length-Splits, split_iff, valid_split}

-- With 21 red numbers the factorial overflows.
select_21_5 : m_select_n (pos 21) (pos 5) ≡ ok (negsuc 1691)
unfolding m_select_n
select_21_5 = refl

overflowing_total :
    (v red blue : List ℕ)
    → Splits v red blue
    → length red ≡ 21
    → length blue ≤ 11
    → get_total_ber v ≡ ok (mul32 (negsuc 1691) (pos (binom (length blue) 2)))
unfolding get_total_ber
overflowing_total v red blue s hr hb =
    rw (s, get_total_ber, hr, select_21_5) (rw (m_select_n-binom (length blue) 2 (omega arith)))

-- The minimal stake is then negative or zero.
negative_stake :
    (n v : ℕ) → n ≤ 121 → is_underpaid (mul32 (negsuc 1691) (pos n)) (pos (suc v)) ≡ false
unfolding is_underpaid mul32 mul64
negative_stake n v h = ground arith

-- Every proper selection with 21 red numbers is accepted at any stake above zero, however
-- small, although it stands for 20349 combinations of red numbers.
pub is_valid_overflow :
    (b : Bet) (red blue : List ℕ) (v : ℕ)
    → b.bet_type ≡ type_mulilt
    → Splits b.vch red blue
    → IsProper red blue
    → length red ≡ 21
    → b.n_value ≡ pos (suc v)
    → is_valid b ≡ ok true
is_valid_overflow b red blue v t s p hr e =
    valid_split b red blue t s hi lo
    ∙ (split_iff b red blue _ s hi (overflowing_total b.vch red blue s hr hb)).1 (p, stake)
  where
    size : length b.vch ≡ length red + suc (length blue)
    size = length-Splits b.vch red blue s

    hi : length b.vch ≤ 31
    hi = omega (arith, size, p.short)

    lo : 7 ≤ length b.vch
    lo = omega (arith, size, p.enough_red, p.enough_blue)

    hb : length blue ≤ 11
    hb = Ascending-length 11 blue p.rising_blue p.positive_blue p.bounded_blue

    stake : is_underpaid (mul32 (negsuc 1691) (pos (binom (length blue) 2))) b.n_value ≡ false
    stake = rw e (negative_stake (binom (length blue) 2) v (binom_pairs (length blue) hb))
