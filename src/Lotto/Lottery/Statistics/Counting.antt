-- ===== src/Lotto/Lottery/Statistics/Counting.antt =====
-- The totals that CLotto::CreateStatisticsRewardMap counts are not negative.
use dsvalue.Prelude.{
  ℕ, zero, suc, ◌≡◌, refl, List, [], ◌∷◌, ok, arith, All, if◌then◌else◌, Bool-cases, inl, inr,
  >>=-eq-ok,
}
use dsvalue.Prelude.Int.{ℤ, pos, negsuc}
use dsvalue.Prelude.Double.{
  to_double, add_double, mul_double, to_int64, to_double-NonNeg, add_double-NonNeg,
  mul_double-NonNeg,
}
use dsvalue.Prelude.Map.{Map, get_or, AllValues, AllValues-insert, AllValues-get_or}
use dsvalue.Lotto.Bet.{is_winning}
use dsvalue.Lotto.Bet.Pick156
use dsvalue.Lotto.Bet.Mulity
use dsvalue.Lotto.Lottery.{SomeBet, cbet_15_6, cbet_mulity, base, get_mulit}
use dsvalue.Lotto.Lottery.Statistics.{Totals, count_reward, count_rewards}
use dsvalue.Lotto.Lottery.Statistics.Division.{NonNeg}

-- The rewards of a bet are not negative.
abbrev pub NonNegRewards : SomeBet → Type 0
NonNegRewards b = AllValues NonNeg (base b).rewardmap

mulit-NonNeg : (b : SomeBet) (rwd : ℕ) (multi : ℤ) → get_mulit b rwd ≡ ok multi → NonNeg multi
unfolding Pick156.get_mulit Mulity.get_mulit
mulit-NonNeg (cbet_15_6 b) zero multi e = ground arith
mulit-NonNeg (cbet_15_6 b) (suc zero) multi e = ground arith
mulit-NonNeg (cbet_15_6 b) (suc (suc zero)) multi e = ground arith
mulit-NonNeg (cbet_15_6 b) (suc (suc (suc rwd))) multi e = cc
mulit-NonNeg (cbet_mulity b) zero multi e = ground arith
mulit-NonNeg (cbet_mulity b) (suc zero) multi e = ground arith
mulit-NonNeg (cbet_mulity b) (suc (suc zero)) multi e = ground arith
mulit-NonNeg (cbet_mulity b) (suc (suc (suc zero))) multi e = ground arith
mulit-NonNeg (cbet_mulity b) (suc (suc (suc (suc zero)))) multi e = ground arith
mulit-NonNeg (cbet_mulity b) (suc (suc (suc (suc (suc rwd))))) multi e = cc

double_sum :
    (total multi v sum : ℤ)
    → NonNeg total
    → NonNeg multi
    → NonNeg v
    → to_int64 (add_double (to_double total) (mul_double (to_double multi) (to_double v))) ≡ ok sum
    → NonNeg sum
double_sum (negsuc n) multi v sum p q r e = absurd (omega arith)
double_sum (pos n) (negsuc k) v sum p q r e = absurd (omega arith)
double_sum (pos n) (pos k) (negsuc i) sum p q r e = absurd (omega arith)
double_sum (pos n) (pos k) (pos i) sum p q r e =
    let (n', en) = to_double-NonNeg n in
    let (k', ek) = to_double-NonNeg k in
    let (i', ei) = to_double-NonNeg i in
    let (product, ep) = mul_double-NonNeg k' i' in
    let (s, es) = add_double-NonNeg n' product in
    unfold to_int64 in ground (arith, en, ek, ei, ep, es)

count_reward-NonNeg :
    (b : SomeBet) (reward : Map ℤ) (t next : Totals)
    → AllValues NonNeg reward
    → AllValues NonNeg t.reward_total
    → count_reward b reward t ≡ ok next
    → AllValues NonNeg next.reward_total
unfolding count_reward
count_reward-NonNeg b [] t next r n e = let same : t ≡ next = cc in rw (← same) n
count_reward-NonNeg b ((rwd, v) ∷ reward) t next r n e =
    let old = AllValues-get_or NonNeg rwd t.reward_total (pos 0) refl n in
    let (multi, f, g) = >>=-eq-ok (get_mulit b rwd) _ e in
    let (total, f', g') =
      >>=-eq-ok
        (to_int64 (
          add_double (to_double (get_or rwd t.reward_total (pos 0)))
            (mul_double (to_double multi) (to_double v))))
        _ g in
    let (value, f'', g'') =
      >>=-eq-ok (to_int64 (mul_double (to_double multi) (to_double v))) _ g' in
    let new =
      double_sum (get_or rwd t.reward_total (pos 0)) multi v total old (mulit-NonNeg b rwd multi f)
        r.0 f' in
    count_reward-NonNeg b reward _ next r.1 (AllValues-insert NonNeg rwd total t.reward_total new n)
      g''

pub count_rewards-NonNeg :
    (v_bet : List SomeBet) (t next : Totals)
    → All NonNegRewards v_bet
    → AllValues NonNeg t.reward_total
    → count_rewards v_bet t ≡ ok next
    → AllValues NonNeg next.reward_total
unfolding count_rewards
count_rewards-NonNeg [] t next r n e = let same : t ≡ next = cc in rw (← same) n
count_rewards-NonNeg (b ∷ v_bet) t next r n e =
    let (mid, f, g) =
      >>=-eq-ok (if is_winning (base b) then count_reward b (base b).rewardmap t else ok t) _ e in
    count_rewards-NonNeg v_bet mid next r.1 (one mid f) g
  where
    one :
        (mid : Totals)
        → (if is_winning (base b) then count_reward b (base b).rewardmap t else ok t) ≡ ok mid
        → AllValues NonNeg mid.reward_total
    one mid f = elim (Bool-cases (is_winning (base b))) [
      | inl l ↦ count_reward-NonNeg b (base b).rewardmap t mid r.0 n (rw l at f)
      | inr l ↦ let same : t ≡ mid = ground arith in rw (← same) n
    ]
