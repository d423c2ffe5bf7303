-- ===== src/Lotto/Bet/Pick156.antt =====
-- The bet "6 numbers out of 15": class CBet_15_6 (src/lotto/CBet156.h, CBet156.cpp).
pub mod Valid
pub mod Rewards
use dsvalue.Prelude.{
  ℕ, zero, suc, ◌+◌, ◌≡◌, refl, Bool, true, false, not, ◌||◌, List, [], ◌∷◌, Option, none, some,
  Result, ok, err, Error, ◌>>=◌, ◌>>◌, guard, if◌then◌else◌, length, ltb, any, count_if, contains,
  list_eq, get_elem?,
}
use dsvalue.Prelude.Int.{mul32, ℤ, pos, negsuc, div64, ◌-ℤ◌}
use dsvalue.Prelude.Sorted.{sort}
use dsvalue.Prelude.Map.{Map}
use dsvalue.Lotto.Data.{BetType, type_15_6, type_mulilt, typenull, top_1, top_2, top_3}
use dsvalue.Lotto.Select.{m_select_n}
use dsvalue.Lotto.Bet.{Bet, base_is_valid, put_reward, scale_reward}

abbrev pub read_max156_no : ℕ
read_max156_no = 15

abbrev pub is_15_6 : BetType → Bool
is_15_6 type_15_6 = true
is_15_6 type_mulilt = false
is_15_6 typenull = false

-- CBet_15_6::getTotalBer
unfoldable pub get_total_ber : Bet → Result ℤ
get_total_ber b = do
  guard (is_15_6 b.bet_type) Error.assertion
  m_select_n (pos (length b.vch)) (pos 6)

-- CBet_15_6::IsValid
unfoldable pub is_valid : Bet → Result Bool
unfolding get_total_ber base_is_valid
is_valid b =
    guard (is_15_6 b.bet_type) Error.assertion
    >> (if ltb 15 (length b.vch) || ltb (length b.vch) 6
        then ok false
        else if any (λ no. ltb read_max156_no no) b.vch
        then ok false
        else if any (λ no. ltb no 1) b.vch
        then ok false
        else if not (list_eq b.vch (sort b.vch))
        then ok false
        else base_is_valid (get_total_ber b) b)

-- The count of winning combinations of one prize level: MselectN(luckycount, hits) *
-- MselectN(selectCount - luckycount, misses).
unfoldable pub level_count : ℕ → ℕ → ℕ → ℕ → Result ℤ
level_count select lucky hits misses = do
  a ← m_select_n (pos lucky) (pos hits)
  b ← m_select_n (pos select -ℤ pos lucky) (pos misses)
  ok (mul32 a b)

-- The part of CreateRewardMap that writes the map: the counts first, then their values.
unfoldable pub fill_rewards : ℤ → ℤ → ℤ → ℤ → Map ℤ
fill_rewards npeer_bet_value ktop1 ktop2 ktop3 =
    let counts = put_reward top_3 ktop3 (put_reward top_2 ktop2 (put_reward top_1 ktop1 [])) in
    scale_reward top_3 npeer_bet_value
      (scale_reward top_2 npeer_bet_value (scale_reward top_1 npeer_bet_value counts))

-- CBet_15_6::CreateRewardMap
unfoldable pub create_reward_map : Bet → Result Bet
unfolding get_total_ber level_count
create_reward_map b = do
  let luckycount = count_if (contains b.v_lucky_star) b.vch
  let select_count = length b.vch
  total ← get_total_ber b
  npeer_bet_value ← div64 b.n_value total
  ktop1 ← level_count select_count luckycount 6 0
  ktop2 ← level_count select_count luckycount 5 1
  ktop3 ← level_count select_count luckycount 4 2
  ok (record b { rewardmap = fill_rewards npeer_bet_value ktop1 ktop2 ktop3 })

abbrev multiplying : List ℤ
multiplying = pos 3000 ∷ pos 17 ∷ pos 2 ∷ []

-- CBet_15_6::GetMulit throws outside its table.
unfoldable pub get_mulit : ℤ → Result ℤ
get_mulit (pos type) = elim (get_elem? multiplying type) [ none ↦ err Error.thrown | some m ↦ ok m ]
get_mulit (negsuc type) = err Error.thrown
