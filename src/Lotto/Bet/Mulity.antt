-- ===== src/Lotto/Bet/Mulity.antt =====
-- The bet "5 out of 20 and 2 out of 10": class CBetMulity (src/lotto/CBetMulity.h,
-- CBetMulity.cpp).
pub mod Valid
pub mod Overflow
pub mod Rewards
pub mod Prizes
use dsvalue.Prelude.{
  ℕ, ◌+◌, ◌-◌, Bool, true, false, not, ◌||◌, ◌&&◌, List, [], ◌∷◌, none, some, Result, ok, err,
  Error, ◌>>=◌, ◌>>◌, guard, if◌then◌else◌, length, ltb, leb, any, count_if, contains, list_eq,
  get_elem?, split_at_flag,
}
use dsvalue.Prelude.Int.{mul32, add32, ℤ, pos, negsuc, div64, ◌-ℤ◌}
use dsvalue.Prelude.Sorted.{sort, is_unique}
use dsvalue.Prelude.Map.{Map, insert}
use dsvalue.Lotto.Data.{
  BetType, type_15_6, type_mulilt, typenull, top_1, top_2, top_3, top_4, top_5,
}
use dsvalue.Lotto.Select.{m_select_n}
use dsvalue.Lotto.Bet.{Bet, is_underpaid, put_reward, scale_reward}

-- The fields of the subclass; the others stand in `bet`.
pub record BetMulity : Type 0 where
  pub bet : Bet
  pub open bet use *
  pub v_red : List ℕ
  pub v_blue : List ℕ

-- gSplitFlag
abbrev pub g_split_flag : ℕ
g_split_flag = 0xff

abbrev pub read_max_no : ℕ
read_max_no = 20

abbrev pub read_max_nice_no : ℕ
read_max_nice_no = 5

abbrev pub blue_max_nice_no : ℕ
blue_max_nice_no = 2

abbrev pub blue_max_no : ℕ
blue_max_no = 10

-- CBetMulity::SplitSelectNum leaves the fields alone where the flag is missing.
unfoldable pub split_select_num : BetMulity → BetMulity
split_select_num b = elim (split_at_flag g_split_flag b.vch) [
  | none ↦ b
  | some (red, blue) ↦ record b { v_red = sort red; v_blue = sort blue }
]

-- CBetMulity::getTotalBer: without a flag the second distance is -1, and MselectN asserts.
unfoldable pub get_total_ber : List ℕ → Result ℤ
get_total_ber vch = elim (split_at_flag g_split_flag vch) [
  | none ↦ (do
    a ← m_select_n (pos (length vch)) (pos read_max_nice_no)
    b ← m_select_n (negsuc 0) (pos blue_max_nice_no)
    ok (mul32 a b))
  | some (red, blue) ↦ (do
    a ← m_select_n (pos (length red)) (pos read_max_nice_no)
    b ← m_select_n (pos (length blue)) (pos blue_max_nice_no)
    ok (mul32 a b))
]

abbrev is_mulilt : BetType → Bool
is_mulilt type_mulilt = true
is_mulilt type_15_6 = false
is_mulilt typenull = false

-- The checks of IsValid behind the search for the flag. The second std::unique runs from the flag
-- on.
unfoldable pub is_valid_split : Bet → List ℕ → List ℕ → Result Bool
unfolding is_underpaid get_total_ber
is_valid_split b red blue =
    if ltb (length red) read_max_nice_no
    then ok false
    else if ltb (length b.vch - length red - 1) blue_max_nice_no
    then ok false
    else if any (λ no. ltb (read_max_no + 1) no) red
    then ok false
    else if any (λ no. ltb no 1) red
    then ok false
    else if any (λ no. ltb (blue_max_no + 1) no) blue
    then ok false
    else if any (λ no. ltb no 1) blue
    then ok false
    else if not (is_unique red) || not (is_unique (g_split_flag ∷ blue))
    then ok false
    else if not (list_eq (sort red) red)
    then ok false
    else if not (list_eq (sort blue) blue)
    then ok false
    else get_total_ber b.vch >>= λ total. ok (not (is_underpaid total b.n_value))

-- CBetMulity::IsValid. The type test `type >= typenull` cannot hold behind the `assert`.
unfoldable pub is_valid : Bet → Result Bool
unfolding is_valid_split
is_valid b =
    guard (is_mulilt b.bet_type) Error.assertion
    >> (if ltb (length b.vch) (read_max_nice_no + blue_max_nice_no) || ltb 31 (length b.vch)
        then ok false
        else elim (split_at_flag g_split_flag b.vch) [
          | none ↦ ok false
          | some (red, blue) ↦ is_valid_split b red blue
        ])

-- The hits and the sizes that CalcRewardBet counts with.
pub record Hits : Type 0 where
  pub red_count : ℕ
  pub red_size : ℕ
  pub blue_count : ℕ
  pub blue_size : ℕ

-- MselectN(redCount, r) * MselectN(vRed.size() - redCount, s) * MselectN(blueCount, t)
-- * MselectN(vBlue.size() - blueCount, u)
unfoldable pub combinations : Hits → ℕ → ℕ → ℕ → ℕ → Result ℤ
combinations h r s t u = do
  a ← m_select_n (pos h.red_count) (pos r)
  b ← m_select_n (pos h.red_size -ℤ pos h.red_count) (pos s)
  c ← m_select_n (pos h.blue_count) (pos t)
  d ← m_select_n (pos h.blue_size -ℤ pos h.blue_count) (pos u)
  ok (mul32 (mul32 (mul32 a b) c) d)

unfoldable pub top2_count : Hits → Result ℤ
top2_count h = do a ← combinations h 4 1 2 0; b ← combinations h 5 0 1 1; ok (add32 a b)

unfoldable pub top3_count : Hits → Result ℤ
top3_count h = do
  a ← combinations h 4 1 1 1
  b ← combinations h 5 0 0 2
  c ← combinations h 3 2 2 0
  ok (add32 (add32 a b) c)

unfoldable pub top4_count : Hits → Result ℤ
top4_count h = do
  a ← combinations h 4 1 0 2
  b ← combinations h 3 2 1 1
  c ← combinations h 2 3 2 0
  ok (add32 (add32 a b) c)

unfoldable pub top5_count : Hits → Result ℤ
top5_count h = do
  a ← combinations h 3 2 0 2
  b ← combinations h 2 3 1 1
  c ← combinations h 0 5 2 0
  ok (add32 (add32 a b) c)

unfoldable pub top1_reward : Hits → Map ℤ → Map ℤ
top1_reward h m = if leb 5 h.red_count && leb 2 h.blue_count then insert top_1 (pos 1) m else m

-- The part of CalcRewardBet that writes the map, after the entry of the first prize.
unfoldable pub fill_rewards : ℤ → Map ℤ → ℤ → ℤ → ℤ → ℤ → Map ℤ
fill_rewards peer m k2 k3 k4 k5 =
    let counts =
      put_reward top_5 k5 (put_reward top_4 k4 (put_reward top_3 k3 (put_reward top_2 k2 m))) in
    let scaled =
      scale_reward top_3 peer (scale_reward top_2 peer (scale_reward top_1 peer counts)) in
    scale_reward top_5 peer (scale_reward top_4 peer scaled)

-- CBetMulity::CalcRewardBet, from the reward map that it finds to the one that it leaves.
unfoldable pub calc_reward_bet : Bet → Hits → Map ℤ → Result (Map ℤ)
unfolding get_total_ber top1_reward fill_rewards
calc_reward_bet b h m = do
  total ← get_total_ber b.vch
  peer ← div64 b.n_value total
  k2 ← top2_count h
  k3 ← top3_count h
  k4 ← top4_count h
  k5 ← top5_count h
  ok (fill_rewards peer (top1_reward h m) k2 k3 k4 k5)

abbrev pub is_empty : List ℕ → Bool
is_empty [] = true
is_empty (x ∷ xs) = false

-- CBetMulity::CreateRewardMap: a missing flag or an empty part leaves the object alone.
unfoldable pub create_reward_map : BetMulity → Result BetMulity
unfolding calc_reward_bet
create_reward_map b = elim (split_at_flag g_split_flag b.v_lucky_star) [
  | none ↦ ok b
  | some (pre_lucky, additinual_lucky) ↦ if is_empty b.v_red || is_empty b.v_blue then ok b else (do
    let hits : Hits = record {
      red_count = count_if (contains (sort pre_lucky)) b.v_red;
      red_size = length b.v_red;
      blue_count = count_if (contains (sort additinual_lucky)) b.v_blue;
      blue_size = length b.v_blue;
    }
    m ← calc_reward_bet b.bet hits []
    ok (record b { bet = record (b.bet) { rewardmap = m } }))
]

abbrev multiplying : List ℤ
multiplying = pos 210000 ∷ pos 1000 ∷ pos 30 ∷ pos 5 ∷ pos 2 ∷ []

-- CBetMulity::GetMulit asserts outside its table.
unfoldable pub get_mulit : ℤ → Result ℤ
get_mulit (pos type) = elim (get_elem? multiplying type) [
  | none ↦ err Error.assertion
  | some m ↦ ok m
]
get_mulit (negsuc type) = err Error.assertion
