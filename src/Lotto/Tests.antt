-- ===== src/Lotto/Tests.antt =====
-- The lottery's bets and draws at concrete values.
use dsvalue.Prelude.{
  some, ℕ, suc, ◌+◌, ◌≡◌, ◌⊎◌, ◌++◌, ◌∷◌, refl, true, false, List, [], ok, err, Error, All, length,
  ◌≤◌, contains, arith, replicate,
}
use dsvalue.Prelude.Int.{ℤ, pos, add64, sub64, mul64, div64}
use dsvalue.Prelude.Map.{Map, lookup}
use dsvalue.Prelude.Sorted.{Ascending}
use dsvalue.Lotto.Data.{type_15_6, type_mulilt}
use dsvalue.Lotto.Select.{m_select_n}
use dsvalue.Lotto.Select.Binomial.{binom, m_select_n-binom}
use dsvalue.Lotto.Bet.{Bet, null_bet, put_bet_data}
use dsvalue.Lotto.Bet.Layout.{put_bet_data-layout}
use dsvalue.Lotto.Bet.Pick156
use dsvalue.Lotto.Bet.Pick156.Valid.{is_valid-total}
use dsvalue.Lotto.Bet.Pick156.Valid as PickValid
use dsvalue.Lotto.Bet.Pick156.Rewards as PickRewards
use dsvalue.Lotto.Bet.Mulity.{BetMulity, g_split_flag}
use dsvalue.Lotto.Bet.Mulity
use dsvalue.Lotto.Bet.Mulity.Valid.{IsProper}
use dsvalue.Lotto.Bet.Mulity.Overflow.{is_valid_overflow}
use dsvalue.Lotto.Header.{LottoHeader, new_lotto_header, assign, copy}
use dsvalue.Lotto.Header.Assign.{or_else, assign-lookup}
use dsvalue.Lotto.Lottery.{SomeBet, cbet_15_6, Lottery}
use dsvalue.Lotto.Lottery.Statistics.{create_statistics_reward_map}
use dsvalue.Lotto.Lottery.Statistics.Scheme.{ZeroScheme, create_statistics_reward_map-ZeroScheme}
use dsvalue.Lotto.Draw.{lucky_15_6, lucky_mulilt}
use dsvalue.Lotto.Draw.Numbers.{lucky_15_6-numbers, lucky_mulilt-numbers}

abbrev seven : List ℕ
seven = 1 ∷ 2 ∷ 3 ∷ 4 ∷ 5 ∷ 6 ∷ 7 ∷ []

-- Seven numbers, five of them lucky, at a stake of 1000000 for each combination.
abbrev bet_of_seven : Bet
bet_of_seven = record null_bet {
  bet_type = type_15_6;
  vch = seven;
  v_lucky_star = 1 ∷ 2 ∷ 3 ∷ 4 ∷ 5 ∷ 9 ∷ [];
  n_value = pos 7000000;
}

accepts_seven : Pick156.is_valid bet_of_seven ≡ ok true
unfolding Pick156.is_valid dsvalue.Prelude.Sorted.sort dsvalue.Prelude.Sorted.is_unique m_select_n
accepts_seven = refl

abbrev reds : List ℕ
reds = 1 ∷ 2 ∷ 3 ∷ 4 ∷ 5 ∷ 6 ∷ []

abbrev blues : List ℕ
blues = 3 ∷ 4 ∷ []

-- Six red and two blue numbers.
abbrev two_colours : Bet
two_colours = record null_bet {
  bet_type = type_mulilt;
  vch = reds ++ g_split_flag ∷ blues;
  v_lucky_star = 1 ∷ 2 ∷ 3 ∷ 4 ∷ 9 ∷ g_split_flag ∷ 3 ∷ 8 ∷ [];
  n_value = pos 6000000;
}

abbrev two_colours_split : BetMulity
two_colours_split = record { bet = two_colours; v_red = reds; v_blue = blues }

abbrev all_reds : List ℕ
all_reds = seven ++ 8 ∷ 9 ∷ 10 ∷ 11 ∷ 12 ∷ 13 ∷ 14 ∷ 15 ∷ 16 ∷ 17 ∷ 18 ∷ 19 ∷ 20 ∷ 21 ∷ []

-- 21 red numbers at a stake of 1.
abbrev cheap_bet : Bet
cheap_bet = record null_bet {
  bet_type = type_mulilt;
  vch = all_reds ++ g_split_flag ∷ blues;
  n_value = pos 1;
}

all_reds-IsProper : IsProper all_reds blues
all_reds-IsProper = record {
  enough_red = omega arith;
  enough_blue = omega arith;
  rising_red = ground arith;
  rising_blue = ground arith;
  positive_red = ground arith;
  positive_blue = ground arith;
  bounded_red = ground arith;
  bounded_blue = ground arith;
  short = omega arith;
}

is_valid_overflow_example : Mulity.is_valid cheap_bet ≡ ok true
is_valid_overflow_example =
    is_valid_overflow cheap_bet all_reds blues 0 refl refl all_reds-IsProper refl refl

m_select_n-binom_example : m_select_n (pos 15) (pos 6) ≡ ok (pos (binom 15 6))
m_select_n-binom_example = m_select_n-binom 15 6 (omega arith)

put_bet_data-layout_example :
    put_bet_data null_bet (1 ∷ replicate 20 7 ++ reds)
    ≡ ok (record null_bet { bet_type = type_mulilt; address = replicate 20 7; vch = reds })
put_bet_data-layout_example =
    put_bet_data-layout null_bet type_mulilt (replicate 20 7) reds (omega arith) refl

-- With the successor as the hash, the bytes count upwards.
abbrev six_lucky : List ℕ
six_lucky = 3 ∷ 4 ∷ 5 ∷ 6 ∷ 7 ∷ 8 ∷ []

lucky_15_6-numbers_example :
    (length six_lucky ≡ 6) × Ascending six_lucky × All (λ no. (1 ≤ no) × (no ≤ 15)) six_lucky
unfolding lucky_15_6 dsvalue.Prelude.Sorted.sort
lucky_15_6-numbers_example = lucky_15_6-numbers suc 6 1 six_lucky refl

abbrev lucky_colours : List ℕ
lucky_colours = 3 ∷ 4 ∷ 5 ∷ 6 ∷ 7 ∷ g_split_flag ∷ 8 ∷ 9 ∷ []

lucky_mulilt-numbers_example :
    (red : List ℕ) × (blue : List ℕ) × (lucky_colours ≡ red ++ g_split_flag ∷ blue)
    × (length red ≡ 5)
    × Ascending red
    × All (λ no. (1 ≤ no) × (no ≤ 20)) red
    × (length blue ≡ 2)
    × Ascending blue
    × All (λ no. (1 ≤ no) × (no ≤ 10)) blue
    × All (λ no. contains red no ≡ false) blue
unfolding lucky_mulilt dsvalue.Prelude.Sorted.sort
lucky_mulilt-numbers_example = lucky_mulilt-numbers suc 8 1 lucky_colours refl

-- A winner of 5000 at the first level and a pool of 1000: the level is above its limit.
abbrev winner : SomeBet
winner = cbet_15_6 (record bet_of_seven { rewardmap = (0, pos 5000) ∷ [] })

abbrev capped_round : Lottery
capped_round = record {
  v_bet = winner ∷ [];
  hash = 1;
  reward_pool = pos 1000;
  m_reward_scheme = [];
  m_lucky_star = [];
  bet_coins = (0, (0, pos 5000) ∷ []) ∷ [];
}

abbrev capped_scheme : Map (Map ℤ)
capped_scheme = (0, (0, pos 0) ∷ []) ∷ []

create_statistics_reward_map-ZeroScheme_example : ZeroScheme capped_scheme
unfolding create_statistics_reward_map Pick156.get_mulit add64 sub64 mul64 div64
    dsvalue.Prelude.Double.to_int64
create_statistics_reward_map-ZeroScheme_example =
    create_statistics_reward_map-ZeroScheme capped_round
      (record capped_round { m_reward_scheme = capped_scheme }) 1000 refl (omega arith)
      ((refl, tt), tt) refl

abbrev old_header : LottoHeader
old_header = record new_lotto_header { m_bitcoin_hash = (10, 77) ∷ (11, 78) ∷ [] }

abbrev next_header : LottoHeader
next_header = record new_lotto_header { m_bitcoin_hash = (11, 99) ∷ (12, 98) ∷ [] }

assign-lookup_example :
    (lookup 11 (assign old_header next_header).m_bitcoin_hash
      ≡ or_else (lookup 11 old_header.m_bitcoin_hash) (lookup 11 next_header.m_bitcoin_hash))
    × (lookup 11 (copy next_header).m_bitcoin_hash ≡ lookup 11 next_header.m_bitcoin_hash)
assign-lookup_example = assign-lookup old_header next_header 11
