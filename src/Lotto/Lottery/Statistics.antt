-- ===== src/Lotto/Lottery/Statistics.antt =====
-- The settlement of a round: CreateRewardSchemeMap, CreateStatisticsRewardMap and GetReWardOutput
-- of CLotto (src/lotto/CLotto.cpp).
pub mod Division
pub mod Counting
pub mod Scheme
use dsvalue.Prelude.{
  ℕ, ◌+◌, ◌∷◌, [], List, Option, none, some, Bool, Result, ok, err, Error, ◌>>=◌, if◌then◌else◌,
  ◌==◌,
}
use dsvalue.Prelude.Int.{ℤ, pos, add64, sub64, mul64, div64, ltb_ℤ}
use dsvalue.Prelude.Double.{to_double, add_double, mul_double, to_int64}
use dsvalue.Prelude.Map.{Map, lookup, insert, insert_new, get_or}
use dsvalue.Lotto.Data.{type_byte, top_1, top_2, top_3, top_4, top_5, top_null}
use dsvalue.Lotto.Bet.{is_winning}
use dsvalue.Lotto.Lottery.{SomeBet, base, get_total_ber, get_mulit, Lottery}

abbrev pub type_of : SomeBet → ℕ
type_of b = type_byte (base b).bet_type

-- peermultiple[item->first] += item->second, for all items.
unfoldable pub add_coins : Map ℤ → Map ℤ → Map ℤ
add_coins [] coins = coins
add_coins ((rwd, v) ∷ reward) coins =
    add_coins reward (insert rwd (add64 (get_or rwd coins (pos 0)) v) coins)

-- CLotto::CreateRewardSchemeMap, on BetCoins.
unfoldable pub coins_of_bets : List SomeBet → Map (Map ℤ) → Map (Map ℤ)
unfolding add_coins
coins_of_bets [] bet_coins = bet_coins
coins_of_bets (b ∷ v_bet) bet_coins = coins_of_bets v_bet (
    if is_winning (base b)
    then insert (type_of b) (add_coins (base b).rewardmap (get_or (type_of b) bet_coins []))
        bet_coins
    else bet_coins)

unfoldable pub create_reward_scheme_map : Lottery → Lottery
unfolding coins_of_bets
create_reward_scheme_map l = record l { bet_coins = coins_of_bets l.v_bet l.bet_coins }

-- The two local maps of CreateStatisticsRewardMap.
pub record Totals : Type 0 where
  pub reward_m : Map (Map ℤ)
  pub reward_total : Map ℤ

-- The loop over the rewards of one bet. The factor is a `double`, and so are the product and the sum.
unfoldable pub count_reward : SomeBet → Map ℤ → Totals → Result Totals
unfolding mul_double add_double
count_reward b [] t = ok t
count_reward b ((rwd, v) ∷ reward) t = do
  multi ← get_mulit b rwd
  let product = mul_double (to_double multi) (to_double v)
  total ← to_int64 (add_double (to_double (get_or rwd t.reward_total (pos 0))) product)
  value ← to_int64 product
  count_reward b reward (record {
    reward_m =
        insert (type_of b) (insert_new rwd value (get_or (type_of b) t.reward_m [])) t.reward_m;
    reward_total = insert rwd total t.reward_total;
  })

unfoldable pub count_rewards : List SomeBet → Totals → Result Totals
unfolding count_reward
count_rewards [] t = ok t
count_rewards (b ∷ v_bet) t = do
  next ← if is_winning (base b) then count_reward b (base b).rewardmap t else ok t
  count_rewards v_bet next

-- The entry of the scheme for one type of bet at a level that is above its limit: `max`,
-- `coin`, `total` and `value` are _maxreward, BetCoins[type][rt], reward_total[rt] and the entry of
-- reward_m.
unfoldable pub scheme_value : ℤ → ℤ → ℤ → ℤ → Result ℤ
scheme_value max coin total value = do
  share ← div64 max coin
  part ← div64 share total
  ok (mul64 part value)

unfoldable pub cap_type : ℤ → ℤ → ℕ → ℕ → Option ℤ → Option ℤ → Map (Map ℤ) → Result (Map (Map ℤ))
unfolding scheme_value
cap_type max total rt type (some coin) (some value) scheme = do
  entry ← scheme_value max coin total value
  ok (insert type (insert_new rt entry (get_or type scheme [])) scheme)
cap_type max total rt type _ _ scheme = ok scheme

-- The loop over the types of bets, at a level that is above its limit.
unfoldable pub cap_types :
    ℤ → ℤ → ℕ → Map (Map ℤ) → Map (Map ℤ) → Map (Map ℤ) → Result (Map (Map ℤ))
unfolding cap_type
cap_types max total rt bet_coins [] scheme = ok scheme
cap_types max total rt bet_coins ((type, values) ∷ reward_m) scheme = do
  next ← cap_type max total rt type (lookup rt (get_or type bet_coins [])) (lookup rt values) scheme
  cap_types max total rt bet_coins reward_m next

-- x * 8 / 10
unfoldable pub eight_tenths : ℤ → Result ℤ
eight_tenths x = div64 (mul64 x (pos 8)) (pos 10)

-- The branches on a level: above its limit it enters the scheme, and otherwise what the limit leaves
-- is available again.
unfoldable pub settle_max :
    Map (Map ℤ) → Totals → ℕ → ℤ × Map (Map ℤ) → (max total : ℤ) → Result (ℤ × Map (Map ℤ))
unfolding cap_types
settle_max bet_coins t rt (available, scheme) max total =
    if ltb_ℤ max total
    then (do
      capped ← cap_types max total rt bet_coins t.reward_m scheme
      ok (sub64 available max, capped))
    else ok (add64 (sub64 available max) (sub64 max total), scheme)

-- One round of the loop over the levels: the available reward and the scheme that it leaves.
unfoldable pub settle_level : Map (Map ℤ) → Totals → ℕ → ℤ × Map (Map ℤ) → Result (ℤ × Map (Map ℤ))
unfolding settle_max eight_tenths
settle_level bet_coins t rt s = do
  max ← if rt + 1 == top_null then ok s.0 else eight_tenths s.0
  settle_max bet_coins t rt s max (get_or rt t.reward_total (pos 0))

unfoldable pub settle_levels :
    Map (Map ℤ) → Totals → List ℕ → ℤ × Map (Map ℤ) → Result (ℤ × Map (Map ℤ))
unfolding settle_level
settle_levels bet_coins t [] s = ok s
settle_levels bet_coins t (rt ∷ levels) s = do
  next ← settle_level bet_coins t rt s
  settle_levels bet_coins t levels next

abbrev pub all_levels : List ℕ
all_levels = top_1 ∷ top_2 ∷ top_3 ∷ top_4 ∷ top_5 ∷ []

-- CLotto::CreateStatisticsRewardMap
unfoldable pub create_statistics_reward_map : Lottery → Result Lottery
unfolding count_rewards settle_levels
create_statistics_reward_map l = do
  t ← count_rewards l.v_bet (record { reward_m = []; reward_total = [] })
  available ← eight_tenths l.reward_pool
  s ← settle_levels l.bet_coins t all_levels (available, [])
  ok (record l { m_reward_scheme = s.1 })

-- The value that GetReWardOutput adds for each reward of a bet: by the scheme at a level that has an
-- entry in it, and by the multiplier of the level otherwise.
unfoldable pub pay_rewards : SomeBet → Map ℤ → Map ℤ → ℤ → Result ℤ
pay_rewards b scheme [] n_value = ok n_value
pay_rewards b scheme ((rwd, v) ∷ reward) n_value = do
  factor ← elim (lookup rwd scheme) [ none ↦ get_mulit b rwd | some entry ↦ ok entry ]
  pay_rewards b scheme reward (add64 n_value (mul64 factor v))

-- What one winning bet is paid. The quotient only goes to the log, but it is computed.
unfoldable pub pay_bet : SomeBet → Map ℤ → Result ℤ
unfolding pay_rewards
pay_bet b scheme = do
  total ← get_total_ber b
  peer ← div64 (base b).n_value total
  pay_rewards b scheme (base b).rewardmap (pos 0)

-- An output: what is paid, and the address that it goes to.
abbrev pub Payment : Type 0
Payment = ℤ × List ℕ

-- The loop of CLotto::GetReWardOutput, with the scheme, the outputs and llRemains that it leaves. A
-- look-up in the map of schemes makes an entry for a type that has none.
unfoldable pub pay_bets : List SomeBet → Map (Map ℤ) → ℤ → Result (Map (Map ℤ) × List Payment × ℤ)
unfolding pay_bet
pay_bets [] scheme remains = ok (scheme, [], remains)
pay_bets (b ∷ v_bet) scheme remains = elim (is_winning (base b)) [
  | Bool.true ↦ (do
    paid ← pay_bet b (get_or (type_of b) scheme [])
    rest ← pay_bets v_bet (insert_new (type_of b) [] scheme) (add64 remains paid)
    ok (rest.0, (paid, (base b).address) ∷ rest.1, rest.2))
  | Bool.false ↦ pay_bets v_bet scheme remains
]

-- CLotto::GetReWardOutput
unfoldable pub get_reward_output : Lottery → ℤ → Result (Lottery × List Payment × ℤ)
unfolding create_reward_scheme_map create_statistics_reward_map pay_bets
get_reward_output l remains = do
  counted ← create_statistics_reward_map (create_reward_scheme_map l)
  r ← pay_bets counted.v_bet counted.m_reward_scheme remains
  ok (record counted { m_reward_scheme = r.0 }, r.1, r.2)
