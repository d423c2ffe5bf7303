-- ===== src/Lotto/Lottery/Statistics/Scheme.antt =====
-- What CLotto::CreateStatisticsRewardMap enters in the scheme of a level above its limit.
use dsvalue.Prelude.{
  ℕ, ◌+◌, ◌-◌, ◌*◌, ◌/◌, ◌^◌, ◌≤◌, ◌<◌, ◌≡◌, refl, sym, ap, ◌∙◌, List, [], ◌∷◌, Option, none, some,
  ok, arith, All, if◌then◌else◌, Bool-cases, inl, inr, >>=-eq-ok, ◌>>=◌, ◌==◌,
}
use dsvalue.Prelude.Int.{ℤ, pos, ltb_ℤ, ◌<ℤ◌, sub64, mul64-pos, div64-pos, sub64-pos, add64-pos}
use dsvalue.Prelude.Map.{
  Map, lookup, insert, insert_new, get_or, AllValues, AllValues-insert, AllValues-insert_new,
  AllValues-get_or,
}
use dsvalue.Lotto.Data.{top_null}
use dsvalue.Lotto.Lottery.{Lottery}
use dsvalue.Lotto.Lottery.Statistics.{
  Totals, count_rewards, scheme_value, cap_type, cap_types, eight_tenths, settle_max, settle_level,
  settle_levels, all_levels, create_statistics_reward_map,
}
use dsvalue.Lotto.Lottery.Statistics.Division.{NonNeg, NonNeg-pos, scheme_value-zero}
use dsvalue.Lotto.Lottery.Statistics.Counting.{NonNegRewards, count_rewards-NonNeg}

abbrev pub IsZero : ℤ → Type 0
IsZero v = v ≡ pos 0

-- A scheme with no entry but 0.
abbrev pub ZeroScheme : Map (Map ℤ) → Type 0
ZeroScheme scheme = AllValues (AllValues IsZero) scheme

cap_type-zero :
    (m rt type : ℕ) (total : ℤ) (coin value : Option ℤ) (scheme next : Map (Map ℤ))
    → m < 2 ^ 60
    → pos m <ℤ total
    → ZeroScheme scheme
    → cap_type (pos m) total rt type coin value scheme ≡ ok next
    → ZeroScheme next
unfolding cap_type
cap_type-zero m rt type total none value scheme next h l z e =
    let same : scheme ≡ next = cc in rw (← same) z
cap_type-zero m rt type total (some coin) none scheme next h l z e =
    let same : scheme ≡ next = cc in rw (← same) z
cap_type-zero m rt type total (some coin) (some value) scheme next h l z e =
    let (entry, f, g) = >>=-eq-ok (scheme_value (pos m) coin total value) _ e in
    let row = AllValues-get_or (AllValues IsZero) type scheme [] tt z in
    let zero_entry = scheme_value-zero m coin total value entry h l f in
    let row' = AllValues-insert_new IsZero rt entry (get_or type scheme []) zero_entry row in
    let same : insert type (insert_new rt entry (get_or type scheme [])) scheme ≡ next = cc in
    rw (← same) (AllValues-insert (AllValues IsZero) type _ scheme row' z)

cap_types-zero :
    (m rt : ℕ) (total : ℤ) (coins reward_m scheme next : Map (Map ℤ))
    → m < 2 ^ 60
    → pos m <ℤ total
    → ZeroScheme scheme
    → cap_types (pos m) total rt coins reward_m scheme ≡ ok next
    → ZeroScheme next
unfolding cap_types
cap_types-zero m rt total coins [] scheme next h l z e =
    let same : scheme ≡ next = cc in rw (← same) z
cap_types-zero m rt total coins ((type, values) ∷ reward_m) scheme next h l z e =
    let (mid, f, g) =
      >>=-eq-ok
        (cap_type (pos m) total rt type (lookup rt (get_or type coins [])) (lookup rt values)
          scheme)
        _ e in
    cap_types-zero m rt total coins reward_m mid next h l
      (cap_type-zero m rt type total _ _ scheme mid h l z f) g

-- The reward that is left at a level is never more than before it.
abbrev Left : ℕ → ℤ × Map (Map ℤ) → Type 0
Left a s = (b : ℕ) × (s.0 ≡ pos b) × (b ≤ a) × ZeroScheme s.1

eight_tenths-pos : (a : ℕ) → a < 2 ^ 60 → eight_tenths (pos a) ≡ ok (pos (a * 8 / 10))
unfolding eight_tenths
eight_tenths-pos a h =
    rw (mul64-pos a 8 (omega arith)) (div64-pos (a * 8) 10 (omega arith) (omega arith))

settle_max-Left :
    (coins : Map (Map ℤ)) (t : Totals) (rt a m n : ℕ) (scheme : Map (Map ℤ))
    (next : ℤ × Map (Map ℤ))
    → a < 2 ^ 60
    → m ≤ a
    → ZeroScheme scheme
    → settle_max coins t rt (pos a, scheme) (pos m) (pos n) ≡ ok next
    → Left a next
unfolding settle_max
settle_max-Left coins t rt a m n scheme next h le z e = elim (Bool-cases (ltb_ℤ (pos m) (pos n))) [
  | inl l ↦
      let e' : (cap_types (pos m) (pos n) rt coins t.reward_m scheme >>= λ capped.
      ok (sub64 (pos a) (pos m), capped))
          ≡ ok next =
        rw l at e in
      let (capped, f, g) = >>=-eq-ok (cap_types (pos m) (pos n) rt coins t.reward_m scheme) _ e' in
      let zero_capped =
        cap_types-zero m rt (pos n) coins t.reward_m scheme capped (omega arith) (ground arith) z
          f in
      let same : (pos (a - m), capped) ≡ next = ground (arith, g, sub64-pos a m le (omega arith)) in
      rw (← same) (a - m, refl, omega arith, zero_capped)
  | inr l ↦
      let fits : n ≤ m = ground arith in
      let e' =
        rw
          (
            l,
            sub64-pos a m le (omega arith),
            sub64-pos m n fits (omega arith),
            add64-pos (a - m) (m - n) (omega arith),
          )
          at e in
      let same : (pos (a - m + (m - n)), scheme) ≡ next = cc in
      rw (← same) (a - m + (m - n), refl, omega arith, z)
]

-- The limit of a level is at most the available reward.
level_max :
    (rt a : ℕ) (max : ℤ)
    → a < 2 ^ 60
    → (if rt + 1 == top_null then ok (pos a) else eight_tenths (pos a)) ≡ ok max
    → (m : ℕ) × (max ≡ pos m) × (m ≤ a)
level_max rt a max h e = elim (Bool-cases (rt + 1 == top_null)) [
  | inl l ↦ (a, ground arith, omega arith)
  | inr l ↦ (a * 8 / 10, ground (arith, eight_tenths-pos a h), omega arith)
]

settle_level-Left :
    (coins : Map (Map ℤ)) (t : Totals) (rt a : ℕ) (scheme : Map (Map ℤ)) (next : ℤ × Map (Map ℤ))
    → AllValues NonNeg t.reward_total
    → a < 2 ^ 60
    → ZeroScheme scheme
    → settle_level coins t rt (pos a, scheme) ≡ ok next
    → Left a next
unfolding settle_level
settle_level-Left coins t rt a scheme next nonneg h z e =
    let (max, f, g) =
      >>=-eq-ok (if rt + 1 == top_null then ok (pos a) else eight_tenths (pos a)) _ e in
    let (m, same_max, le) = level_max rt a max h f in
    let (n, same_total) =
      NonNeg-pos (get_or rt t.reward_total (pos 0))
        (AllValues-get_or NonNeg rt t.reward_total (pos 0) refl nonneg) in
    settle_max-Left coins t rt a m n scheme next h le z (rw (same_max, same_total) at g)

settle_levels-Left :
    (coins : Map (Map ℤ)) (t : Totals) (levels : List ℕ) (a : ℕ) (scheme : Map (Map ℤ))
    (next : ℤ × Map (Map ℤ))
    → AllValues NonNeg t.reward_total
    → a < 2 ^ 60
    → ZeroScheme scheme
    → settle_levels coins t levels (pos a, scheme) ≡ ok next
    → Left a next
unfolding settle_levels
settle_levels-Left coins t [] a scheme next nonneg h z e =
    let same : (pos a, scheme) ≡ next = cc in rw (← same) (a, refl, omega arith, z)
settle_levels-Left coins t (rt ∷ levels) a scheme next nonneg h z e =
    let (mid, f, g) = >>=-eq-ok (settle_level coins t rt (pos a, scheme)) _ e in
    let (b, same, le, z') = settle_level-Left coins t rt a scheme mid nonneg h z f in
    let (c, same', le', z'') =
      settle_levels-Left coins t levels b mid.1 next nonneg (omega arith) z'
        (ap (λ v. settle_levels coins t levels (v, mid.1)) (sym same) ∙ g) in
    (c, same', omega arith, z'')

-- Where CreateStatisticsRewardMap returns, for a pool below 2^60 and rewards that are not negative,
-- every entry of the scheme that it makes is 0, whatever the bets are. An entry is what
-- GetReWardOutput pays by at a level above its limit.
pub create_statistics_reward_map-ZeroScheme :
    (l next : Lottery) (p : ℕ)
    → l.reward_pool ≡ pos p
    → p < 2 ^ 60
    → All NonNegRewards l.v_bet
    → create_statistics_reward_map l ≡ ok next
    → ZeroScheme next.m_reward_scheme
unfolding create_statistics_reward_map
create_statistics_reward_map-ZeroScheme l next p same h r e =
    let (t, f, g) =
      >>=-eq-ok (count_rewards l.v_bet (record { reward_m = []; reward_total = [] })) _ e in
    let nonneg =
      count_rewards-NonNeg l.v_bet (record { reward_m = []; reward_total = [] }) t r tt f in
    let (a, f', g') = >>=-eq-ok (eight_tenths l.reward_pool) _ g in
    let pool : a ≡ pos (p * 8 / 10) = ground (arith, eight_tenths-pos p h) in
    let (s, f'', g'') = >>=-eq-ok (settle_levels l.bet_coins t all_levels (a, [])) _ g' in
    let (b, left, le, z) =
      settle_levels-Left l.bet_coins t all_levels (p * 8 / 10) [] s nonneg (omega arith) tt
        (rw pool at f'') in
    let made : record l { m_reward_scheme = s.1 } ≡ next = cc in rw (← made) z
