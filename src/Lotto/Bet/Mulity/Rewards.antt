-- ===== src/Lotto/Bet/Mulity/Rewards.antt =====
-- The counts of CBetMulity::CalcRewardBet against the list of all the pairs of combinations that
-- the bet plays.
use native.Mathlib.Nat.{mul-le-mul, mul_assoc, le_trans}
use dsvalue.Prelude.{
  ℕ, zero, suc, ◌+◌, ◌*◌, ◌^◌, ◌≤◌, ◌<◌, ◌≡◌, refl, sym, ltb, inl, inr, Bool-cases, ap, ◌∙◌, ◌&&◌,
  leb, Bool, List, [], none, ok, arith, length, count_if, count_if-le, if◌then◌else◌,
}
use dsvalue.Prelude.Int.{pos, mul32, mul32-pos, add32, add32-pos, -ℤ-pos}
use dsvalue.Prelude.Map.{lookup}
use dsvalue.Lotto.Data.{top_1}
use dsvalue.Lotto.Select.Binomial.{
  binom, binom_all, binom_above, m_select_n-binom, binom_million, binom_pairs, binom_one,
}
use dsvalue.Lotto.Select.Tickets.{wins, misses, hits-add-misses, wins-eq-binom, wins-le}
use dsvalue.Lotto.Bet.{put_reward}
use dsvalue.Lotto.Bet.Rewards.{lookup-put_reward, lookup-scale_reward, prize, counted_prize}
use dsvalue.Lotto.Bet.Mulity.{
  Hits, combinations, top1_reward, top2_count, top3_count, top4_count, top5_count, fill_rewards,
}
use dsvalue.Lotto.Bet.Mulity.Valid.{total_limit}

-- The count of hits that the code takes of two parts.
abbrev pub hits_of : (red_hit blue_hit : ℕ → Bool) (red blue : List ℕ) → Hits
hits_of red_hit blue_hit red blue = record {
  red_count = count_if red_hit red;
  red_size = length red;
  blue_count = count_if blue_hit blue;
  blue_size = length blue;
}

-- The tickets that hit exactly `r` red and `t` blue lucky numbers.
unfoldable pub pair_wins : (red_hit blue_hit : ℕ → Bool) (red blue : List ℕ) → ℕ → ℕ → ℕ
pair_wins red_hit blue_hit red blue r t = wins red_hit red 5 r * wins blue_hit blue 2 t

-- The count of winning tickets that stands behind each prize level.
abbrev pub level_wins : (ℕ → Bool) → (ℕ → Bool) → List ℕ → List ℕ → ℕ → ℕ
level_wins rh bh red blue zero = pair_wins rh bh red blue 5 2
level_wins rh bh red blue (suc zero) = pair_wins rh bh red blue 4 2 + pair_wins rh bh red blue 5 1
level_wins rh bh red blue (suc (suc zero)) =
    pair_wins rh bh red blue 4 1 + pair_wins rh bh red blue 5 0 + pair_wins rh bh red blue 3 2
level_wins rh bh red blue (suc (suc (suc zero))) =
    pair_wins rh bh red blue 4 0 + pair_wins rh bh red blue 3 1 + pair_wins rh bh red blue 2 2
level_wins rh bh red blue (suc (suc (suc (suc zero)))) =
    pair_wins rh bh red blue 3 0 + pair_wins rh bh red blue 2 1 + pair_wins rh bh red blue 0 2
level_wins rh bh red blue (suc (suc (suc (suc (suc type))))) = 0

-- Nothing overflows in a product of four coefficients.
product_of_four :
    (a b c d w z : ℕ)
    → a * b ≡ w
    → c * d ≡ z
    → w ≤ 2 ^ 20
    → c ≤ 121
    → z ≤ 121
    → mul32 (mul32 (mul32 (pos a) (pos b)) (pos c)) (pos d) ≡ pos (w * z)
product_of_four a b c d w z e f hw hc hz =
    rw (mul32-pos a b (omega arith), e)
      (rw (mul32-pos w c (omega (arith, wc)))
        (rw (mul32-pos (w * c) d (omega (arith, regroup, wz)), regroup)))
  where
    wc : w * c ≤ 2 ^ 20 * 121
    wc = mul-le-mul hw hc

    wz : w * z ≤ 2 ^ 20 * 121
    wz = mul-le-mul hw hz

    regroup : w * c * d ≡ w * z
    regroup = mul_assoc w c d ∙ ap (λ (t : ℕ). w * t) f

few_blue : (n t : ℕ) → n ≤ 11 → t ≤ 2 → binom n t ≤ 121
few_blue n zero h k = unfold binom in omega arith
few_blue n (suc zero) h k = omega (arith, binom_one n)
few_blue n (suc (suc zero)) h k = binom_pairs n h
few_blue n (suc (suc (suc t))) h k = absurd (omega arith)

all_or_none : (n k : ℕ) → n ≤ k → binom n k ≡ (if leb k n then 1 else 0)
all_or_none n k h = elim (Bool-cases (leb k n)) [
  | inl e ↦ let same : n ≡ k = ground arith in rw (e, same) (binom_all k)
  | inr e ↦ rw e (binom_above n k (ground arith))
]

-- The filled map, level by level.
pub fill_rewards-prize :
    (k : ℕ → ℕ) (type peer : ℕ)
    → ((level : ℕ) → k level * peer < 2 ^ 63)
    → lookup type (
        fill_rewards
          (pos peer)
          (put_reward top_1 (pos (k 0)) [])
          (pos (k 1))
          (pos (k 2))
          (pos (k 3))
          (pos (k 4)))
      ≡ (if ltb type 5 then prize (k type) peer else none)
unfolding fill_rewards
fill_rewards-prize k zero peer h =
    simp (lookup-scale_reward, lookup-put_reward) (counted_prize (k 0) peer (h 0))
fill_rewards-prize k (suc zero) peer h =
    simp (lookup-scale_reward, lookup-put_reward) (counted_prize (k 1) peer (h 1))
fill_rewards-prize k (suc (suc zero)) peer h =
    simp (lookup-scale_reward, lookup-put_reward) (counted_prize (k 2) peer (h 2))
fill_rewards-prize k (suc (suc (suc zero))) peer h =
    simp (lookup-scale_reward, lookup-put_reward) (counted_prize (k 3) peer (h 3))
fill_rewards-prize k (suc (suc (suc (suc zero)))) peer h =
    simp (lookup-scale_reward, lookup-put_reward) (counted_prize (k 4) peer (h 4))
fill_rewards-prize k (suc (suc (suc (suc (suc type))))) peer h =
    simp (lookup-scale_reward, lookup-put_reward) (ground arith)

module _ (red_hit blue_hit : ℕ → Bool) (red blue : List ℕ) (hr : length red ≤ 20)
    (hb : length blue ≤ 11) where
  abbrev pub total : ℕ
  total = binom (length red) 5 * binom (length blue) 2

  pub pair_wins-le : (r t : ℕ) → pair_wins red_hit blue_hit red blue r t ≤ total
  unfolding pair_wins
  pair_wins-le r t = mul-le-mul (wins-le red_hit red 5 r) (wins-le blue_hit blue 2 t)

  -- The product of four MselectN is the number of winning tickets.
  combinations-wins :
      (r s t u : ℕ)
      → 5 ≡ r + s
      → 2 ≡ t + u
      → combinations (hits_of red_hit blue_hit red blue) r s t u
        ≡ ok (pos (pair_wins red_hit blue_hit red blue r t))
  unfolding combinations pair_wins
  combinations-wins r s t u e f =
      rw
        (
          m_select_n-binom (count_if red_hit red) r (omega (arith, count_if-le red_hit red)),
          -ℤ-pos (length red) (count_if red_hit red) (misses red_hit red)
              (hits-add-misses red_hit red),
          m_select_n-binom (misses red_hit red) s (omega (arith, hits-add-misses red_hit red)),
          m_select_n-binom (count_if blue_hit blue) t (omega (arith, count_if-le blue_hit blue)),
          -ℤ-pos (length blue) (count_if blue_hit blue) (misses blue_hit blue)
              (hits-add-misses blue_hit blue),
          m_select_n-binom (misses blue_hit blue) u (omega (arith, hits-add-misses blue_hit blue)),
        )
        (ap ok (
          product_of_four _ _ _ _ (wins red_hit red 5 r) (wins blue_hit blue 2 t)
            (sym (wins-eq-binom red_hit red 5 r s e)) (sym (wins-eq-binom blue_hit blue 2 t u f))
            (le_trans (wins-le red_hit red 5 r) (binom_million (length red) 5 hr))
            (few_blue (count_if blue_hit blue) t (le_trans (count_if-le blue_hit blue) hb)
              (omega arith))
            (le_trans (wins-le blue_hit blue 2 t) (binom_pairs (length blue) hb))))

  abbrev pub w : ℕ → ℕ → ℕ
  w r t = pair_wins red_hit blue_hit red blue r t

  abbrev pub h : Hits
  h = hits_of red_hit blue_hit red blue

  sum_of_two : (a b : ℕ) → a ≤ total → b ≤ total → add32 (pos a) (pos b) ≡ pos (a + b)
  sum_of_two a b p q = add32-pos a b (omega (arith, total_limit (length red) (length blue) hr hb))

  sum_of_three :
      (a b c : ℕ)
      → a ≤ total
      → b ≤ total
      → c ≤ total
      → add32 (add32 (pos a) (pos b)) (pos c) ≡ pos (a + b + c)
  sum_of_three a b c p q r =
      rw (sum_of_two a b p q)
        (add32-pos (a + b) c (omega (arith, total_limit (length red) (length blue) hr hb)))

  pub top2_count-wins : top2_count h ≡ ok (pos (w 4 2 + w 5 1))
  unfolding top2_count
  top2_count-wins =
      rw (combinations-wins 4 1 2 0 refl refl, combinations-wins 5 0 1 1 refl refl)
        (ap ok (sum_of_two (w 4 2) (w 5 1) (pair_wins-le 4 2) (pair_wins-le 5 1)))

  pub top3_count-wins : top3_count h ≡ ok (pos (w 4 1 + w 5 0 + w 3 2))
  unfolding top3_count
  top3_count-wins =
      rw
        (
          combinations-wins 4 1 1 1 refl refl,
          combinations-wins 5 0 0 2 refl refl,
          combinations-wins 3 2 2 0 refl refl,
        )
        (ap ok (
          sum_of_three (w 4 1) (w 5 0) (w 3 2) (pair_wins-le 4 1) (pair_wins-le 5 0)
            (pair_wins-le 3 2)))

  pub top4_count-wins : top4_count h ≡ ok (pos (w 4 0 + w 3 1 + w 2 2))
  unfolding top4_count
  top4_count-wins =
      rw
        (
          combinations-wins 4 1 0 2 refl refl,
          combinations-wins 3 2 1 1 refl refl,
          combinations-wins 2 3 2 0 refl refl,
        )
        (ap ok (
          sum_of_three (w 4 0) (w 3 1) (w 2 2) (pair_wins-le 4 0) (pair_wins-le 3 1)
            (pair_wins-le 2 2)))

  pub top5_count-wins : top5_count h ≡ ok (pos (w 3 0 + w 2 1 + w 0 2))
  unfolding top5_count
  top5_count-wins =
      rw
        (
          combinations-wins 3 2 0 2 refl refl,
          combinations-wins 2 3 1 1 refl refl,
          combinations-wins 0 5 2 0 refl refl,
        )
        (ap ok (
          sum_of_three (w 3 0) (w 2 1) (w 0 2) (pair_wins-le 3 0) (pair_wins-le 2 1)
            (pair_wins-le 0 2)))

  -- Where the lucky numbers allow at most 5 red and 2 blue hits, one ticket at most has them all.
  first_prize :
      count_if red_hit red ≤ 5
      → count_if blue_hit blue ≤ 2
      → w 5 2 ≡ (if leb 5 (count_if red_hit red) && leb 2 (count_if blue_hit blue) then 1 else 0)
  unfolding pair_wins
  first_prize p q =
      let r = wins-eq-binom red_hit red 5 5 0 refl in
      let b = wins-eq-binom blue_hit blue 2 2 0 refl in
      rw (r, b) (rw (all_or_none _ 5 p, all_or_none _ 2 q) (unfold binom in ground arith))

  pub top1_reward-wins :
      count_if red_hit red ≤ 5
      → count_if blue_hit blue ≤ 2
      → top1_reward h [] ≡ put_reward top_1 (pos (w 5 2)) []
  unfolding top1_reward put_reward
  top1_reward-wins p q = rw (first_prize p q) (ground arith)
