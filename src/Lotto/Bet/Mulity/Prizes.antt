-- ===== src/Lotto/Bet/Mulity/Prizes.antt =====
-- CBetMulity::CreateRewardMap, with the prizes of every level.
use dsvalue.Prelude.{ℕ, List, contains}
use dsvalue.Prelude.Map.{Map}
use dsvalue.Prelude.Sorted.{sort}
use dsvalue.Lotto.Bet.Mulity.Rewards.{level_wins}

-- The winning tickets of all levels, for a selection and lucky numbers in two parts.
abbrev pub prize_wins : (red blue pre additional : List ℕ) → ℕ → ℕ
prize_wins red blue pre additional =
    level_wins (contains (sort pre)) (contains (sort additional)) red blue
