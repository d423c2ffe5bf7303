-- ===== src/Lotto/Bet/Pick156/Rewards.antt =====
-- CBet_15_6::CreateRewardMap against the list of all the combinations that the bet plays.
use dsvalue.Prelude.{ℕ, zero, suc, Bool, List}
use dsvalue.Prelude.Map.{Map}
use dsvalue.Lotto.Select.Tickets.{wins}
use dsvalue.Lotto.Bet.{Bet}

-- A value for each of the three prize levels, and 0 for the others.
abbrev pub pick : ℕ → ℕ → ℕ → ℕ → ℕ
pick zero k1 k2 k3 = k1
pick (suc zero) k1 k2 k3 = k2
pick (suc (suc zero)) k1 k2 k3 = k3
pick (suc (suc (suc type))) k1 k2 k3 = 0

-- The winning tickets of each prize level: 6, 5 and 4 of the lucky numbers.
abbrev pub level_wins : (ℕ → Bool) → List ℕ → ℕ → ℕ
level_wins hit v type = pick type (wins hit v 6 6) (wins hit v 6 5) (wins hit v 6 4)
