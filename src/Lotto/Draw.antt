-- ===== src/Lotto/Draw.antt =====
-- The draw of the lucky numbers: CLotto::CreateLuckyStarMap (src/lotto/CLotto.cpp). A `uint256` is
-- a number below 2 ^ 256. `Hash` over its 32 bytes is double SHA-256 from a library, and so it is a
-- parameter, `hash`, of every definition.
pub mod Loop
pub mod Numbers
pub mod Returns
use dsvalue.Prelude.{
  ℕ, zero, suc, ◌+◌, ◌%◌, ◌≡◌, Bool, true, false, List, [], ◌∷◌, ◌++◌, Option, none, some, Result,
  ok, err, Error, ◌>>=◌, if◌then◌else◌, ltb, ◌==◌, length, contains, split_at_flag,
}
use dsvalue.Prelude.Sorted.{sort}
use dsvalue.Prelude.Map.{Map, insert}
use dsvalue.Lotto.Bet.Mulity.{g_split_flag}

-- CBigNum(h).getvch()[0]: the lowest byte. The vector of 0 is empty.
abbrev pub first_byte : ℕ → Result ℕ
first_byte h = if h == 0 then err Error.undefined else ok (h % 256)

-- One round: a byte below the limit gives a number, which is kept if it is new.
abbrev pub keep : ℕ → ℕ → List ℕ → List ℕ
keep limit byte nums =
    if ltb byte limit
    then (if contains nums (byte + 1) then nums else nums ++ (byte + 1) ∷ [])
    else nums

-- std::sort from behind the flag on.
unfoldable pub sort_behind_flag : List ℕ → List ℕ
sort_behind_flag v = elim (split_at_flag g_split_flag v) [
  | none ↦ v
  | some (before, after) ↦ before ++ g_split_flag ∷ sort after
]

module _ (hash : ℕ → ℕ) where
  -- do { … } while (plukeyNum.size() < want), with fuel for the rounds. The result has the next
  -- hash with it.
  unfoldable pub draw : ℕ → ℕ → ℕ → ℕ → List ℕ → Result (List ℕ × ℕ)
  draw zero limit want h nums = err Error.fuel
  draw (suc fuel) limit want h nums = first_byte h >>= λ byte.
      let nums' = keep limit byte nums in
      let rest = draw fuel limit want (hash h) nums' in
      if ltb (length nums') want then rest else ok (nums', hash h)

  -- The case TYPE_15_6.
  unfoldable pub lucky_15_6 : ℕ → ℕ → Result (List ℕ)
  unfolding draw
  lucky_15_6 fuel h = draw fuel 15 6 (hash h) [] >>= λ r. ok (sort r.0)

  -- The case TYPE_MULILT: the search for a number that is there already goes over the red numbers
  -- too.
  unfoldable pub lucky_mulilt : ℕ → ℕ → Result (List ℕ)
  unfolding draw sort_behind_flag
  lucky_mulilt fuel h = do
    red ← draw fuel 20 5 (hash h) []
    all ← draw fuel 10 8 red.1 (sort red.0 ++ g_split_flag ∷ [])
    ok (sort_behind_flag all.0)

  -- CLotto::CreateLuckyStarMap: the map of lucky numbers by bet type, and whether it was made.
  unfoldable pub create_lucky_star_map : ℕ → ℕ → Result (Map (List ℕ) × Bool)
  unfolding lucky_15_6 lucky_mulilt
  create_lucky_star_map fuel h = if h == 0 then ok ([], false) else (do
    star ← lucky_15_6 fuel h
    stars ← lucky_mulilt fuel h
    ok (insert 1 stars (insert 0 star []), true))
