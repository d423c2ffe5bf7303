-- ===== src/Lotto/Bet.antt =====
-- A bet in memory: class CBet (src/lotto/CBet.h, CBet.cpp) and the parts that its two subclasses
-- share. An `int64_t` and an `int` are integers in their range.
pub mod Layout
pub mod Rewards
pub mod Pick156
pub mod Mulity
use dsvalue.Prelude.{
  ℕ, ◌≡◌, refl, Bool, true, false, not, List, [], ◌∷◌, Option, none, some, Result, ok, err, Error,
  ◌>>=◌, ◌>>◌, guard, if◌then◌else◌, length, replicate,
}
use dsvalue.Prelude.Int.{ℤ, pos, mul64, leb_ℤ, ltb_ℤ, wrap32, ◌*ℤ◌}
use dsvalue.Prelude.Sorted.{is_unique}
use dsvalue.Prelude.Map.{Map, lookup, insert}
use dsvalue.Lotto.Data.{
  BetType, type_15_6, type_mulilt, typenull, adresslen, get_type, get_addr, get_select_v,
}

pub record Bet : Type 0 where
  pub bet_type : BetType
  pub address : List ℕ
  pub vch : List ℕ
  pub v_lucky_star : List ℕ
  pub rewardmap : Map ℤ
  pub n_value : ℤ

-- CBet::SetNull on a new object.
abbrev pub null_bet : Bet
null_bet = record {
  bet_type = typenull;
  address = replicate adresslen 0;
  vch = [];
  v_lucky_star = [];
  rewardmap = [];
  n_value = pos 0;
}

-- CBet::operator<<(CBetData&)
unfoldable pub put_bet_data : Bet → List ℕ → Result Bet
put_bet_data b betdata = do
  type ← get_type betdata
  addr ← get_addr betdata
  select ← get_select_v betdata
  ok (record b { bet_type = type; address = addr; vch = select })

-- CBet::operator<<(const vector<unsigned char>&)
unfoldable pub put_lucky_star : Bet → List ℕ → Result Bet
put_lucky_star b vluckly = elim b.v_lucky_star [
  | [] ↦ ok (record b { v_lucky_star = vluckly })
  | x ∷ xs ↦ err Error.assertion
]

-- CBet::operator<<(int64_t)
abbrev pub put_value : Bet → ℤ → Bet
put_value b val = record b { n_value = val }

-- CBet::isWinning
abbrev pub is_winning : Bet → Bool
is_winning b = elim b.rewardmap [ [] ↦ false | x ∷ xs ↦ true ]

-- CTransaction::nMinBet
abbrev pub n_min_bet : ℤ
n_min_bet = pos 100000

-- nMinBet * getTotalBer() >= nValue
unfoldable pub is_underpaid : ℤ → ℤ → Bool
is_underpaid total value = leb_ℤ value (mul64 n_min_bet total)

abbrev is_typenull : BetType → Bool
is_typenull typenull = true
is_typenull type_15_6 = false
is_typenull type_mulilt = false

-- CBet::IsValid, with the virtual call of getTotalBer as an argument.
unfoldable pub base_is_valid : Result ℤ → Bet → Result Bool
unfolding is_underpaid
base_is_valid get_total b =
    if not (is_unique b.vch)
    then ok false
    else if is_typenull b.bet_type
    then ok false
    else get_total >>= λ total. ok (not (is_underpaid total b.n_value))

-- if (k > 0) rewardmap[type] = k;
unfoldable pub put_reward : ℕ → ℤ → Map ℤ → Map ℤ
put_reward type k m = if ltb_ℤ (pos 0) k then insert type k m else m

-- if (rewardmap.count(type) > 0) rewardmap[type] *= npeerBetValue;
unfoldable pub scale_reward : ℕ → ℤ → Map ℤ → Map ℤ
scale_reward type peer m = elim (lookup type m) [ none ↦ m | some k ↦ insert type (mul64 k peer) m ]
