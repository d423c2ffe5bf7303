-- ===== src/Lotto/Lottery.antt =====
-- The lottery of a round: class CLotto (src/lotto/CLotto.h, CLotto.cpp), from the bets of its
-- transactions on. A pointer to a CBet is one of the two kinds of bet that there are.
pub mod Statistics
use dsvalue.Prelude.{
  ℕ, ◌∷◌, [], List, Option, none, some, Bool, false, Result, ok, err, Error, ◌>>=◌,
}
use dsvalue.Prelude.Int.{ℤ, pos}
use dsvalue.Prelude.Map.{Map, get_or}
use dsvalue.Core.{TxOut}
use dsvalue.Script.{get_bet_data}
use dsvalue.Lotto.Data.{BetType, type_15_6, type_mulilt, typenull, get_type, type_byte}
use dsvalue.Lotto.Bet.{Bet, null_bet, put_bet_data, put_value, put_lucky_star}
use dsvalue.Lotto.Bet.Pick156
use dsvalue.Lotto.Bet.Mulity
use dsvalue.Lotto.Bet.Mulity.{BetMulity, split_select_num}
use dsvalue.Lotto.Draw.{create_lucky_star_map}

pub data SomeBet : Type 0 where
  cbet_15_6 : Bet → SomeBet
  cbet_mulity : BetMulity → SomeBet

-- The fields that all bets have.
abbrev pub base : SomeBet → Bet
base (cbet_15_6 b) = b
base (cbet_mulity b) = b.bet

abbrev pub with_base : SomeBet → Bet → SomeBet
with_base (cbet_15_6 _) base' = cbet_15_6 base'
with_base (cbet_mulity b) base' = cbet_mulity (record b { bet = base' })

-- The virtual functions.
abbrev pub get_total_ber : SomeBet → Result ℤ
get_total_ber (cbet_15_6 b) = Pick156.get_total_ber b
get_total_ber (cbet_mulity b) = Mulity.get_total_ber b.vch

abbrev pub get_mulit : SomeBet → ℕ → Result ℤ
get_mulit (cbet_15_6 b) type = Pick156.get_mulit (pos type)
get_mulit (cbet_mulity b) type = Mulity.get_mulit (pos type)

abbrev pub create_reward_map : SomeBet → Result SomeBet
create_reward_map (cbet_15_6 b) = do made ← Pick156.create_reward_map b; ok (cbet_15_6 made)
create_reward_map (cbet_mulity b) = do made ← Mulity.create_reward_map b; ok (cbet_mulity made)

abbrev null_mulity : BetMulity
null_mulity = record { bet = null_bet; v_red = []; v_blue = [] }

-- CLotto::IsValid
unfoldable pub is_valid : List ℕ → ℤ → Result Bool
is_valid p_lotto n_value = get_type p_lotto >>= λ type. elim type [
  | type_15_6 ↦ (do b ← put_bet_data (put_value null_bet n_value) p_lotto; Pick156.is_valid b)
  | type_mulilt ↦ (do b ← put_bet_data (put_value null_bet n_value) p_lotto; Mulity.is_valid b)
  | typenull ↦ err Error.assertion
]

-- CLotto::CreateCbet
unfoldable pub create_cbet : List ℕ → Result SomeBet
create_cbet p_lotto = get_type p_lotto >>= λ type. elim type [
  | type_15_6 ↦ (do b ← put_bet_data null_bet p_lotto; ok (cbet_15_6 b))
  | type_mulilt ↦ (do
    b ← put_bet_data null_bet p_lotto
    ok (cbet_mulity (split_select_num (record null_mulity { bet = b }))))
  | typenull ↦ err Error.assertion
]

-- The fields of the class, less the key of the lottery file.
pub record Lottery : Type 0 where
  pub v_bet : List SomeBet
  pub hash : ℕ
  pub reward_pool : ℤ
  pub m_reward_scheme : Map (Map ℤ)
  pub m_lucky_star : Map (List ℕ)
  pub bet_coins : Map (Map ℤ)

-- What CLotto::Init does with one output: the bet with its stake, the lucky numbers of its type, and
-- what it wins.
unfoldable pub enter_bet : Map (List ℕ) → TxOut → Result SomeBet
unfolding create_cbet
enter_bet lucky v = get_bet_data v.script_pub_key >>= λ found. elim found [
  | none ↦ err Error.assertion
  | some bet_data ↦ (do
    bet ← create_cbet bet_data
    let type = type_byte (base bet).bet_type
    b ← put_lucky_star (put_value (base bet) v.n_value) (get_or type lucky [])
    create_reward_map (with_base bet b))
]

unfoldable pub enter_bets : Map (List ℕ) → List TxOut → Result (List SomeBet)
unfolding enter_bet
enter_bets lucky [] = ok []
enter_bets lucky (v ∷ tx_out_v) = do
  bet ← enter_bet lucky v
  bets ← enter_bets lucky tx_out_v
  ok (bet ∷ bets)

-- The constructor of CLotto with CLotto::Init. With no lucky numbers no bet is entered.
unfoldable pub init : (ℕ → ℕ) → ℕ → ℕ → ℤ → List TxOut → Result Lottery
unfolding enter_bets
init hash_of fuel hash pool tx_out_v = create_lucky_star_map hash_of fuel hash >>= λ made.
    elim made.1 [
      | Bool.true ↦ (do
        bets ← enter_bets made.0 tx_out_v
        ok (record {
          v_bet = bets;
          hash = hash;
          reward_pool = pool;
          m_reward_scheme = [];
          m_lucky_star = made.0;
          bet_coins = [];
        }))
      | Bool.false ↦ ok (record {
        v_bet = [];
        hash = hash;
        reward_pool = pool;
        m_reward_scheme = [];
        m_lucky_star = made.0;
        bet_coins = [];
      })
    ]
