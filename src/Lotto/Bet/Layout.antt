-- ===== src/Lotto/Bet/Layout.antt =====
-- The layout of the raw bet data: one byte for the type, 20 for the address, then the selection.
use dsvalue.Prelude.{
  ℕ, ◌<◌, ◌≡◌, List, ◌∷◌, ◌++◌, ok, arith, length, length-append, take, drop, take_append,
  drop_append,
}
use dsvalue.Lotto.Data.{
  BetType, type_15_6, type_mulilt, type_byte, get_type, get_addr, get_select_v,
}
use dsvalue.Lotto.Bet.{Bet, put_bet_data}

take_address : (addr select : List ℕ) → length addr ≡ 20 → take 20 (addr ++ select) ≡ addr
take_address addr select h = rw (← h) (take_append addr select)

drop_address : (addr select : List ℕ) → length addr ≡ 20 → drop 20 (addr ++ select) ≡ select
drop_address addr select h = rw (← h) (drop_append addr select)

get_addr-layout :
    (t : ℕ) (addr select : List ℕ)
    → t < 2
    → length addr ≡ 20
    → get_addr (t ∷ addr ++ select) ≡ ok addr
unfolding get_addr
get_addr-layout t addr select l h =
    ground (arith, length-append addr select, take_address addr select h)

get_select_v-layout :
    (t : ℕ) (addr select : List ℕ)
    → t < 2
    → length addr ≡ 20
    → get_select_v (t ∷ addr ++ select) ≡ ok select
unfolding get_select_v
get_select_v-layout t addr select l h =
    ground (arith, length-append addr select, drop_address addr select h)

-- Reading data that was laid out as type, address and selection gives these back, and changes no
-- other field of the bet.
pub put_bet_data-layout :
    (b : Bet) (type : BetType) (addr select : List ℕ)
    → type_byte type < 2
    → length addr ≡ 20
    → put_bet_data b (type_byte type ∷ addr ++ select)
      ≡ ok (record b { bet_type = type; address = addr; vch = select })
unfolding put_bet_data get_type
put_bet_data-layout b type_15_6 addr select t h =
    rw (get_addr-layout 0 addr select t h, get_select_v-layout 0 addr select t h)
put_bet_data-layout b type_mulilt addr select t h =
    rw (get_addr-layout 1 addr select t h, get_select_v-layout 1 addr select t h)
put_bet_data-layout b BetType.typenull addr select t h = absurd (omega arith)
