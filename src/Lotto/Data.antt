-- ===== src/Lotto/Data.antt =====
-- The raw bet data and the two enumerations (src/lotto/CBetData.h). A byte vector is a list of
-- numbers below 256, a `uint160` the list of its 20 bytes.
use dsvalue.Prelude.{
  ◌+◌, ℕ, List, [], ◌∷◌, Result, ok, err, Error, ◌>>◌, guard, if◌then◌else◌, ltb, ◌==◌, length,
  take, drop, replicate,
}

-- enum BET_TYPE
pub data BetType : Type 0 where
  type_15_6 type_mulilt typenull : BetType

-- The value of an enumerator: the first byte of bet data, and the key of a map by type.
abbrev pub type_byte : BetType → ℕ
type_byte type_15_6 = 0
type_byte type_mulilt = 1
type_byte typenull = 2

-- enum RWD_TYPE, in the order of its values, which are the keys of a reward map.
abbrev pub top_1 : ℕ
top_1 = 0

abbrev pub top_2 : ℕ
top_2 = 1

abbrev pub top_3 : ℕ
top_3 = 2

abbrev pub top_4 : ℕ
top_4 = 3

abbrev pub top_5 : ℕ
top_5 = 4

abbrev pub top_null : ℕ
top_null = 5

abbrev pub adresslen : ℕ
adresslen = 20

-- CBetData::GetType
unfoldable pub get_type : List ℕ → Result BetType
get_type [] = ok type_15_6
get_type (type ∷ _) =
    if type == 0 then ok type_15_6 else if type == 1 then ok type_mulilt else err Error.assertion

-- The `Assert` of GetAddr and GetSelectV, on data of at least `adresslen` bytes: `*begin()` is a
-- type below `typenull`. The vector between begin() + 1 and begin() + 21 wants 21 bytes.
check_type : List ℕ → Result (Unit {0})
check_type [] = err Error.assertion
check_type (type ∷ _) = guard (ltb type 2) Error.assertion

-- CBetData::GetAddr: `uint160()` for short data.
unfoldable pub get_addr : List ℕ → Result (List ℕ)
unfolding check_type
get_addr v =
    if ltb (length v) adresslen
    then ok (replicate adresslen 0)
    else if ltb (length v) (1 + adresslen)
    then err Error.undefined
    else (check_type v >> ok (take adresslen (drop 1 v)))

-- CBetData::GetSelectV: nothing for short data.
unfoldable pub get_select_v : List ℕ → Result (List ℕ)
unfolding check_type
get_select_v v =
    if ltb (length v) adresslen
    then ok []
    else check_type v
      >> (if ltb (length v) (1 + adresslen)
          then err Error.undefined
          else ok (drop (1 + adresslen) v))
