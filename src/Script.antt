-- ===== src/Script.antt =====
-- Reading a script: CScript (src/script.h, script.cpp). A script is a list of bytes, and an iterator
-- is the part of it that is left.
pub mod Push
pub mod BetData
mod Tests
use dsvalue.Prelude.{
  ℕ, zero, suc, ◌+◌, ◌*◌, Bool, ◌&&◌, ◌++◌, ◌/◌, ◌%◌, List, [], ◌∷◌, Option, none, some, Result, ok,
  err, Error, if◌then◌else◌, leb, ltb, ◌==◌, length, take, drop,
}

abbrev pub op_pushdata1 : ℕ
op_pushdata1 = 0x4c

abbrev pub op_pushdata2 : ℕ
op_pushdata2 = 0x4d

abbrev pub op_pushdata4 : ℕ
op_pushdata4 = 0x4e

abbrev pub op_16 : ℕ
op_16 = 0x60

abbrev pub op_lotto : ℕ
op_lotto = 0xc1

-- The size of the immediate operand, and what is left behind it.
unfoldable pub read_size : ℕ → List ℕ → Option (ℕ × List ℕ)
read_size opcode pc =
    if ltb opcode op_pushdata1
    then some (opcode, pc)
    else if opcode == op_pushdata1
    then elim pc [ [] ↦ none | a ∷ rest ↦ some (a, rest) ]
    else if opcode == op_pushdata2
    then two_bytes pc
    else four_bytes pc
  where
    two_bytes : List ℕ → Option (ℕ × List ℕ)
    two_bytes (a ∷ b ∷ rest) = some (a + 256 * b, rest)
    two_bytes _ = none

    four_bytes : List ℕ → Option (ℕ × List ℕ)
    four_bytes (a ∷ b ∷ c ∷ d ∷ rest) = some (a + 256 * (b + 256 * (c + 256 * d)), rest)
    four_bytes _ = none

-- The operand of `size` bytes.
abbrev take_operand : ℕ → ℕ → List ℕ → Option (ℕ × List ℕ × List ℕ)
take_operand opcode size pc =
    if ltb (length pc) size then none else some (opcode, take size pc, drop size pc)

-- CScript::GetOp2: the opcode, its operand and the rest of the script.
unfoldable pub get_op : List ℕ → Option (ℕ × List ℕ × List ℕ)
unfolding read_size
get_op [] = none
get_op (opcode ∷ pc) =
    if leb opcode op_pushdata4
    then elim (read_size opcode pc) [
      | none ↦ none
      | some (size, rest) ↦ take_operand opcode size rest
    ]
    else some (opcode, [], pc)

-- CScript::GetBetData, from the count of operations so far; the fuel bounds the operations.
unfoldable pub bet_data_from : ℕ → ℕ → List ℕ → Result (Option (List ℕ))
unfolding get_op
bet_data_from fuel n_op_count [] = ok none
bet_data_from zero n_op_count (x ∷ xs) = err Error.fuel
bet_data_from (suc fuel) n_op_count (x ∷ xs) = elim (get_op (x ∷ xs)) [
  | none ↦ ok none
  | some (opcode, operand, rest) ↦
      let count = if ltb op_16 opcode then suc n_op_count else n_op_count in
      let later = bet_data_from fuel count rest in
      if ltb op_16 opcode && ltb 201 count
      then ok none
      else if opcode == op_lotto
      then ok (elim (get_op rest) [ none ↦ none | some (_, bet, _) ↦ some bet ])
      else later
]

-- Each operation takes a byte at least.
unfoldable pub get_bet_data : List ℕ → Result (Option (List ℕ))
unfolding bet_data_from
get_bet_data script = bet_data_from (length script) 0 script

-- The bytes of a number of two and of four bytes, the lowest first.
abbrev pub two_bytes_of : ℕ → List ℕ
two_bytes_of n = n % 256 ∷ n / 256 % 256 ∷ []

abbrev pub four_bytes_of : ℕ → List ℕ
four_bytes_of n = n % 256 ∷ n / 256 % 256 ∷ n / 65536 % 256 ∷ n / 16777216 % 256 ∷ []

-- CScript::operator<<(const std::vector<unsigned char>&): what it appends to the script.
unfoldable pub push_data : List ℕ → List ℕ
push_data b =
    if ltb (length b) op_pushdata1
    then length b ∷ b
    else if leb (length b) 0xff
    then op_pushdata1 ∷ length b ∷ b
    else if leb (length b) 0xffff
    then op_pushdata2 ∷ two_bytes_of (length b) ++ b
    else op_pushdata4 ∷ four_bytes_of (length b) ++ b
